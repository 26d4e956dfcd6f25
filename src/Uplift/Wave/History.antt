-- ===== src/Uplift/Wave/History.antt =====
-- Sequences of operations on waves, and the life of one row: a relation that names, for each
-- step, who may take it and which columns it sets.
use gard.Prelude.{
  ℕ, String, Fits, ◌≤◌, ◌+◌, ◌*◌, subst, some_inj, ◌≡◌, ◌≢◌, ◌⊎◌, inl, inr, refl, sym, ap, ◌∙◌,
  true, Option, none, some, List, [], ◌∷◌, ◌<◌, arith,
}
use gard.Lifecycle.{WaveState, draft, submitted, cancelled, invalidated}
use gard.Db.{UpliftWave, Db, Call, minute, hour}
use gard.Uplift.StateMachine.{wave_is_terminal}
use gard.Uplift.Wave.Transitions.{
  to_submitted, to_approved, to_rejected, to_cancelled, to_invalidated, invalidate_affected_waves,
}
use gard.Uplift.Wave.Draft.{DraftRequest, draft_wave}
use gard.Uplift.Wave.Enabled.{WaveOp, apply_op}

abbrev pub IsOpen : UpliftWave → Type 0
IsOpen w = (w.state ≡ draft) ⊎ (w.state ≡ submitted)

-- One step in the life of a row.
pub data RowStep (w w' : UpliftWave) : Type 0 where
  freed : w' ≡ record w { idempotency_key = none } → RowStep w w'
  submits : (call : Call) → w.state ≡ draft → w' ≡ to_submitted call w → RowStep w w'
  approves :
      (call : Call) (citation : String)
      → w.state ≡ submitted
      → call.actor ≢ w.drafted_by
      → Fits 20 2000 citation
      → w' ≡ to_approved call citation w
      → RowStep w w'
  rejects :
      (call : Call) (citation : String)
      → w.state ≡ submitted
      → Fits 20 2000 citation
      → w' ≡ to_rejected call citation w
      → RowStep w w'
  cancels :
      (call : Call) (reason : String)
      → IsOpen w
      → Fits 10 500 reason
      → w' ≡ to_cancelled call reason w
      → RowStep w w'
  invalidates :
      (call : Call) (reason : String) → IsOpen w → w' ≡ to_invalidated call reason w → RowStep w w'

pub data RowSteps (w : UpliftWave) : UpliftWave → Type 0 where
  here : RowSteps w w
  next : {v u : UpliftWave} → RowSteps w v → RowStep v u → RowSteps w u

pub RowSteps-trans : {w v u : UpliftWave} → RowSteps w v → RowSteps v u → RowSteps w u
RowSteps-trans p here = p
RowSteps-trans p (next q s) = next (RowSteps-trans p q) s

-- What a caller, or the catalogue reload, does to the waves.
pub data Action : Type 0 where
  transition : Call → ℕ → WaveOp → Action
  draft_one : Call → DraftRequest → ℕ → Action
  invalidate : Call → List ℕ → Action

-- The database after the action, whether it returned or raised.
unfoldable pub perform : Action → Db → Db
perform (transition call wave_id op) db = (apply_op call wave_id op db).1
perform (draft_one call req wave_id) db = (draft_wave call req wave_id db).1
perform (invalidate call affected) db = (invalidate_affected_waves call affected db).1

unfoldable pub run : List Action → Db → Db
run [] db = db
run (a ∷ rest) db = run rest (perform a db)

-- The CHECK constraints of the table `uplift_waves`: the bounds of the window, the lengths of the
-- texts, an approver who is not the drafter, and for each state the columns that it wants.
pub record IsConsistent (w : UpliftWave) : Type 0 where
  pub window : w.change_window_start < w.change_window_end
  pub max_24h : w.change_window_end ≤ w.change_window_start + 24 * hour
  pub min_15m : w.change_window_start + 15 * minute ≤ w.change_window_end
  pub approval_len : (c : String) → w.approval_citation ≡ some c → Fits 20 2000 c
  pub rejection_len : (c : String) → w.rejection_citation ≡ some c → Fits 20 2000 c
  pub cancellation_len : (c : String) → w.cancellation_reason ≡ some c → Fits 10 500 c
  pub sod : (a : String) → w.approved_by ≡ some a → a ≢ w.drafted_by
  pub submitted_at_set : w.state ≡ submitted → (t : ℕ) × (w.submitted_at ≡ some t)
  pub approved_at_set :
      w.state ≡ WaveState.approved
      → ((a : String) × (w.approved_by ≡ some a)) × ((t : ℕ) × (w.approved_at ≡ some t))
  pub rejected_at_set : w.state ≡ WaveState.rejected → (t : ℕ) × (w.rejected_at ≡ some t)
  pub cancelled_at_set : w.state ≡ cancelled → (t : ℕ) × (w.cancelled_at ≡ some t)
  pub invalidated_at_set : w.state ≡ invalidated → (t : ℕ) × (w.invalidated_at ≡ some t)

pub RowStep-IsConsistent : (w w' : UpliftWave) → RowStep w w' → IsConsistent w → IsConsistent w'
RowStep-IsConsistent w w' (freed e) c = subst IsConsistent (sym e) (record {
  window = c.window;
  max_24h = c.max_24h;
  min_15m = c.min_15m;
  approval_len = c.approval_len;
  rejection_len = c.rejection_len;
  cancellation_len = c.cancellation_len;
  sod = c.sod;
  submitted_at_set = c.submitted_at_set;
  approved_at_set = c.approved_at_set;
  rejected_at_set = c.rejected_at_set;
  cancelled_at_set = c.cancelled_at_set;
  invalidated_at_set = c.invalidated_at_set;
})
RowStep-IsConsistent w w' (submits call s e) c = subst IsConsistent (sym e) (record {
  window = c.window;
  max_24h = c.max_24h;
  min_15m = c.min_15m;
  approval_len = c.approval_len;
  rejection_len = c.rejection_len;
  cancellation_len = c.cancellation_len;
  sod = c.sod;
  submitted_at_set = λ x. (call.now, refl);
  approved_at_set = λ x. absurd (cc x);
  rejected_at_set = λ x. absurd (cc x);
  cancelled_at_set = λ x. absurd (cc x);
  invalidated_at_set = λ x. absurd (cc x);
})
RowStep-IsConsistent w w' (approves call citation s sod fit e) c =
    subst IsConsistent (sym e) (record {
      window = c.window;
      max_24h = c.max_24h;
      min_15m = c.min_15m;
      approval_len = λ t h. subst (Fits 20 2000) (some_inj.0 h) fit;
      rejection_len = c.rejection_len;
      cancellation_len = c.cancellation_len;
      sod = λ a p q. sod (cc (p, q));
      submitted_at_set = λ x. absurd (cc x);
      approved_at_set = λ x. ((call.actor, refl), (call.now, refl));
      rejected_at_set = λ x. absurd (cc x);
      cancelled_at_set = λ x. absurd (cc x);
      invalidated_at_set = λ x. absurd (cc x);
    })
RowStep-IsConsistent w w' (rejects call citation s fit e) c = subst IsConsistent (sym e) (record {
  window = c.window;
  max_24h = c.max_24h;
  min_15m = c.min_15m;
  approval_len = c.approval_len;
  rejection_len = λ t h. subst (Fits 20 2000) (some_inj.0 h) fit;
  cancellation_len = c.cancellation_len;
  sod = c.sod;
  submitted_at_set = λ x. absurd (cc x);
  approved_at_set = λ x. absurd (cc x);
  rejected_at_set = λ x. (call.now, refl);
  cancelled_at_set = λ x. absurd (cc x);
  invalidated_at_set = λ x. absurd (cc x);
})
RowStep-IsConsistent w w' (cancels call reason s fit e) c = subst IsConsistent (sym e) (record {
  window = c.window;
  max_24h = c.max_24h;
  min_15m = c.min_15m;
  approval_len = c.approval_len;
  rejection_len = c.rejection_len;
  cancellation_len = λ t h. subst (Fits 10 500) (some_inj.0 h) fit;
  sod = c.sod;
  submitted_at_set = λ x. absurd (cc x);
  approved_at_set = λ x. absurd (cc x);
  rejected_at_set = λ x. absurd (cc x);
  cancelled_at_set = λ x. (call.now, refl);
  invalidated_at_set = λ x. absurd (cc x);
})
RowStep-IsConsistent w w' (invalidates call reason s e) c = subst IsConsistent (sym e) (record {
  window = c.window;
  max_24h = c.max_24h;
  min_15m = c.min_15m;
  approval_len = c.approval_len;
  rejection_len = c.rejection_len;
  cancellation_len = c.cancellation_len;
  sod = c.sod;
  submitted_at_set = λ x. absurd (cc x);
  approved_at_set = λ x. absurd (cc x);
  rejected_at_set = λ x. absurd (cc x);
  cancelled_at_set = λ x. absurd (cc x);
  invalidated_at_set = λ x. (call.now, refl);
})

pub RowSteps-IsConsistent : (w w' : UpliftWave) → RowSteps w w' → IsConsistent w → IsConsistent w'
RowSteps-IsConsistent w _ here c = c
RowSteps-IsConsistent w w' (next {v = v} q s) c =
    RowStep-IsConsistent v w' s (RowSteps-IsConsistent w v q c)

-- Up to its idempotency key the row is what it was.
abbrev pub SameButKey : UpliftWave → UpliftWave → Type 0
SameButKey w w' = w' ≡ record w { idempotency_key = w'.idempotency_key }

not_open : (s : WaveState) → wave_is_terminal s ≡ true → ¬ ((s ≡ draft) ⊎ (s ≡ submitted))
unfolding wave_is_terminal
not_open s t (inl e) = ground arith
not_open s t (inr e) = ground arith

RowStep-terminal :
    (w v u : UpliftWave)
    → wave_is_terminal w.state ≡ true
    → SameButKey w v
    → RowStep v u
    → SameButKey w u
unfolding wave_is_terminal
RowStep-terminal w v u t e (freed q) =
    q
    ∙ ap (λ (r : UpliftWave). record r { idempotency_key = none }) e
    ∙ ap (λ (k : Option String). record w { idempotency_key = k })
        (sym (ap (λ (r : UpliftWave). r.idempotency_key) q))
RowStep-terminal w v u t e (submits call s q) = absurd (
    not_open v.state
      (subst (λ r. wave_is_terminal r ≡ true) (sym (ap (λ (r : UpliftWave). r.state) e)) t) (inl s))
RowStep-terminal w v u t e (approves call citation s sod fit q) = absurd (
    not_open v.state
      (subst (λ r. wave_is_terminal r ≡ true) (sym (ap (λ (r : UpliftWave). r.state) e)) t) (inr s))
RowStep-terminal w v u t e (rejects call citation s fit q) = absurd (
    not_open v.state
      (subst (λ r. wave_is_terminal r ≡ true) (sym (ap (λ (r : UpliftWave). r.state) e)) t) (inr s))
RowStep-terminal w v u t e (cancels call reason (inl s) fit q) = absurd (
    not_open v.state
      (subst (λ r. wave_is_terminal r ≡ true) (sym (ap (λ (r : UpliftWave). r.state) e)) t) (inl s))
RowStep-terminal w v u t e (cancels call reason (inr s) fit q) = absurd (
    not_open v.state
      (subst (λ r. wave_is_terminal r ≡ true) (sym (ap (λ (r : UpliftWave). r.state) e)) t) (inr s))
RowStep-terminal w v u t e (invalidates call reason (inl s) q) = absurd (
    not_open v.state
      (subst (λ r. wave_is_terminal r ≡ true) (sym (ap (λ (r : UpliftWave). r.state) e)) t) (inl s))
RowStep-terminal w v u t e (invalidates call reason (inr s) q) = absurd (
    not_open v.state
      (subst (λ r. wave_is_terminal r ≡ true) (sym (ap (λ (r : UpliftWave). r.state) e)) t) (inr s))

pub RowSteps-terminal :
    (w u : UpliftWave) → wave_is_terminal w.state ≡ true → RowSteps w u → SameButKey w u
RowSteps-terminal w _ t here = refl
RowSteps-terminal w u t (next {v = v} q s) = RowStep-terminal w v u t (RowSteps-terminal w v t q) s
