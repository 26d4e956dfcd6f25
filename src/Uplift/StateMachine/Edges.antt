-- ===== src/Uplift/StateMachine/Edges.antt =====
-- The edges as relations, and what the decisions promise of them.
use gard.Prelude.{String, ◌≡◌, ◌≢◌, ◌↔◌, true, ◌⊎◌, inl, inr, arith, eq_iff, refl}
use gard.Prelude.Tx.{returned, raised}
use gard.Lifecycle.{
  WaveState, draft, submitted, cancelled, invalidated, ExceptionState, pending_review, expired,
  withdrawn,
}
use gard.Uplift.StateMachine.{
  ActorKind, drafter, approver, system, filer, Transition, wave_decide, exception_decide,
  wave_is_terminal, is_wave_sod_edge, is_exception_sod_edge, transition_forbidden,
  self_approval_forbidden,
}

-- ADR-0016 §A with the separation of duties of §B: who may take a wave from where to where.
pub data MayMoveWave (subject author : String) : ActorKind → WaveState → WaveState → Type 0 where
  submit : MayMoveWave subject author drafter draft submitted
  cancel_draft : MayMoveWave subject author drafter draft cancelled
  invalidate_draft : MayMoveWave subject author system draft invalidated
  approve : subject ≢ author → MayMoveWave subject author approver submitted WaveState.approved
  reject : MayMoveWave subject author approver submitted WaveState.rejected
  withdraw : MayMoveWave subject author drafter submitted WaveState.rejected
  cancel : MayMoveWave subject author drafter submitted cancelled
  invalidate : MayMoveWave subject author system submitted invalidated

-- Who approves is not the author.
pub MayMoveWave-approved :
    {subject author : String} {kind : ActorKind} {from to : WaveState}
    → MayMoveWave subject author kind from to
    → to ≡ WaveState.approved
    → subject ≢ author
MayMoveWave-approved (approve ne) e = ne
MayMoveWave-approved submit e = ground arith
MayMoveWave-approved _ e = ground arith

-- Every edge starts at an open state.
pub MayMoveWave-open :
    {subject author : String} {kind : ActorKind} {from to : WaveState}
    → MayMoveWave subject author kind from to
    → (from ≡ draft) ⊎ (from ≡ submitted)
MayMoveWave-open submit = inl refl
MayMoveWave-open cancel_draft = inl refl
MayMoveWave-open invalidate_draft = inl refl
MayMoveWave-open _ = inr refl

ruleset wave_moves =
    (submit, cancel_draft, invalidate_draft, approve, reject, withdraw, cancel, invalidate)

-- What a granted decision hands to the controller.
abbrev pub wave_move : WaveState → WaveState → ActorKind → String → Transition WaveState
wave_move from to kind subject = record {
  from_state = from;
  to_state = to;
  actor_kind = kind;
  actor_subject = subject;
  is_sod_edge = is_wave_sod_edge from to;
}

granted→move :
    (from to : WaveState) (kind : ActorKind) (subject author : String) (t : Transition WaveState)
    → wave_decide from to kind subject author ≡ returned t
    → MayMoveWave subject author kind from to
unfolding wave_decide
granted→move from to kind subject author t h = grind (arith, wave_moves, eq_iff subject author)

move→granted :
    (from to : WaveState) (kind : ActorKind) (subject author : String)
    → MayMoveWave subject author kind from to
    → wave_decide from to kind subject author ≡ returned (wave_move from to kind subject)
unfolding wave_decide
move→granted _ _ _ subject author (approve ne) = ground (arith, eq_iff subject author)
move→granted _ _ _ subject author submit = refl
move→granted _ _ _ subject author _ = refl

-- The decision is granted exactly along the edges of the relation, and the transition that it
-- hands out is the one that was asked for.
pub wave_decide_iff :
    (from to : WaveState) (kind : ActorKind) (subject author : String)
    → (wave_decide from to kind subject author ≡ returned (wave_move from to kind subject))
      ↔ MayMoveWave subject author kind from to
wave_decide_iff from to kind subject author = (
  granted→move from to kind subject author (wave_move from to kind subject),
  move→granted from to kind subject author,
)

-- Whatever `wave_decide` returns is the transition that was asked for, along a legal edge.
pub wave_decide-returned :
    (from to : WaveState) (kind : ActorKind) (subject author : String) (t : Transition WaveState)
    → wave_decide from to kind subject author ≡ returned t
    → (t ≡ wave_move from to kind subject) × MayMoveWave subject author kind from to
unfolding wave_decide
wave_decide-returned from to kind subject author t h =
    (ground arith, granted→move from to kind subject author t h)

-- The separation of duties is what refuses exactly the approval by the wave's drafter.
pub wave_decide-self_approval :
    (from to : WaveState) (kind : ActorKind) (subject author : String)
    → (wave_decide from to kind subject author ≡ raised self_approval_forbidden)
      ↔ ((from ≡ submitted) × (to ≡ WaveState.approved) × (kind ≡ approver) × (subject ≡ author))
unfolding wave_decide
wave_decide-self_approval from to kind subject author = (
  λ h. (ground arith, ground arith, ground arith, ground (arith, eq_iff subject author)),
  λ h. ground (arith, eq_iff subject author),
)

-- The states of `WAVE_TERMINAL` are exactly those that no edge leaves.
pub wave_is_terminal_iff :
    (from : WaveState)
    → (wave_is_terminal from ≡ true) ↔ (
        (to : WaveState) (kind : ActorKind) (subject author : String)
        → wave_decide from to kind subject author ≡ raised transition_forbidden)
unfolding wave_decide wave_is_terminal
wave_is_terminal_iff from = (
  λ h to kind subject author. ground arith,
  λ h. ground (arith, h cancelled drafter "" "", h submitted drafter "" ""),
)

-- ADR-0016 §C: who may move an exception from where to where.
pub data MayMoveException (subject author : String)
    : ActorKind → ExceptionState → ExceptionState → Type 0 where
  approve_it :
      subject ≢ author
      → MayMoveException subject author approver pending_review ExceptionState.approved
  reject_it : MayMoveException subject author approver pending_review ExceptionState.rejected
  withdraw_it : MayMoveException subject author filer pending_review withdrawn
  expire : MayMoveException subject author system ExceptionState.approved expired
  withdraw_approved : MayMoveException subject author filer ExceptionState.approved withdrawn

ruleset exception_moves = (approve_it, reject_it, withdraw_it, expire, withdraw_approved)

exception→move :
    (from to : ExceptionState) (kind : ActorKind) (subject author : String)
    (t : Transition ExceptionState)
    → exception_decide from to kind subject author ≡ returned t
    → MayMoveException subject author kind from to
unfolding exception_decide
exception→move from to kind subject author t h =
    grind (arith, exception_moves, eq_iff subject author)

abbrev exception_move :
    ExceptionState → ExceptionState → ActorKind → String → Transition ExceptionState
exception_move from to kind subject = record {
  from_state = from;
  to_state = to;
  actor_kind = kind;
  actor_subject = subject;
  is_sod_edge = is_exception_sod_edge from to;
}

move→exception :
    (from to : ExceptionState) (kind : ActorKind) (subject author : String)
    → MayMoveException subject author kind from to
    → (t : Transition ExceptionState) × (exception_decide from to kind subject author ≡ returned t)
unfolding exception_decide
move→exception _ _ _ subject author (approve_it ne) = (
  exception_move pending_review ExceptionState.approved approver subject,
  ground (arith, eq_iff subject author),
)
move→exception from to kind subject author reject_it = (exception_move from to kind subject, refl)
move→exception from to kind subject author _ = (exception_move from to kind subject, refl)

-- A decision on an exception is granted only along these edges, each of which is granted.
pub exception_decide_iff :
    (from to : ExceptionState) (kind : ActorKind) (subject author : String)
    → ((t : Transition ExceptionState) × (exception_decide from to kind subject author
          ≡ returned t))
      ↔ MayMoveException subject author kind from to
exception_decide_iff from to kind subject author = (
  λ g. exception→move from to kind subject author g.0 g.1,
  move→exception from to kind subject author,
)
