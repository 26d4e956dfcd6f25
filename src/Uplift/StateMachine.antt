-- ===== src/Uplift/StateMachine.antt =====
-- gard/core/uplift_state_machine.py: the two edge tables, and the decision whether an actor may
-- drive an edge.
pub mod Edges
use gard.Prelude.{
  String, Bool, true, false, ◌&&◌, Option, none, some, List, [], ◌∷◌, str_eq, if◌then◌else◌,
}
use gard.Prelude.Tx.{Outcome, returned, raised}
use gard.Lifecycle.{
  WaveState, draft, submitted, cancelled, invalidated, ExceptionState, pending_review, expired,
  withdrawn,
}

-- `ActorKind`: the caller's relationship to the row
pub data ActorKind : Type 0 where
  drafter approver system filer anyone : ActorKind

pub data StateMachineError : Type 0 where
  transition_forbidden actor_kind_forbidden self_approval_forbidden : StateMachineError

-- `Transition`, over the states of either machine
pub record Transition (S : Type 0) : Type 0 where
  pub from_state : S
  pub to_state : S
  pub actor_kind : ActorKind
  pub actor_subject : String
  pub is_sod_edge : Bool

-- `_WAVE_EDGES.get(edge)`: the kinds of actor that may drive the edge
unfoldable pub wave_edges : WaveState → WaveState → Option (List ActorKind)
wave_edges draft submitted = some (drafter ∷ [])
wave_edges draft cancelled = some (drafter ∷ [])
wave_edges draft invalidated = some (system ∷ [])
wave_edges submitted WaveState.approved = some (approver ∷ [])
wave_edges submitted WaveState.rejected = some (approver ∷ drafter ∷ [])
wave_edges submitted cancelled = some (drafter ∷ [])
wave_edges submitted invalidated = some (system ∷ [])
wave_edges _ _ = none

-- `_WAVE_SOD_EDGES`
unfoldable pub is_wave_sod_edge : WaveState → WaveState → Bool
is_wave_sod_edge submitted WaveState.approved = true
is_wave_sod_edge _ _ = false

-- `WAVE_TERMINAL`
unfoldable pub wave_is_terminal : WaveState → Bool
wave_is_terminal draft = false
wave_is_terminal submitted = false
wave_is_terminal _ = true

-- `_EXCEPTION_EDGES.get(edge)`
unfoldable pub exception_edges : ExceptionState → ExceptionState → Option (List ActorKind)
exception_edges pending_review ExceptionState.approved = some (approver ∷ [])
exception_edges pending_review ExceptionState.rejected = some (approver ∷ [])
exception_edges pending_review withdrawn = some (filer ∷ [])
exception_edges ExceptionState.approved expired = some (system ∷ [])
exception_edges ExceptionState.approved withdrawn = some (filer ∷ [])
exception_edges _ _ = none

-- `_EXCEPTION_SOD_EDGES`
unfoldable pub is_exception_sod_edge : ExceptionState → ExceptionState → Bool
is_exception_sod_edge pending_review ExceptionState.approved = true
is_exception_sod_edge _ _ = false

abbrev kind_eq : ActorKind → ActorKind → Bool
kind_eq drafter drafter = true
kind_eq approver approver = true
kind_eq system system = true
kind_eq filer filer = true
kind_eq anyone anyone = true
kind_eq _ _ = false

-- `actor_kind in legal_actors`
abbrev pub kind_in : ActorKind → List ActorKind → Bool
kind_in k [] = false
kind_in k (l ∷ ls) = if kind_eq k l then true else kind_in k ls

-- the checks after the edge's actors have been looked up
abbrev decide_edge :
    {S : Type 0}
    → Option (List ActorKind)
    → Transition S
    → String
    → Outcome StateMachineError (Transition S)
decide_edge none t author = raised transition_forbidden
decide_edge (some legal_actors) t author =
    if kind_in t.actor_kind legal_actors
    then if t.is_sod_edge && str_eq t.actor_subject author
      then raised self_approval_forbidden
      else returned t
    else raised actor_kind_forbidden

unfoldable pub wave_decide :
    WaveState
    → WaveState
    → ActorKind
    → String
    → String
    → Outcome StateMachineError (Transition WaveState)
unfolding wave_edges is_wave_sod_edge
wave_decide from_state to_state actor_kind actor_subject drafter_subject =
    decide_edge (wave_edges from_state to_state)
      (record {
        from_state = from_state;
        to_state = to_state;
        actor_kind = actor_kind;
        actor_subject = actor_subject;
        is_sod_edge = is_wave_sod_edge from_state to_state;
      })
      drafter_subject

unfoldable pub exception_decide :
    ExceptionState
    → ExceptionState
    → ActorKind
    → String
    → String
    → Outcome StateMachineError (Transition ExceptionState)
unfolding exception_edges is_exception_sod_edge
exception_decide from_state to_state actor_kind actor_subject filer_subject =
    decide_edge (exception_edges from_state to_state)
      (record {
        from_state = from_state;
        to_state = to_state;
        actor_kind = actor_kind;
        actor_subject = actor_subject;
        is_sod_edge = is_exception_sod_edge from_state to_state;
      })
      filer_subject
