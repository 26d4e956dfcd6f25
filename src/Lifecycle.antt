-- ===== src/Lifecycle.antt =====
-- models/_enums.py: the enumerations that the tables and the controllers share. A member's text
-- (`.value`) is read only as the name of the member, so the members are constructors.
use gard.Prelude.{ℕ, String, ◌≡◌, ◌↔◌, Bool, true, arith, ◌==◌}

pub data LifecycleState : Type 0 where
  imported classified target_defined compliant outside_target unknown : LifecycleState
  ready_for_uplift blocked uplift_planned approval_pending approved : LifecycleState
  exception_approved : LifecycleState

pub data WaveState : Type 0 where
  draft submitted approved rejected cancelled invalidated : WaveState

pub data ExceptionState : Type 0 where
  pending_review approved rejected expired withdrawn : ExceptionState

pub data ActorType : Type 0 where
  user system mcp_client adapter : ActorType

-- A number for each member, by which two members are compared.
abbrev pub lifecycle_no : LifecycleState → ℕ
lifecycle_no imported = 0
lifecycle_no classified = 1
lifecycle_no target_defined = 2
lifecycle_no compliant = 3
lifecycle_no outside_target = 4
lifecycle_no unknown = 5
lifecycle_no ready_for_uplift = 6
lifecycle_no blocked = 7
lifecycle_no uplift_planned = 8
lifecycle_no approval_pending = 9
lifecycle_no LifecycleState.approved = 10
lifecycle_no exception_approved = 11

abbrev pub wave_no : WaveState → ℕ
wave_no draft = 0
wave_no submitted = 1
wave_no WaveState.approved = 2
wave_no WaveState.rejected = 3
wave_no cancelled = 4
wave_no invalidated = 5

abbrev pub exception_no : ExceptionState → ℕ
exception_no pending_review = 0
exception_no ExceptionState.approved = 1
exception_no ExceptionState.rejected = 2
exception_no expired = 3
exception_no withdrawn = 4

abbrev pub lifecycle_eq : LifecycleState → LifecycleState → Bool
lifecycle_eq a b = lifecycle_no a == lifecycle_no b

abbrev pub wave_eq : WaveState → WaveState → Bool
wave_eq a b = wave_no a == wave_no b

abbrev pub exception_eq : ExceptionState → ExceptionState → Bool
exception_eq a b = exception_no a == exception_no b

pub lifecycle_eq_iff : (a b : LifecycleState) → (lifecycle_eq a b ≡ true) ↔ (a ≡ b)
lifecycle_eq_iff a b = ground arith

pub wave_eq_iff : (a b : WaveState) → (wave_eq a b ≡ true) ↔ (a ≡ b)
wave_eq_iff a b = ground arith

pub exception_eq_iff : (a b : ExceptionState) → (exception_eq a b ≡ true) ↔ (a ≡ b)
exception_eq_iff a b = ground arith

-- `LifecycleState.value`
abbrev pub lifecycle_value : LifecycleState → String
lifecycle_value imported = "imported"
lifecycle_value classified = "classified"
lifecycle_value target_defined = "target_defined"
lifecycle_value compliant = "compliant"
lifecycle_value outside_target = "outside_target"
lifecycle_value unknown = "unknown"
lifecycle_value ready_for_uplift = "ready_for_uplift"
lifecycle_value blocked = "blocked"
lifecycle_value uplift_planned = "uplift_planned"
lifecycle_value approval_pending = "approval_pending"
lifecycle_value LifecycleState.approved = "approved"
lifecycle_value exception_approved = "exception_approved"

-- `WaveState.value`
abbrev pub wave_value : WaveState → String
wave_value draft = "draft"
wave_value submitted = "submitted"
wave_value WaveState.approved = "approved"
wave_value WaveState.rejected = "rejected"
wave_value cancelled = "cancelled"
wave_value invalidated = "invalidated"

-- `ExceptionState.value`
abbrev pub exception_value : ExceptionState → String
exception_value pending_review = "pending_review"
exception_value ExceptionState.approved = "approved"
exception_value ExceptionState.rejected = "rejected"
exception_value expired = "expired"
exception_value withdrawn = "withdrawn"
