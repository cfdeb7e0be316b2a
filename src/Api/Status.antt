-- ===== src/Api/Status.antt =====
-- The status of a HelmRelease, and the resource itself
-- (pkg/apis/helm.fluxcd.io/v1/types_helmrelease.go). Times are counted in a unit of the clock.
use helm_operator.Base.{ℕ, Bool, String, Option, List, ℤ, ◌==◌, ◌≡◌, ◌↔◌, true, arith}
use helm_operator.Api.Refs.{ConditionStatus}
use helm_operator.Api.Spec.{HelmReleaseSpec}

pub data HelmReleaseConditionType : Type 0 where
  chart_fetched deployed released rolled_back tested : HelmReleaseConditionType

-- `other` is a phase that no constant names, such as the empty one of a new resource.
pub data HelmReleasePhase : Type 0 where
  chart_fetched chart_fetch_failed installing migrating upgrading : HelmReleasePhase
  deployed deploy_failed testing test_failed tested : HelmReleasePhase
  succeeded failed rolling_back rolled_back rollback_failed : HelmReleasePhase
  other : String → HelmReleasePhase

-- `string(phase)`.
abbrev pub phase_string : HelmReleasePhase → String
phase_string HelmReleasePhase.chart_fetched = "ChartFetched"
phase_string HelmReleasePhase.chart_fetch_failed = "ChartFetchFailed"
phase_string HelmReleasePhase.installing = "Installing"
phase_string HelmReleasePhase.migrating = "Migrating"
phase_string HelmReleasePhase.upgrading = "Upgrading"
phase_string HelmReleasePhase.deployed = "Deployed"
phase_string HelmReleasePhase.deploy_failed = "DeployFailed"
phase_string HelmReleasePhase.testing = "Testing"
phase_string HelmReleasePhase.test_failed = "TestFailed"
phase_string HelmReleasePhase.tested = "Tested"
phase_string HelmReleasePhase.succeeded = "Succeeded"
phase_string HelmReleasePhase.failed = "Failed"
phase_string HelmReleasePhase.rolling_back = "RollingBack"
phase_string HelmReleasePhase.rolled_back = "RolledBack"
phase_string HelmReleasePhase.rollback_failed = "RollbackFailed"
phase_string (HelmReleasePhase.other s) = s

abbrev type_code : HelmReleaseConditionType → ℕ
type_code HelmReleaseConditionType.chart_fetched = 0
type_code HelmReleaseConditionType.deployed = 1
type_code HelmReleaseConditionType.released = 2
type_code HelmReleaseConditionType.rolled_back = 3
type_code HelmReleaseConditionType.tested = 4

-- `==` on condition types, and on condition statuses.
unfoldable pub type_eq : HelmReleaseConditionType → HelmReleaseConditionType → Bool
type_eq a b = type_code a == type_code b

abbrev status_code : ConditionStatus → ℕ
status_code ConditionStatus.condition_true = 0
status_code ConditionStatus.condition_false = 1
status_code ConditionStatus.condition_unknown = 2

unfoldable pub status_eq : ConditionStatus → ConditionStatus → Bool
status_eq a b = status_code a == status_code b

pub type_eq_iff : (a b : HelmReleaseConditionType) → (type_eq a b ≡ true) ↔ (a ≡ b)
unfolding type_eq
type_eq_iff a b = ground arith

pub status_eq_iff : (a b : ConditionStatus) → (status_eq a b ≡ true) ↔ (a ≡ b)
unfolding status_eq
status_eq_iff a b = ground arith

pub record HelmReleaseCondition : Type 0 where
  pub type : HelmReleaseConditionType
  pub status : ConditionStatus
  pub last_update_time : Option ℕ
  pub last_transition_time : Option ℕ
  pub reason : String
  pub message : String

pub record HelmReleaseStatus : Type 0 where
  pub observed_generation : ℤ
  pub phase : HelmReleasePhase
  pub release_name : String
  pub release_status : String
  pub revision : String
  pub last_attempted_revision : String
  pub rollback_count : ℤ
  pub conditions : List HelmReleaseCondition

-- The parts of `metav1.ObjectMeta` that the operator reads, with the two parts of the resource.
pub record HelmRelease : Type 0 where
  pub name : String
  pub namespace : String
  pub generation : ℤ
  pub annotations : List (String × String)
  pub spec : HelmReleaseSpec
  pub status : HelmReleaseStatus
