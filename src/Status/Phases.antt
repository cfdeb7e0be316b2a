-- ===== src/Status/Phases.antt =====
-- What recording a phase leaves in the status (pkg/status/conditions.go).
use mathlib.Core.Option
use helm_operator.Base.{
  Bool, Bool-cases, List, Option, arith, false, get_or, if◌then◌else◌, inc_i64, inl, inr, none, pos,
  refl, some, true, ℕ, ℤ, ◌≡◌,
}
use helm_operator.Api.{
  HelmRelease, HelmReleaseStatus, HelmReleaseConditionType, HelmReleasePhase, ConditionStatus,
  HelmReleaseCondition, type_eq, condition_unknown, condition_true, get_ignore_failures,
  condition_false,
}
use helm_operator.Status.Conditions.{set_condition, set_all, get_condition, keep_transition}
use helm_operator.Status.Phase.{conditions_for_phase}
use helm_operator.Status.Laws.{settles, get_condition-set_condition}

-- The status of a condition, if it is there.
abbrev pub condition_status : HelmReleaseStatus → HelmReleaseConditionType → Option ConditionStatus
condition_status s t = Option.map (λ c. c.status) (get_condition s.conditions t)

condition_status-set_condition :
    (old s : HelmReleaseStatus) (c : HelmReleaseCondition) (t : HelmReleaseConditionType)
    → condition_status (set_condition old s c) t ≡ (
        if type_eq c.type t
        then some c.status
        else if settles c.type c.status t
        then none
        else condition_status s t)
condition_status-set_condition old s c t = ground (
  arith,
  get_condition-set_condition old s c t,
  keep_transition-status (get_condition old.conditions c.type) c,
)
  where
    keep_transition-status :
        (o : Option HelmReleaseCondition) (d : HelmReleaseCondition)
        → (keep_transition o d).status ≡ d.status
    keep_transition-status o d = ground arith

-- What setting a condition makes of the count of rollbacks.
abbrev pub count_after : HelmReleaseConditionType → ConditionStatus → ℤ → ℤ
count_after HelmReleaseConditionType.released condition_true _ = pos 0
count_after HelmReleaseConditionType.rolled_back condition_true n = inc_i64 n
count_after _ _ n = n

rollback_count-set_condition :
    (old s : HelmReleaseStatus) (c : HelmReleaseCondition)
    → (set_condition old s c).rollback_count ≡ count_after c.type c.status s.rollback_count
unfolding set_condition
rollback_count-set_condition old s c = ground arith

-- The status that a phase gives to each condition, as a table; `none` leaves it alone.
abbrev pub phase_status :
    HelmReleasePhase → Bool → HelmReleaseConditionType → Option ConditionStatus
phase_status HelmReleasePhase.installing _ HelmReleaseConditionType.deployed =
    some condition_unknown
phase_status HelmReleasePhase.upgrading _ HelmReleaseConditionType.deployed = some condition_unknown
phase_status HelmReleasePhase.deployed _ HelmReleaseConditionType.deployed = some condition_true
phase_status HelmReleasePhase.deploy_failed _ HelmReleaseConditionType.deployed =
    some condition_false
phase_status HelmReleasePhase.deploy_failed _ HelmReleaseConditionType.released =
    some condition_false
phase_status HelmReleasePhase.succeeded _ HelmReleaseConditionType.released = some condition_true
phase_status HelmReleasePhase.failed _ HelmReleaseConditionType.released = some condition_false
phase_status HelmReleasePhase.testing _ HelmReleaseConditionType.tested = some condition_unknown
phase_status HelmReleasePhase.tested _ HelmReleaseConditionType.tested = some condition_true
phase_status HelmReleasePhase.test_failed _ HelmReleaseConditionType.tested = some condition_false
phase_status HelmReleasePhase.test_failed false HelmReleaseConditionType.released =
    some condition_false
phase_status HelmReleasePhase.rolling_back _ HelmReleaseConditionType.rolled_back =
    some condition_unknown
phase_status HelmReleasePhase.rolled_back _ HelmReleaseConditionType.rolled_back =
    some condition_true
phase_status HelmReleasePhase.rollback_failed _ HelmReleaseConditionType.rolled_back =
    some condition_false
phase_status HelmReleasePhase.chart_fetched _ HelmReleaseConditionType.chart_fetched =
    some condition_true
phase_status HelmReleasePhase.chart_fetch_failed _ HelmReleaseConditionType.chart_fetched =
    some condition_false
phase_status HelmReleasePhase.chart_fetch_failed _ HelmReleaseConditionType.released =
    some condition_false
phase_status _ _ _ = none

-- A successful release forgets that it was rolled back.
abbrev pub phase_drops : HelmReleasePhase → HelmReleaseConditionType → Bool
phase_drops HelmReleasePhase.succeeded HelmReleaseConditionType.rolled_back = true
phase_drops _ _ = false

abbrev pub phase_count : HelmReleasePhase → ℤ → ℤ
phase_count HelmReleasePhase.succeeded _ = pos 0
phase_count HelmReleasePhase.rolled_back n = inc_i64 n
phase_count _ n = n

abbrev pub IsRecorded : HelmReleaseStatus → HelmReleasePhase → Bool → HelmReleaseStatus → Type 0
IsRecorded s phase ignore s' =
    ((t : HelmReleaseConditionType)
      → condition_status s' t
        ≡ get_or (Option.map some (phase_status phase ignore t))
            (if phase_drops phase t then none else condition_status s t))
    × (s'.rollback_count ≡ phase_count phase s.rollback_count)

abbrev pub all_set :
    HelmReleaseStatus → HelmReleaseStatus → Option (List HelmReleaseCondition) → HelmReleaseStatus
all_set old s none = s
all_set old s (some cs) = set_all old s cs

module _ (hr : HelmRelease) (now : ℕ) (s : HelmReleaseStatus) where
  pub recorded_status :
      (phase : HelmReleasePhase) (t : HelmReleaseConditionType)
      → condition_status (all_set hr.status s (conditions_for_phase hr phase now)) t
        ≡ get_or
            (Option.map some (phase_status phase (get_ignore_failures hr.spec.test) t))
            (if phase_drops phase t then none else condition_status s t)
  unfolding set_all conditions_for_phase type_eq
  recorded_status HelmReleasePhase.test_failed t =
      elim (Bool-cases (get_ignore_failures hr.spec.test)) [
        | inl e ↦ rw e (simp condition_status-set_condition (ground arith))
        | inr e ↦ rw e (simp condition_status-set_condition (ground arith))
      ]
  recorded_status HelmReleasePhase.migrating t = refl
  recorded_status (HelmReleasePhase.other _) t = refl
  recorded_status _ t = simp condition_status-set_condition (ground arith)

  pub recorded_count :
      (phase : HelmReleasePhase)
      → (all_set hr.status s (conditions_for_phase hr phase now)).rollback_count
        ≡ phase_count phase s.rollback_count
  unfolding set_all conditions_for_phase
  recorded_count HelmReleasePhase.test_failed =
      elim (Bool-cases (get_ignore_failures hr.spec.test)) [
        | inl e ↦ rw e (simp rollback_count-set_condition)
        | inr e ↦ rw e (simp rollback_count-set_condition)
      ]
  recorded_count HelmReleasePhase.migrating = refl
  recorded_count (HelmReleasePhase.other _) = refl
  recorded_count _ = simp rollback_count-set_condition

-- Recording a phase sets each condition to the status that the table gives, drops the rollback
-- only on success, leaves every other condition alone, and resets the count of rollbacks on
-- success, adds one to it when a rollback is done, and otherwise keeps it, also when a rollback
-- fails.
pub conditions_for_phase-IsRecorded :
    (hr : HelmRelease) (now : ℕ) (s : HelmReleaseStatus) (phase : HelmReleasePhase)
    → IsRecorded s phase
        (get_ignore_failures hr.spec.test)
        (all_set hr.status s (conditions_for_phase hr phase now))
conditions_for_phase-IsRecorded hr now s phase =
    (λ t. recorded_status hr now s phase t, recorded_count hr now s phase)
