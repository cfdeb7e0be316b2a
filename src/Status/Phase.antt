-- ===== src/Status/Phase.antt =====
-- The conditions that a phase stands for (`ConditionsForPhase`, pkg/status/conditions.go).
use helm_operator.Base.{
  ℕ, Bool, String, ◌++s◌, Option, none, some, List, [], ◌∷◌, map, if◌then◌else◌,
}
use helm_operator.Api.{
  HelmRelease, HelmReleasePhase, HelmReleaseConditionType, HelmReleaseCondition, ConditionStatus,
  condition_true, condition_false, condition_unknown, phase_string, get_release_name,
  get_target_namespace, get_ignore_failures,
}

-- The type, status and message of a condition, before its reason and times are set.
abbrev pub condition_draft :
    HelmReleaseConditionType → ConditionStatus → String → HelmReleaseCondition
condition_draft type status message = record {
  type = type;
  status = status;
  last_update_time = none;
  last_transition_time = none;
  reason = "";
  message = message;
}

-- A step's condition, and that the release failed with it.
abbrev failure_drafts : HelmReleaseConditionType → String → List HelmReleaseCondition
failure_drafts type message =
    condition_draft type condition_false message
    ∷ condition_draft HelmReleaseConditionType.released condition_false message
    ∷ []

-- The `switch`; `subject` is the end of each message, and `none` is the default case.
abbrev pub phase_drafts : HelmReleasePhase → Bool → String → Option (List HelmReleaseCondition)
phase_drafts HelmReleasePhase.installing _ subject = some (
    condition_draft HelmReleaseConditionType.deployed condition_unknown
      ("Running installation for" ++s subject)
    ∷ [])
phase_drafts HelmReleasePhase.upgrading _ subject = some (
    condition_draft HelmReleaseConditionType.deployed condition_unknown
      ("Running upgrade for" ++s subject)
    ∷ [])
phase_drafts HelmReleasePhase.deployed _ subject = some (
    condition_draft HelmReleaseConditionType.deployed condition_true
      ("Installation or upgrade succeeded for" ++s subject)
    ∷ [])
phase_drafts HelmReleasePhase.deploy_failed _ subject = some (
    failure_drafts HelmReleaseConditionType.deployed
      ("Installation or upgrade failed for" ++s subject))
phase_drafts HelmReleasePhase.succeeded _ subject = some (
    condition_draft HelmReleaseConditionType.released condition_true
      ("Release was successful for" ++s subject)
    ∷ [])
phase_drafts HelmReleasePhase.failed _ subject = some (
    condition_draft HelmReleaseConditionType.released condition_false
      ("Release failed for" ++s subject)
    ∷ [])
phase_drafts HelmReleasePhase.testing _ subject =
    some (
      condition_draft HelmReleaseConditionType.tested condition_unknown ("Testing" ++s subject)
      ∷ [])
phase_drafts HelmReleasePhase.tested _ subject =
    some
      (condition_draft HelmReleaseConditionType.tested condition_true ("Tested" ++s subject) ∷ [])
phase_drafts HelmReleasePhase.test_failed ignore_failures subject =
    let message = "Test failed for" ++s subject in
    some (
      if ignore_failures
      then condition_draft HelmReleaseConditionType.tested condition_false message ∷ []
      else failure_drafts HelmReleaseConditionType.tested message)
phase_drafts HelmReleasePhase.rolling_back _ subject = some (
    condition_draft HelmReleaseConditionType.rolled_back condition_unknown
      ("Rolling back" ++s subject)
    ∷ [])
phase_drafts HelmReleasePhase.rolled_back _ subject = some (
    condition_draft HelmReleaseConditionType.rolled_back condition_true ("Rolled back" ++s subject)
    ∷ [])
phase_drafts HelmReleasePhase.rollback_failed _ subject = some (
    condition_draft HelmReleaseConditionType.rolled_back condition_false
      ("Rollback failed for" ++s subject)
    ∷ [])
phase_drafts HelmReleasePhase.chart_fetched _ subject = some (
    condition_draft HelmReleaseConditionType.chart_fetched condition_true
      ("Chart fetch was successful for" ++s subject)
    ∷ [])
phase_drafts HelmReleasePhase.chart_fetch_failed _ subject =
    some
      (failure_drafts HelmReleaseConditionType.chart_fetched ("Chart fetch failed for" ++s subject))
phase_drafts _ _ _ = none

-- The loop that stamps each condition.
abbrev pub stamp : HelmReleasePhase → ℕ → HelmReleaseCondition → HelmReleaseCondition
stamp phase now c = record c {
  reason = phase_string phase;
  last_update_time = some now;
  last_transition_time = some now;
}

abbrev stamp_all :
    HelmReleasePhase → ℕ → Option (List HelmReleaseCondition) → Option (List HelmReleaseCondition)
stamp_all phase now none = none
stamp_all phase now (some cs) = some (map (stamp phase now) cs)

unfoldable pub conditions_for_phase :
    HelmRelease → HelmReleasePhase → ℕ → Option (List HelmReleaseCondition)
conditions_for_phase hr phase now =
    let subject =
      " Helm release '"
      ++s (get_release_name hr ++s ("' in '" ++s (get_target_namespace hr ++s "'."))) in
    stamp_all phase now (phase_drafts phase (get_ignore_failures hr.spec.test) subject)
