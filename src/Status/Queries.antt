-- ===== src/Status/Queries.antt =====
-- Questions to the status (pkg/status/status.go).
use helm_operator.Base.{Bool, false, ◌||◌, ◌&&◌, Option, none, some, pos, leb_ℤ, if◌then◌else◌}
use helm_operator.Api.{
  HelmRelease, HelmReleaseConditionType, HelmReleaseCondition, condition_true, status_eq,
  get_max_retries,
}
use helm_operator.Status.Conditions.{get_condition}

unfoldable pub has_synced : HelmRelease → Bool
has_synced hr = leb_ℤ hr.generation hr.status.observed_generation

abbrev is_true : Option HelmReleaseCondition → Bool
is_true none = false
is_true (some c) = status_eq c.status condition_true

unfoldable pub has_rolled_back : HelmRelease → Bool
unfolding has_synced
has_rolled_back hr =
    if has_synced hr
    then is_true (get_condition hr.status.conditions HelmReleaseConditionType.rolled_back)
    else false

unfoldable pub should_retry_upgrade : HelmRelease → Bool
should_retry_upgrade hr =
    let max_retries = get_max_retries hr.spec.rollback in
    if hr.spec.rollback.retry
    then (leb_ℤ max_retries (pos 0) && leb_ℤ (pos 0) max_retries)
      || leb_ℤ hr.status.rollback_count max_retries
    else false
