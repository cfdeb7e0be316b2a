-- ===== src/Status/Rollbacks.antt =====
-- Rollbacks, as the status counts them (pkg/status).
use helm_operator.Base.{
  arith, false, get_or, inc_i64, none, pos, refl, some, true, ℕ, ◌≡◌, ◌<◌, ◌∷◌, suc, [], leb, ◌∙◌,
  ap, inc_i64-pos, zero,
}
use helm_operator.Api.{
  HelmRelease, HelmReleaseConditionType, HelmReleasePhase, condition_true, get_max_retries,
  status_eq,
}
use helm_operator.Status.Conditions.{set_condition, set_all}
use helm_operator.Status.Phase.{conditions_for_phase}
use helm_operator.Status.Update.{conditions_change, set_phase}
use helm_operator.Status.Queries.{should_retry_upgrade, has_rolled_back, has_synced}
use helm_operator.Status.Phases.{condition_status, recorded_status, recorded_count}

-- The resource once the phase has been written without a conflict.
abbrev pub record_phase : HelmReleasePhase → ℕ → HelmRelease → HelmRelease
record_phase phase now hr = elim (conditions_for_phase hr phase now) [
  | none ↦ hr
  | some cs ↦ get_or (conditions_change cs (set_phase phase ∷ []) hr) hr
]

-- The resource after `k` rollbacks that were recorded one after the other.
unfoldable pub rollbacks : ℕ → ℕ → HelmRelease → HelmRelease
rollbacks zero now hr = hr
rollbacks (suc k) now hr = record_phase HelmReleasePhase.rolled_back now (rollbacks k now hr)

rollback_count-record_phase :
    (now : ℕ) (hr : HelmRelease)
    → (record_phase HelmReleasePhase.rolled_back now hr).status.rollback_count
      ≡ inc_i64 hr.status.rollback_count
unfolding conditions_for_phase conditions_change
rollback_count-record_phase now hr = recorded_count hr now hr.status HelmReleasePhase.rolled_back

spec-record_phase :
    (now : ℕ) (hr : HelmRelease) → (record_phase HelmReleasePhase.rolled_back now hr).spec ≡ hr.spec
unfolding conditions_for_phase conditions_change
spec-record_phase now hr = refl

spec-rollbacks : (k now : ℕ) (hr : HelmRelease) → (rollbacks k now hr).spec ≡ hr.spec
unfolding rollbacks
spec-rollbacks zero now hr = refl
spec-rollbacks (suc k) now hr = spec-record_phase now (rollbacks k now hr) ∙ spec-rollbacks k now hr

rollback_count-rollbacks :
    (k now : ℕ) (hr : HelmRelease)
    → hr.status.rollback_count ≡ pos 0
    → k < 9223372036854775807
    → (rollbacks k now hr).status.rollback_count ≡ pos k
unfolding rollbacks
rollback_count-rollbacks zero now hr e lt = e
rollback_count-rollbacks (suc k) now hr e lt =
    let before = rollback_count-rollbacks k now hr e (omega arith) in
    rollback_count-record_phase now (rollbacks k now hr)
    ∙ (ap inc_i64 before ∙ (inc_i64-pos k (omega arith) ∙ ap pos (omega arith)))

retry_test :
    (hr : HelmRelease) (k m : ℕ)
    → hr.spec.rollback.retry ≡ true
    → get_max_retries hr.spec.rollback ≡ pos (suc m)
    → hr.status.rollback_count ≡ pos k
    → should_retry_upgrade hr ≡ leb k (suc m)
unfolding should_retry_upgrade
retry_test hr k m r e c = ground arith

-- With retries enabled, a limit of m + 1 and no rollback counted so far, the upgrade is tried
-- again after each of the first m + 1 rollbacks and after no later one (below 2^63 of them).
pub retries_end :
    (k m now : ℕ) (hr : HelmRelease)
    → hr.spec.rollback.retry ≡ true
    → get_max_retries hr.spec.rollback ≡ pos (suc m)
    → hr.status.rollback_count ≡ pos 0
    → k < 9223372036854775807
    → should_retry_upgrade (rollbacks k now hr) ≡ leb k (suc m)
retries_end k m now hr r e c lt =
    let spec = ap (λ x. x.rollback) (spec-rollbacks k now hr) in
    retry_test (rollbacks k now hr) k m (ap (λ x. x.retry) spec ∙ r) (ap get_max_retries spec ∙ e)
      (rollback_count-rollbacks k now hr c lt)

has_rolled_back_of_status :
    (hr : HelmRelease)
    → (condition_status hr.status HelmReleaseConditionType.rolled_back ≡ some condition_true
        → has_rolled_back hr ≡ has_synced hr)
      × (condition_status hr.status HelmReleaseConditionType.rolled_back ≡ none
          → has_rolled_back hr ≡ false)
unfolding has_rolled_back status_eq
has_rolled_back_of_status hr = (λ e. ground arith, λ e. ground arith)

has_synced-record_phase :
    (now : ℕ) (hr : HelmRelease)
    → has_synced (record_phase HelmReleasePhase.rolled_back now hr) ≡ has_synced hr
unfolding conditions_for_phase conditions_change set_all set_condition has_synced
has_synced-record_phase now hr = refl

-- A resource of which a rollback has been recorded counts as rolled back if and only if its
-- generation had been observed, and no longer does so once a success has been recorded.
has_rolled_back-record_phase :
    (now : ℕ) (hr : HelmRelease)
    → (has_rolled_back (record_phase HelmReleasePhase.rolled_back now hr) ≡ has_synced hr)
      × (has_rolled_back (record_phase HelmReleasePhase.succeeded now hr) ≡ false)
unfolding conditions_for_phase conditions_change
has_rolled_back-record_phase now hr =
    let back =
      recorded_status hr now hr.status HelmReleasePhase.rolled_back
        HelmReleaseConditionType.rolled_back in
    let done =
      recorded_status hr now hr.status HelmReleasePhase.succeeded
        HelmReleaseConditionType.rolled_back in
    let after =
      λ (phase : HelmReleasePhase). has_rolled_back_of_status (record_phase phase now hr) in
    (
      (after HelmReleasePhase.rolled_back).0 back ∙ has_synced-record_phase now hr,
      (after HelmReleasePhase.succeeded).1 done,
    )
