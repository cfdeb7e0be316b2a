-- ===== src/Tests/Statuses.antt =====
-- Phases, conditions and retried updates in the small cluster.
use helm_operator.Base.{
  [], arith, false, if◌then◌else◌, none, refl, ℕ, ◌+◌, ◌==◌, ◌∷◌, ◌≡◌, All, some,
}
use helm_operator.Api.{
  HelmRelease, HelmReleasePhase, HelmReleaseCondition, HelmReleaseConditionType, condition_true,
  get_ignore_failures, get_max_retries, condition_false,
}
use helm_operator.Effects.{ok, err}
use helm_operator.Errors.{api_conflict}
use helm_operator.Kube.{Kube}
use helm_operator.Status.{
  conditions_for_phase, update, revision_change, condition_draft, should_retry_upgrade,
  observe_release_conditions,
}
use helm_operator.Status.Phases.{IsRecorded, all_set, conditions_for_phase-IsRecorded}
use helm_operator.Status.Rollbacks.{rollbacks, retries_end}
use helm_operator.Status.Retry.{update_after_conflict}
use helm_operator.Status.Gauges.{Shows, Sets, observe_release_conditions-Shows}
use helm_operator.Tests.Cluster.{kube, web, new_status}

abbrev released : HelmReleaseCondition
released = condition_draft HelmReleaseConditionType.released condition_true "done"

abbrev rolled_back : HelmReleaseCondition
rolled_back = condition_draft HelmReleaseConditionType.rolled_back condition_true "undone"

conditions_for_phase-IsRecorded_example :
    IsRecorded new_status HelmReleasePhase.deployed
      (get_ignore_failures web.spec.test)
      (all_set web.status new_status (conditions_for_phase web HelmReleasePhase.deployed 7))
conditions_for_phase-IsRecorded_example =
    conditions_for_phase-IsRecorded web 7 new_status HelmReleasePhase.deployed

retries_end_example : should_retry_upgrade (rollbacks 3 7 web) ≡ false
unfolding get_max_retries
retries_end_example = retries_end 3 1 7 web refl refl refl (omega arith)

-- A cluster whose first write conflicts.
abbrev contended : Kube ℕ
contended = record kube {
  update_status = λ ns hr w. ((if w == 0 then err (api_conflict "web") else ok hr), w + 1);
}

abbrev revised : HelmRelease
revised = record web { status = record new_status { revision = "1.0.0" } }

update_after_conflict_example :
    update contended false "apps" (revision_change "1.0.0") web 0 ≡ (none, 3)
unfolding revision_change
update_after_conflict_example =
    update_after_conflict contended 3 (λ fn a. refl) false "apps" (revision_change "1.0.0") web
      revised web revised revised (api_conflict "web") 0 1 2 3 refl refl refl refl refl refl

-- A resource that is deployed and not released.
abbrev half_done : HelmRelease
half_done = record web {
  status = record new_status {
    conditions =
        condition_draft HelmReleaseConditionType.deployed condition_true "deployed"
        ∷ condition_draft HelmReleaseConditionType.released condition_false "failed"
        ∷ [];
  };
}

observe_release_conditions-Shows_example :
    All (Shows condition_false) (observe_release_conditions web (some half_done))
    × All
        (λ d. Sets half_done d.type (observe_release_conditions web (some half_done)))
        half_done.status.conditions
observe_release_conditions-Shows_example =
    observe_release_conditions-Shows web half_done
      (condition_draft HelmReleaseConditionType.deployed condition_true "deployed" ∷ [])
      (condition_draft HelmReleaseConditionType.released condition_false "failed") refl
