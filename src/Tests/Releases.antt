-- ===== src/Tests/Releases.antt =====
-- Runs and decisions in the small cluster.
use helm_operator.Base.{
  lookup, List, Option, [], false, none, refl, some, ℕ, ◌+◌, ◌∷◌, ◌≡◌, ◌≢◌, arith, Bool-cases,
  str_eq, inl, inr,
}
use helm_operator.Effects.{Result, ok, err, returned, panicked, Call}
use helm_operator.Errors.{Error, plain, append, empty, wrapped}
use helm_operator.Helm.{Client, Release}
use helm_operator.Release.{
  Dynamic, render_object, rollback, run, step, upgrade, migrate, determine_sync_action, Object,
  namespaced_resource_map, managed_by_helm_release, Action, annotate,
}
use helm_operator.Release.Diagram.{Follows, step-⟶}
use helm_operator.Release.Ends.{run_total}
use helm_operator.Release.ErrorsKept.{Holds, run_keeps_failure, upgrades}
use helm_operator.Release.Failures.{migrated_upgrade_panics}
use helm_operator.Release.Undo.{upgrade_rolled_back, upgrade_not_rolled_back}
use helm_operator.Release.Labels.{Selects, render_object-Selects}
use helm_operator.Release.Decisions.{Reasoned, determine_sync_action-Reasoned}
use helm_operator.Release.Ownership.{
  resources_in-namespaced_resource_map, resources_in, Owned, managed_by_helm_release-Owned,
}
use helm_operator.Tests.Cluster.{object_of, env, web, web_chart, client_of, release_of}

abbrev healthy : Client ℕ
healthy = client_of (ok (some (release_of 1))) (ok (some (release_of 2)))

-- A client that finds no release and fails to deploy one.
abbrev broken : Client ℕ
broken = client_of (ok none) (err (plain "timed out"))

run_total_example : (run env broken web none web_chart "" Action.upgrade 0).0 ≢ returned none
run_total_example = run_total env broken web none web_chart "" Action.upgrade 0

step-⟶_example :
    Follows Action.upgrade empty
      (step env broken web (some (release_of 1)) web_chart "" Action.upgrade none empty 0).0
step-⟶_example =
    step-⟶ env broken web (some (release_of 1)) web_chart "" Action.upgrade none empty 0

abbrev timed_out : Error
timed_out = wrapped "upgrade failed" (plain "timed out")

run_keeps_failure_example :
    Holds
      (append empty timed_out)
      (run env broken web (some (release_of 1)) web_chart "" Action.upgrade 0).0
unfolding upgrade
run_keeps_failure_example =
    run_keeps_failure env broken web (some (release_of 1)) web_chart "" Action.upgrade
      (upgrade env broken web web_chart "") 0 timed_out upgrades refl

abbrev world_after : Call ℕ (Result (Option Release)) → ℕ
world_after f = (f 0).1

migrated_upgrade_panics_example :
    run env broken web none web_chart "" Action.migrate 0
    ≡ (panicked, (upgrade env broken web web_chart "" (migrate env web web_chart false 0).1).1 + 1)
unfolding migrate upgrade lookup
migrated_upgrade_panics_example =
    migrated_upgrade_panics env broken web web_chart "" none timed_out 0
      (migrate env web web_chart false 0).1
      (upgrade env broken web web_chart "" (migrate env web web_chart false 0).1).1
      ((upgrade env broken web web_chart "" (migrate env web web_chart false 0).1).1 + 1) refl refl
      refl refl refl

determine_sync_action-Reasoned_example :
    Reasoned env broken web web_chart 0 (determine_sync_action env broken web web_chart 0).0
determine_sync_action-Reasoned_example = determine_sync_action-Reasoned env broken web web_chart 0

abbrev two_objects : List Object
two_objects = object_of "" "Deployment" ∷ object_of "istio" "Gateway" ∷ []

resources_in-namespaced_resource_map_example :
    resources_in "apps" (namespaced_resource_map two_objects "apps") ≡ "Deployment/web" ∷ []
resources_in-namespaced_resource_map_example =
    resources_in-namespaced_resource_map two_objects "apps" "apps"

managed_by_helm_release-Owned_example :
    Owned env web (managed_by_helm_release env (release_of 1) web 0).0
managed_by_helm_release-Owned_example = managed_by_helm_release-Owned env (release_of 1) web 0

-- A client that fails to deploy, with this as the latest version.
abbrev failing_at : ℕ → Client ℕ
failing_at version = client_of (ok (some (release_of version))) (err (plain "timed out"))

abbrev failed_upgrade : ℕ → ℕ
failed_upgrade version = (upgrade env (failing_at version) web web_chart "" 0).1

abbrev rolled_back : ℕ → ℕ
rolled_back version = (rollback env (failing_at version) web (failed_upgrade version + 1)).1

upgrade_rolled_back_example :
    run env (failing_at 2) web (some (release_of 1)) web_chart "" Action.upgrade 0 ≡ (
      returned (some (append empty timed_out)),
      (annotate env web (some (release_of 2)) (rolled_back 2)).1,
    )
unfolding upgrade rollback
upgrade_rolled_back_example =
    upgrade_rolled_back env (failing_at 2) web (release_of 1) web_chart "" (release_of 2)
      (release_of 2) timed_out 0 (failed_upgrade 2) (failed_upgrade 2 + 1) (rolled_back 2) refl refl
      refl (omega arith) refl

upgrade_not_rolled_back_example :
    run env (failing_at 1) web (some (release_of 1)) web_chart "" Action.upgrade 0
    ≡ (returned (some (append empty timed_out)), failed_upgrade 1 + 1)
unfolding upgrade
upgrade_not_rolled_back_example =
    upgrade_not_rolled_back env (failing_at 1) web (release_of 1) web_chart "" (release_of 1)
      timed_out 0 (failed_upgrade 1) (failed_upgrade 1 + 1) refl refl refl (omega arith)

-- A cluster in which the workload is deployed without the label of Istio.
abbrev dynamic : Dynamic ℕ
dynamic = record {
  build_config = λ w. (none, w);
  new_for_config = λ w. (none, w);
  get = λ resource ns name w. (ok (object_of "apps" "Deployment"), w + 1);
  delete = λ resource ns name w. (none, w + 10);
  until_with_context = λ f w. (f w).1;
  marshal = λ o. o.name;
}

web_Selects : Selects (object_of "" "Deployment")
unfolding lookup
web_Selects k v h = elim (Bool-cases (str_eq "app" k)) [
  | inl e ↦ rw e (rw e at h)
  | inr e ↦ absurd (ground arith)
]

render_object-Selects_example : Selects (render_object dynamic web (object_of "" "Deployment") 0).0
render_object-Selects_example =
    render_object-Selects dynamic web (object_of "" "Deployment") 0 web_Selects
