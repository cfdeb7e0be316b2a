-- ===== src/Tests/Steadies.antt =====
-- A sync in the small cluster, of a release that is as it should be.
use helm_operator.Base.{[], none, refl, some, ℕ, ◌+◌, ◌∷◌, ◌≡◌, true, false}
use helm_operator.Api.{HelmRelease, get_helm_version, get_values_from_sources}
use helm_operator.Effects.{ok, returned}
use helm_operator.Helm.{Client, allows_upgrade}
use helm_operator.Chartsync.{ensure_chart_fetched, trim_slash}
use helm_operator.Values.{compose_sources, compose_values}
use helm_operator.Status.{has_synced, has_rolled_back, get_condition}
use helm_operator.Release.{
  Env, Chart, load, sync, prepare_chart, after_sync, managed_by_helm_release, release_resources,
  namespaced_resource_map, release_manifest_to_unstructured, add_resource, trim_space,
}
use helm_operator.Release.Steady.{Unchanged, compared_world, sync_steady}
use helm_operator.Tests.Cluster.{env, web, new_status, client_of, release_of}
use helm_operator.Tests.Syncs.{pulled}
use helm_operator.Tests.ValueMaps.{sources}

abbrev settled : HelmRelease
settled = record web { status = record new_status { last_attempted_revision = "1.0.0" } }

abbrev pub client : Client ℕ
client = client_of (ok (some (release_of 1))) (ok (some (release_of 1)))

abbrev pub served : Env ℕ
served = record env {
  clients = ("v3", client) ∷ [];
  kubectl_get = λ ns r w. (("apps:helmrelease/web", none), w + 1);
}

abbrev fetched_chart : Chart
fetched_chart = record pulled { changed = false }

abbrev prepared : ℕ
prepared = (prepare_chart served client settled 0).1

abbrev composed : ℕ
composed = (compose_values sources settled fetched_chart.chart_path prepared).1

client_is_loaded :
    load served.clients (get_helm_version settled served.config.default_helm_version) ≡ some client
unfolding load get_helm_version
client_is_loaded = refl

chart_is_prepared :
    prepare_chart served client settled 0 ≡ (returned (ok (fetched_chart, none)), prepared)
unfolding prepare_chart ensure_chart_fetched trim_slash
chart_is_prepared = refl

values_are_composed :
    compose_values sources settled fetched_chart.chart_path prepared ≡ (ok "YAML", composed)
unfolding compose_values compose_sources get_values_from_sources
values_are_composed = refl

nothing_is_new : Unchanged served sources settled client fetched_chart none "YAML" (release_of 1)
unfolding has_synced has_rolled_back get_condition allows_upgrade
nothing_is_new = (refl, (refl, (refl, refl)))

owner_is_settled :
    managed_by_helm_release served (release_of 1) settled (composed + 1)
    ≡ ((true, "apps:helmrelease/web", none), composed + 1 + 1)
unfolding managed_by_helm_release release_resources namespaced_resource_map
    release_manifest_to_unstructured add_resource trim_space
owner_is_settled = refl

sync_steady_example : sync served sources settled 0 ≡ (
  returned none,
  after_sync served sources settled (returned none) (
      compared_world served sources settled client fetched_chart none "YAML"
        (release_of 1)
        (composed + 1 + 1 + 1)),
)
sync_steady_example =
    sync_steady served sources settled client fetched_chart none "YAML" (release_of 1)
      "apps:helmrelease/web" (release_of 1) 0 prepared composed (composed + 1) (composed + 1 + 1)
      (composed + 1 + 1 + 1) client_is_loaded chart_is_prepared values_are_composed nothing_is_new
      refl owner_is_settled refl refl
