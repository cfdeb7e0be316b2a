-- ===== src/Tests/Syncs.antt =====
-- A sync in the small cluster, of a release that another resource manages.
use helm_operator.Base.{[], none, refl, some, true, ℕ, ◌+◌, ◌∷◌, ◌≡◌, String, false}
use helm_operator.Effects.{ok, returned}
use helm_operator.Helm.{Client}
use helm_operator.Chartsync.{ensure_chart_fetched, trim_slash}
use helm_operator.Values.{compose_sources, compose_values}
use helm_operator.Release.{
  load, managed_by_helm_release, release_resources, namespaced_resource_map,
  release_manifest_to_unstructured, add_resource, trim_space, Env, Chart, sync, prepare_chart,
  fetched, fail_in_target, after_sync,
}
use helm_operator.Release.Safety.{unowned_untouched, managed_by}
use helm_operator.Tests.Cluster.{env, web, client_of, release_of}
use helm_operator.Tests.ValueMaps.{sources}
use helm_operator.Api.{get_helm_version, get_values_from_sources}

abbrev client : Client ℕ
client = client_of (ok (some (release_of 1))) (ok (some (release_of 2)))

abbrev served : Env ℕ
served = record env { clients = ("v3", client) ∷ [] }

abbrev pub pulled : Chart
pulled = record {
  chart_path = "/tmp/v3/https://charts.example//web-1.0.0.tgz";
  revision = "1.0.0";
  changed = true;
}

abbrev prepared : ℕ
prepared = (prepare_chart served client web 0).1

abbrev composed : ℕ
composed =
    (compose_values sources web pulled.chart_path (fetched served sources web pulled prepared)).1

abbrev foreign : String
foreign = "apps:helmrelease/other"

client_is_loaded :
    load served.clients (get_helm_version web served.config.default_helm_version) ≡ some client
unfolding load get_helm_version
client_is_loaded = refl

chart_is_prepared : prepare_chart served client web 0 ≡ (returned (ok (pulled, none)), prepared)
unfolding prepare_chart ensure_chart_fetched trim_slash
chart_is_prepared = refl

values_are_composed :
    compose_values sources web pulled.chart_path (fetched served sources web pulled prepared)
    ≡ (ok "YAML", composed)
unfolding compose_values compose_sources get_values_from_sources
values_are_composed = refl

owner_is_other :
    managed_by_helm_release served (release_of 1) web (composed + 1)
    ≡ ((false, foreign, none), composed + 1 + 1)
unfolding managed_by_helm_release release_resources namespaced_resource_map
    release_manifest_to_unstructured add_resource trim_space
owner_is_other = refl

unowned_untouched_example : sync served sources web 0 ≡ (
  returned (some (managed_by served sources web client pulled none "YAML" foreign)),
  after_sync served sources web
      (returned (some (managed_by served sources web client pulled none "YAML" foreign)))
      (fail_in_target served sources web (composed + 1 + 1)),
)
unowned_untouched_example =
    unowned_untouched served sources web client pulled none "YAML" (release_of 1) foreign 0 prepared
      composed (composed + 1) (composed + 1 + 1) client_is_loaded chart_is_prepared
      values_are_composed refl owner_is_other
