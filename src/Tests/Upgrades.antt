-- ===== src/Tests/Upgrades.antt =====
-- A sync in the small cluster, of a release whose chart has changed.
use helm_operator.Base.{none, refl, some, true, ℕ, ◌+◌, ◌≡◌}
use helm_operator.Api.{get_helm_version, get_values_from_sources}
use helm_operator.Effects.{ok, returned}
use helm_operator.Helm.{allows_upgrade}
use helm_operator.Chartsync.{ensure_chart_fetched, trim_slash}
use helm_operator.Values.{compose_sources, compose_values}
use helm_operator.Release.{
  load, sync, prepare_chart, fetched, after_sync, managed_by_helm_release, release_resources,
  namespaced_resource_map, release_manifest_to_unstructured, add_resource, trim_space,
}
use helm_operator.Release.Failures.{after_success}
use helm_operator.Release.Upgrading.{sync_upgrades, before_upgrade, after_upgrade}
use helm_operator.Tests.Cluster.{web, release_of}
use helm_operator.Tests.Syncs.{pulled}
use helm_operator.Tests.Steadies.{client, served}
use helm_operator.Tests.ValueMaps.{sources}

abbrev prepared : ℕ
prepared = (prepare_chart served client web 0).1

abbrev composed : ℕ
composed =
    (compose_values sources web pulled.chart_path (fetched served sources web pulled prepared)).1

abbrev owned : ℕ
owned = composed + 1 + 1

abbrev asked : ℕ
asked =
    before_upgrade served sources web client pulled none "YAML" (release_of 1) (release_of 1) owned

client_is_loaded :
    load served.clients (get_helm_version web served.config.default_helm_version) ≡ some client
unfolding load get_helm_version
client_is_loaded = refl

chart_is_prepared : prepare_chart served client web 0 ≡ (returned (ok (pulled, none)), prepared)
unfolding prepare_chart ensure_chart_fetched trim_slash
chart_is_prepared = refl

values_are_composed :
    compose_values sources web pulled.chart_path (fetched served sources web pulled prepared)
    ≡ (ok "YAML", composed)
unfolding compose_values compose_sources get_values_from_sources
values_are_composed = refl

owner_is_web :
    managed_by_helm_release served (release_of 1) web (composed + 1)
    ≡ ((true, "apps:helmrelease/web", none), owned)
unfolding managed_by_helm_release release_resources namespaced_resource_map
    release_manifest_to_unstructured add_resource trim_space
owner_is_web = refl

deployed_is_safe : allows_upgrade (release_of 1).info.status ≡ true
unfolding allows_upgrade
deployed_is_safe = refl

sync_upgrades_example : sync served sources web 0 ≡ (
  returned none,
  after_sync served sources web (returned none) (
      after_success served client web (some (release_of 1)) pulled "YAML" (release_of 1) (
        after_upgrade served sources web client pulled none "YAML"
          (release_of 1)
          (release_of 1)
          (asked + 1))),
)
sync_upgrades_example =
    sync_upgrades served sources web client pulled none "YAML" (release_of 1) (release_of 1)
      "apps:helmrelease/web" 0 prepared composed (composed + 1) owned (asked + 1) client_is_loaded
      chart_is_prepared values_are_composed refl refl owner_is_web deployed_is_safe refl refl
