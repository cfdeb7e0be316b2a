-- ===== src/Tests/Deliveries.antt =====
-- A sync in the small cluster, of a release that does not exist yet.
use helm_operator.Base.{[], lookup, none, refl, some, ℕ, ◌+◌, ◌∷◌, ◌≡◌}
use helm_operator.Api.{HelmRelease, get_helm_version, get_values_from_sources}
use helm_operator.Effects.{ok, returned}
use helm_operator.Helm.{Client}
use helm_operator.Chartsync.{ensure_chart_fetched, trim_slash}
use helm_operator.Values.{compose_sources, compose_values}
use helm_operator.Release.{Env, load, sync, prepare_chart, fetched, after_sync}
use helm_operator.Release.Delivery.{sync_installs, before_install, after_install}
use helm_operator.Release.Failures.{after_success}
use helm_operator.Tests.Cluster.{env, web, client_of, release_of}
use helm_operator.Tests.Syncs.{pulled}
use helm_operator.Tests.ValueMaps.{sources}

abbrev fresh : HelmRelease
fresh = record web { annotations = [] }

abbrev client : Client ℕ
client = client_of (ok none) (ok (some (release_of 1)))

abbrev served : Env ℕ
served = record env { clients = ("v3", client) ∷ [] }

abbrev prepared : ℕ
prepared = (prepare_chart served client fresh 0).1

abbrev composed : ℕ
composed =
    (compose_values sources fresh pulled.chart_path
      (fetched served sources fresh pulled prepared)).1

abbrev asked : ℕ
asked = before_install served sources fresh client pulled none "YAML" (release_of 1) (composed + 1)

client_is_loaded :
    load served.clients (get_helm_version fresh served.config.default_helm_version) ≡ some client
unfolding load get_helm_version
client_is_loaded = refl

chart_is_prepared : prepare_chart served client fresh 0 ≡ (returned (ok (pulled, none)), prepared)
unfolding prepare_chart ensure_chart_fetched trim_slash
chart_is_prepared = refl

values_are_composed :
    compose_values sources fresh pulled.chart_path (fetched served sources fresh pulled prepared)
    ≡ (ok "YAML", composed)
unfolding compose_values compose_sources get_values_from_sources
values_are_composed = refl

sync_installs_example : sync served sources fresh 0 ≡ (
  returned none,
  after_sync served sources fresh (returned none) (
      after_success served client fresh none pulled "YAML"
        (release_of 1)
        (after_install served sources fresh client pulled none "YAML" (release_of 1) (asked + 1))),
)
unfolding lookup
sync_installs_example =
    sync_installs served sources fresh client pulled none "YAML" (release_of 1) 0 prepared composed
      (composed + 1) (asked + 1) client_is_loaded chart_is_prepared values_are_composed refl refl
      refl refl
