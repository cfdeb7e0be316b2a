-- ===== src/Tests/Returns.antt =====
-- A sync in the small cluster with the client of Helm 3, of a resource without rollbacks.
use helm_operator.Base.{Option, [], false, refl, some, ℕ, ◌∷◌, ◌≡◌}
use helm_operator.Api.{HelmRelease, get_helm_version}
use helm_operator.Errors.{Error}
use helm_operator.Effects.{returned}
use helm_operator.HelmV3.{helm_v3}
use helm_operator.HelmV3.Deployments.{sync_returns-helm_v3}
use helm_operator.Release.{Env, load, sync}
use helm_operator.Tests.Cluster.{env, web, web_spec, rollback_spec}
use helm_operator.Tests.Helms.{repo}
use helm_operator.Tests.HelmActions.{library, config}
use helm_operator.Tests.ValueMaps.{sources}

abbrev plain_web : HelmRelease
plain_web = record web {
  spec = record web_spec { rollback = record rollback_spec { enable = false } };
}

abbrev served : Env ℕ
served = record env { clients = ("v3", helm_v3 library repo config) ∷ [] }

helm_is_loaded :
    load served.clients (get_helm_version plain_web served.config.default_helm_version)
    ≡ some (helm_v3 library repo config)
unfolding load get_helm_version
helm_is_loaded = refl

sync_returns-helm_v3_example :
    (e : Option Error) × ((sync served sources plain_web 0).0 ≡ returned e)
sync_returns-helm_v3_example =
    sync_returns-helm_v3 library repo config served sources plain_web 0 helm_is_loaded refl
      (λ c. ("1.0.0", refl))
