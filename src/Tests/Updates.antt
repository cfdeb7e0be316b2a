-- ===== src/Tests/Updates.antt =====
-- The loop over the statuses in the small cluster.
use helm_operator.Base.{[], none, refl, ℕ, ◌∷◌, ◌≡◌}
use helm_operator.Api.{
  HelmRelease, get_release_name, get_helm_version, get_target_namespace, get_defaulted_namespace,
}
use helm_operator.Effects.{ok}
use helm_operator.Release.{load}
use helm_operator.Updater.{Updater, update_each}
use helm_operator.Updater.Quiet.{UpToDate, update_each-UpToDate, no_client, same_status, none_left}
use helm_operator.Tests.Cluster.{kube, web, web_spec, new_status, client_of}

abbrev updater : Updater ℕ
updater = record {
  kube = kube;
  list = λ w. (ok [], w);
  clients = ("v3", client_of (ok none) (ok none)) ∷ [];
  default_helm_version = "";
}

-- A resource for a client that is not there, and one whose status is recorded.
abbrev old_web : HelmRelease
old_web = record web { spec = record web_spec { helm_version = "v2" } }

abbrev recorded : HelmRelease
recorded = record web {
  status = record new_status { release_name = "apps-web"; release_status = "deployed" };
}

both_UpToDate : UpToDate updater (old_web ∷ recorded ∷ []) 4 5
unfolding load get_release_name get_helm_version get_target_namespace get_defaulted_namespace
both_UpToDate =
    no_client refl (same_status (client_of (ok none) (ok none), refl, refl) refl refl none_left)

update_each-UpToDate_example : update_each updater (old_web ∷ recorded ∷ []) 4 ≡ 5
update_each-UpToDate_example =
    update_each-UpToDate updater 3 (λ fn a. refl) (old_web ∷ recorded ∷ []) 4 5 both_UpToDate
