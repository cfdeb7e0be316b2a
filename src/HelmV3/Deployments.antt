-- ===== src/HelmV3/Deployments.antt =====
-- The client of Helm 3 in the loop over actions (pkg/helm/v3/upgrade.go, pkg/release/release.go).
use helm_operator.Base.{Option, String, none, refl, some, ◌≡◌, ◌≢◌, false}
use helm_operator.Api.{HelmRelease, get_helm_version}
use helm_operator.Errors.{Error, ErrCollection}
use helm_operator.Effects.{Result, returned, ok, err}
use helm_operator.Helm.{Release, UpgradeOptions}
use helm_operator.HelmV3.Calls.{Library, RestConfig, Configuration}
use helm_operator.HelmV3.Repositories.{Repo}
use helm_operator.HelmV3.Client.{
  upgrade_from_path, new_action_config, helm_v3, run_upgrade_action, upgraded, with_values,
  with_chart, with_config, revision_of, get_chart_revision,
}
use helm_operator.Release.{Env, Chart, Action, run, sync, load}
use helm_operator.Release.Returning.{Ends, Revises, sync_returns}
use helm_operator.Values.{Sources}
use helm_operator.Release.Readiness.{Deploys, Ready}
use helm_operator.Release.NoPanic.{run_returns}

module _ {W R C V F : Type 0} (lib : Library W R C V) (repo : Repo W F) (config : RestConfig) where
  upgraded-some : (x : Result R × W) → (upgraded lib config x).0 ≢ ok none
  upgraded-some (err e, w) = λ e. cc
  upgraded-some (ok r, w) = λ e. cc

  with_values-some :
      (cfg : Configuration) (name : String) (opts : UpgradeOptions) (c : C) (v : Result V) (w : W)
      → (with_values lib config cfg name opts c v w).0 ≢ ok none
  with_values-some cfg name opts c (err e) w = λ e. cc
  with_values-some cfg name opts c (ok val) w =
      upgraded-some (run_upgrade_action lib config cfg name opts c val w)

  with_chart-some :
      (cfg : Configuration) (name values : String) (opts : UpgradeOptions) (x : Result C × W)
      → (with_chart lib config cfg name values opts x).0 ≢ ok none
  with_chart-some cfg name values opts (err e, w) = λ e. cc
  with_chart-some cfg name values opts (ok c, w) =
      with_values-some cfg name opts c (lib.read_values values) w

  with_config-some :
      (path name values : String) (opts : UpgradeOptions) (x : Result Configuration × W)
      → (with_config lib config path name values opts x).0 ≢ ok none
  with_config-some path name values opts (err e, w) = λ e. cc
  with_config-some path name values opts (ok cfg, w) =
      with_chart-some cfg name values opts (lib.load path w)

  upgrade_from_path-some :
      (path name values : String) (opts : UpgradeOptions) (w : W)
      → (upgrade_from_path lib config path name values opts w).0 ≢ ok none
  unfolding upgrade_from_path
  upgrade_from_path-some path name values opts w =
      with_config-some path name values opts (new_action_config lib config opts.namespace "" w)

  pub helm_v3-Deploys : Deploys (helm_v3 lib repo config)
  helm_v3-Deploys = record { returns = upgrade_from_path-some }

  -- With the client of Helm 3 a run ends with its collection of errors and without a panic, whatever
  -- Helm and the cluster answer: an installation where there is no release yet or rollbacks are
  -- disabled, and, where rollbacks are disabled, an upgrade, a migration, or the comparison with a
  -- release that is there.
  run_returns-helm_v3 :
      (env : Env W) (hr : HelmRelease) (cur : Option Release) (chart : Chart) (values : String)
      (a : Action) (w : W)
      → Ready env (helm_v3 lib repo config) hr cur chart values a none
      → (errs : ErrCollection) × ((run env (helm_v3 lib repo config) hr cur chart values a w).0
          ≡ returned (some errs))
  run_returns-helm_v3 env hr cur chart values a w r =
      run_returns env (helm_v3 lib repo config) hr cur chart values helm_v3-Deploys a w r

  revision_of-Ends :
      ((c : C) → (v : String) × (lib.metadata_version c ≡ some v))
      → (x : Result C × W) → Ends (revision_of lib repo x).0
  revision_of-Ends m (err e, w) = (_, refl)
  revision_of-Ends m (ok c, w) = let (v, e) = m c in rw (e, revision_of) (ok v, refl)

  helm_v3-Revises :
      ((c : C) → (v : String) × (lib.metadata_version c ≡ some v))
      → Revises (helm_v3 lib repo config)
  unfolding get_chart_revision
  helm_v3-Revises m path w = revision_of-Ends m (lib.load path w)

  -- With the client of Helm 3 a whole sync of a resource that does not enable rollbacks returns, with
  -- an error or without one, and does not panic, whatever the cluster, Helm and the sources of charts
  -- and values answer, as long as each chart that is loaded has metadata.
  pub sync_returns-helm_v3 :
      (env : Env W) (src : Sources W) (hr : HelmRelease) (w : W)
      → load env.clients (get_helm_version hr env.config.default_helm_version)
        ≡ some (helm_v3 lib repo config)
      → hr.spec.rollback.enable ≡ false
      → ((c : C) → (v : String) × (lib.metadata_version c ≡ some v))
      → (e : Option Error) × ((sync env src hr w).0 ≡ returned e)
  sync_returns-helm_v3 env src hr w l r m =
      sync_returns env src hr (helm_v3 lib repo config) w l r helm_v3-Deploys (helm_v3-Revises m)
