-- ===== src/Release/Safety.antt =====
-- A sync of a release that another resource manages (`Sync`, pkg/release/release.go).
use helm_operator.Base.{Option, String, ap, false, none, refl, some, ◌++s◌, ◌∙◌, ◌≡◌}
use helm_operator.Release.Context.{Env, Chart, Export, load}
use helm_operator.Api.{HelmRelease, get_release_name, get_target_namespace, get_helm_version}
use helm_operator.Effects.{ok, err, returned}
use helm_operator.Errors.{Error, plain, wrapped}
use helm_operator.Helm.{Client, Release}
use helm_operator.Values.{Sources, compose_values}
use helm_operator.Release.Manifest.{managed_by_helm_release}
use helm_operator.Release.Decide.{determine_sync_action, decide_found, decide_by_owner}
use helm_operator.Release.Prepare.{
  prepare_chart, sync, fail_in_target, run_decided, after_sync, clean, fetched,
}
use helm_operator.Release.Syncing.{sync_decided}

module _ {W : Type 0} (env : Env W) (src : Sources W) (hr : HelmRelease) (client : Client W)
    (chart : Chart) (export : Option Export) (values : String) where
  abbrev pub managed_by : String → Error
  managed_by owner =
      wrapped "failed to determine sync action for release"
        (plain ("release appears to be managed by '" ++s (owner ++s "'")))

  refused_action :
      (cur : Release) (owner : String) (w w₁ w₂ : W)
      → client.get
          (get_release_name hr)
          (record { namespace = get_target_namespace hr; version = 0 })
          w
        ≡ (ok (some cur), w₁)
      → managed_by_helm_release env cur hr w₁ ≡ ((false, owner, none), w₂)
      → determine_sync_action env client hr chart w
        ≡ (err (plain ("release appears to be managed by '" ++s (owner ++s "'"))), w₂)
  unfolding determine_sync_action
  refused_action cur owner w w₁ w₂ g m =
      ap (decide_found env client hr chart) g ∙ ap (decide_by_owner env client hr chart cur) m

  refused_run :
      (e : Error) (w : W)
      → run_decided env src hr client chart values (err e, w) ≡ (
        returned (some (wrapped "failed to determine sync action for release" e)),
        fail_in_target env src hr w,
      )
  unfolding run_decided
  refused_run e w = refl

  -- A sync whose release is managed by another resource fails and names its owner. After it has
  -- asked for the owner it calls no operation of Helm: it records the failure, cleans the export of
  -- the chart, and does what every sync does at its end.
  pub unowned_untouched :
      (cur : Release) (owner : String) (w w₁ w₂ w₃ w₄ : W)
      → load env.clients (get_helm_version hr env.config.default_helm_version) ≡ some client
      → prepare_chart env client hr w ≡ (returned (ok (chart, export)), w₁)
      → compose_values src hr chart.chart_path (fetched env src hr chart w₁) ≡ (ok values, w₂)
      → client.get
          (get_release_name hr)
          (record { namespace = get_target_namespace hr; version = 0 })
          w₂
        ≡ (ok (some cur), w₃)
      → managed_by_helm_release env cur hr w₃ ≡ ((false, owner, none), w₄)
      → sync env src hr w ≡ (
        returned (some (managed_by owner)),
        after_sync env src hr
            (returned (some (managed_by owner)))
            (clean env src hr export (fail_in_target env src hr w₄)),
      )
  unowned_untouched cur owner w w₁ w₂ w₃ w₄ l p c g m =
      let refused = plain ("release appears to be managed by '" ++s (owner ++s "'")) in
      sync_decided env src hr client chart export values (err refused) (some (managed_by owner)) w
        w₁ w₂ w₄ (fail_in_target env src hr w₄) l p c (refused_action cur owner w₂ w₃ w₄ g m)
        (refused_run refused w₄)
