-- ===== src/Release/Delivery.antt =====
-- A whole sync that installs a release (`Sync`, pkg/release/release.go).
use helm_operator.Base.{
  Option, String, ap, false, if◌then◌else◌, is_some, lookup, none, some, str_eq, true, ◌&&◌, ◌∙◌,
  ◌≡◌,
}
use helm_operator.Release.Context.{Env, Chart, Export, Action, load}
use helm_operator.Api.{
  HelmRelease, HelmReleasePhase, get_release_name, get_target_namespace, get_helm_version,
}
use helm_operator.Effects.{ok, returned, ◌>>=◌, pure}
use helm_operator.Helm.{Client, Release}
use helm_operator.Values.{Sources, compose_values}
use helm_operator.Release.Operations.{
  install, install_options, phase, phase_with_revision, observe, conclude,
}
use helm_operator.Release.Cases.{migrate_annotation}
use helm_operator.Release.ErrorsKept.{installs}
use helm_operator.Release.Failures.{run_succeeds, after_success}
use helm_operator.Release.Decide.{determine_sync_action, decide_found, decide_new, from_v2}
use helm_operator.Release.Prepare.{
  prepare_chart, sync, run_decided, after_sync, clean, fetched, run_error,
}
use helm_operator.Release.Syncing.{sync_decided}

module _ {W : Type 0} (env : Env W) (src : Sources W) (hr : HelmRelease) (client : Client W)
    (chart : Chart) (export : Option Export) (values : String) (rel : Release) where
  -- The world of an installation: the phase before the client is called, and after it.
  abbrev pub before_install : W → W
  before_install = phase_with_revision env hr HelmReleasePhase.installing chart.revision

  abbrev pub after_install : W → W
  after_install w = observe env hr Action.install true (phase env hr HelmReleasePhase.deployed w)

  new_action :
      (w w₁ : W)
      → client.get
          (get_release_name hr)
          (record { namespace = get_target_namespace hr; version = 0 })
          w
        ≡ (ok none, w₁)
      → lookup migrate_annotation hr.annotations ≡ none
      → determine_sync_action env client hr chart w ≡ (ok (Action.install, none), w₁)
  unfolding determine_sync_action decide_new
  new_action w w₁ g m =
      ap (decide_found env client hr chart) g
      ∙ ap
          (λ o.
            if is_some o && str_eq (get_helm_version hr env.config.default_helm_version) "v3"
            then from_v2 env client hr chart (env.v2_release_exists (get_release_name hr) w₁)
            else (ok (Action.install, none), w₁))
          m

  installed :
      (w w₁ : W)
      → client.upgrade_from_path chart.chart_path
          (get_release_name hr)
          values
          (install_options env hr)
          (before_install w)
        ≡ (ok (some rel), w₁)
      → install env client hr chart values w ≡ (ok (some rel), after_install w₁)
  unfolding install
  installed w w₁ u =
      ap
        (conclude env hr Action.install HelmReleasePhase.deploy_failed HelmReleasePhase.deployed
          "installation failed")
        u

  run_installs :
      (w w₁ : W)
      → hr.spec.test.enable ≡ false
      → client.upgrade_from_path chart.chart_path
          (get_release_name hr)
          values
          (install_options env hr)
          (before_install w)
        ≡ (ok (some rel), w₁)
      → run_decided env src hr client chart values (ok (Action.install, none), w)
        ≡ (returned none, after_success env client hr none chart values rel (after_install w₁))
  unfolding run_decided
  run_installs w w₁ t u =
      ap (λ x. ((λ _. x) >>= λ r. pure (run_error env src hr r)) w)
        (run_succeeds env client hr none chart values Action.install
          (install env client hr chart values) rel w (after_install w₁) t installs
          (installed w w₁ u))

  -- A sync of a release that does not exist yet and is not to be migrated installs it, where the chart
  -- is prepared, the values are composed and the client accepts them, with tests disabled: it returns
  -- no error, records the phases of the installation and the success with its revision, annotates
  -- the resources, cleans the export of the chart, and does what every sync does at its end.
  pub sync_installs :
      (w w₁ w₂ w₃ w₄ : W)
      → load env.clients (get_helm_version hr env.config.default_helm_version) ≡ some client
      → prepare_chart env client hr w ≡ (returned (ok (chart, export)), w₁)
      → compose_values src hr chart.chart_path (fetched env src hr chart w₁) ≡ (ok values, w₂)
      → client.get
          (get_release_name hr)
          (record { namespace = get_target_namespace hr; version = 0 })
          w₂
        ≡ (ok none, w₃)
      → lookup migrate_annotation hr.annotations ≡ none
      → client.upgrade_from_path chart.chart_path
          (get_release_name hr)
          values
          (install_options env hr)
          (before_install w₃)
        ≡ (ok (some rel), w₄)
      → hr.spec.test.enable ≡ false
      → sync env src hr w ≡ (
        returned none,
        after_sync env src hr (returned none) (
            clean env src hr export
              (after_success env client hr none chart values rel (after_install w₄))),
      )
  sync_installs w w₁ w₂ w₃ w₄ l p c g m u t =
      sync_decided env src hr client chart export values (ok (Action.install, none)) none w w₁ w₂ w₃
        (after_success env client hr none chart values rel (after_install w₄)) l p c
        (new_action w₂ w₃ g m) (run_installs w₃ w₄ t u)
