-- ===== src/Release/Operations.antt =====
-- The Helm operations of a release, which record their phases on the HelmRelease
-- (pkg/release/release.go).
use mathlib.Core.Option
use helm_operator.Base.{Bool, Option, String, [], false, is_some, none, not, pos, some, true}
use helm_operator.Release.Context.{Env, Chart, Action, action_string}
use helm_operator.Api.{
  HelmRelease, HelmReleasePhase, get_target_namespace, get_reuse_values, get_release_name,
  get_timeout, rollback_get_timeout, get_cleanup, get_wait, test_get_timeout, get_max_history,
}
use helm_operator.Errors.{Error, wrapped}
use helm_operator.Helm.{Client, UpgradeOptions, Release, diff}
use helm_operator.Effects.{Result, Call, ok, M, err, panicked, returned, Outcome}
use helm_operator.Status.{set_status_phase, set_status_phase_with_revision}
use helm_operator.Release.Manifest.{annotate_resources}
use helm_operator.Release.Observing.{observe_all, action_observations}

module _ {W : Type 0} (env : Env W) where
  -- A recorded phase; the error of the update is dropped.
  abbrev pub phase : HelmRelease → HelmReleasePhase → W → W
  phase hr p w = (set_status_phase env.kube hr.namespace hr p [] w).1

  abbrev pub phase_with_revision : HelmRelease → HelmReleasePhase → String → W → W
  phase_with_revision hr p revision w =
      (set_status_phase_with_revision env.kube hr.namespace hr p revision w).1

  abbrev pub observe : HelmRelease → Action → Bool → W → W
  observe hr a success = observe_all env.observe (
      action_observations (action_string a) success (get_target_namespace hr) (get_release_name hr))

  -- The end of an operation: the phase by its result, the wrapped error, and the deferred metric.
  abbrev pub conclude :
      {A : Type 0}
      → HelmRelease
      → Action
      → HelmReleasePhase
      → HelmReleasePhase
      → String
      → Result A × W
      → Result A × W
  conclude hr a bad good message (err e, w) =
      (err (wrapped message e), observe hr a false (phase hr bad w))
  conclude hr a bad good message (ok x, w) = (ok x, observe hr a true (phase hr good w))

  abbrev pub result_of : Option Error → Result (Unit {0})
  result_of none = ok tt
  result_of (some e) = err e

  abbrev pub install_options : HelmRelease → UpgradeOptions
  install_options hr = record {
    namespace = get_target_namespace hr;
    timeout = get_timeout hr;
    wait = get_wait hr;
    install = true;
    disable_hooks = false;
    dry_run = false;
    client_only = false;
    force = hr.spec.force_upgrade;
    reset_values = false;
    skip_crds = hr.spec.skip_crds;
    reuse_values = false;
    recreate = false;
    max_history = get_max_history hr;
    atomic = false;
    disable_validation = hr.spec.disable_open_api_validation;
    post_renderer = true;
  }

  abbrev pub upgrade_options : HelmRelease → UpgradeOptions
  upgrade_options hr = record (install_options hr) {
    install = false;
    reuse_values = get_reuse_values hr;
    reset_values = not (get_reuse_values hr);
  }

  abbrev pub dry_run_options : HelmRelease → UpgradeOptions
  dry_run_options hr = record {
    namespace = get_target_namespace hr;
    timeout = pos 0;
    wait = false;
    install = false;
    disable_hooks = false;
    dry_run = true;
    client_only = false;
    force = hr.spec.force_upgrade;
    reset_values = not (get_reuse_values hr);
    skip_crds = false;
    reuse_values = get_reuse_values hr;
    recreate = false;
    max_history = pos 0;
    atomic = false;
    disable_validation = false;
    post_renderer = false;
  }

  unfoldable pub install :
      Client W → HelmRelease → Chart → String → Call W (Result (Option Release))
  install client hr chart values w =
      conclude hr Action.install HelmReleasePhase.deploy_failed HelmReleasePhase.deployed
        "installation failed"
        (client.upgrade_from_path chart.chart_path (get_release_name hr) values (install_options hr)
          (phase_with_revision hr HelmReleasePhase.installing chart.revision w))

  unfoldable pub upgrade :
      Client W → HelmRelease → Chart → String → Call W (Result (Option Release))
  upgrade client hr chart values w =
      conclude hr Action.upgrade HelmReleasePhase.deploy_failed HelmReleasePhase.deployed
        "upgrade failed"
        (client.upgrade_from_path chart.chart_path (get_release_name hr) values (upgrade_options hr)
          (phase_with_revision hr HelmReleasePhase.upgrading chart.revision w))

  unfoldable pub migrate : HelmRelease → Chart → Bool → Call W (Result (Unit {0}))
  migrate hr chart dry_run w =
      let (e, w₁) =
        env.convert (get_release_name hr) dry_run
          (phase_with_revision hr HelmReleasePhase.migrating chart.revision w) in
      conclude hr Action.migrate HelmReleasePhase.failed HelmReleasePhase.succeeded
        "installation failed" (result_of e, w₁)

  unfoldable pub rollback : Client W → HelmRelease → Call W (Result (Option Release))
  rollback client hr w =
      conclude hr Action.rollback HelmReleasePhase.rollback_failed HelmReleasePhase.rolled_back
        "rollback failed"
        (client.rollback (get_release_name hr)
          (record {
            namespace = get_target_namespace hr;
            version = 0;
            timeout = rollback_get_timeout hr.spec.rollback;
            wait = hr.spec.rollback.wait;
            disable_hooks = hr.spec.rollback.disable_hooks;
            dry_run = false;
            recreate = hr.spec.rollback.recreate;
            force = hr.spec.rollback.force;
          })
          (phase hr HelmReleasePhase.rolling_back w))

  unfoldable pub test : Client W → HelmRelease → Call W (Result (Unit {0}))
  test client hr w =
      let (e, w₁) =
        client.test (get_release_name hr)
          (record {
            namespace = get_target_namespace hr;
            cleanup = get_cleanup hr.spec.test;
            timeout = test_get_timeout hr.spec.test;
          })
          (phase hr HelmReleasePhase.testing w) in
      conclude hr Action.test HelmReleasePhase.test_failed HelmReleasePhase.tested "test failed"
        (result_of e, w₁)

  -- A nil release panics in `annotateResources`; the deferred metric is observed all the same,
  -- with the error that the panic left nil.
  unfoldable pub annotate : HelmRelease → Option Release → M W (Option Error)
  annotate hr none w = (panicked, observe hr Action.annotate true w)
  annotate hr (some rel) w =
      let (e, w₁) = annotate_resources env rel (env.resource_id hr) w in
      (
        returned (Option.map (wrapped "failed to annotate release resources") e),
        observe hr Action.annotate (not (is_some e)) w₁,
      )

  unfoldable pub uninstall : Client W → HelmRelease → Call W (Option Error)
  uninstall client hr w =
      let (e, w₁) =
        client.uninstall (get_release_name hr)
          (record {
            namespace = get_target_namespace hr;
            disable_hooks = false;
            dry_run = false;
            keep_history = false;
            timeout = get_timeout hr;
          })
          w in
      (Option.map (wrapped "uninstall failed") e, observe hr Action.uninstall (not (is_some e)) w₁)

  abbrev pub dry_compared :
      Option Release
      → HelmRelease
      → Result (Option Release) × W
      → Outcome (Result (Release × String)) × W
  dry_compared rel hr (err e, w) = (
    returned (err (wrapped "dry-run upgrade for comparison failed" e)),
    observe hr Action.dry_run_compare false w,
  )
  dry_compared rel hr (ok none, w) = (panicked, observe hr Action.dry_run_compare true w)
  dry_compared none hr (ok (some dry), w) = (panicked, observe hr Action.dry_run_compare true w)
  dry_compared (some cur) hr (ok (some dry), w) = (
    returned (ok (dry, diff env.diff_values env.diff_charts cur dry)),
    observe hr Action.dry_run_compare true w,
  )

  -- `dryRunCompare`: the release of the dry run and the difference. A nil release panics.
  unfoldable pub dry_run_compare :
      Client W → Option Release → HelmRelease → Chart → String → M W (Result (Release × String))
  dry_run_compare client rel hr chart values w = dry_compared rel hr (
      client.upgrade_from_path chart.chart_path (get_release_name hr) values (dry_run_options hr) w)
