-- ===== src/Frame/Operations.antt =====
-- The operations on a release (pkg/release/release.go, annotator.go) keep what their calls keep.
use helm_operator.Base.{Bool, Option, String, [], false, none, some, true, ◌∷◌}
use helm_operator.Effects.{Result, ok, err}
use helm_operator.Errors.{ErrCollection}
use helm_operator.Api.{HelmRelease, HelmReleasePhase}
use helm_operator.Helm.{Client, Release}
use helm_operator.Release.{
  Env, Chart, Action, Resources, phase, phase_with_revision, observe, conclude, install, upgrade,
  migrate, rollback, test, uninstall, annotate, dry_run_compare, dry_compared, annotate_resources,
  managed_by_helm_release, ask_first, ask, release_resources, annotate_all,
}
use helm_operator.Frame.Laws.{EnvKeeps, ClientKeeps}
use helm_operator.Frame.Statuses.{set_status_phase-Keeps, set_status_phase_with_revision-Keeps}

module _ {W : Type 0} (P : W → Type 0) (env : Env W) (keeps : EnvKeeps P env) where
  pub phase-kept : (hr : HelmRelease) (p : HelmReleasePhase) (w : W) → P w → P (phase env hr p w)
  phase-kept hr p w h = (set_status_phase-Keeps P env.kube keeps.kube hr.namespace hr p []).at w h

  pub phase_with_revision-kept :
      (hr : HelmRelease) (p : HelmReleasePhase) (revision : String) (w : W)
      → P w
      → P (phase_with_revision env hr p revision w)
  phase_with_revision-kept hr p revision w h =
      (set_status_phase_with_revision-Keeps P env.kube keeps.kube hr.namespace hr p revision).at w h

  observe-kept :
      (hr : HelmRelease) (a : Action) (success : Bool) (w : W)
      → P w
      → P (observe env hr a success w)
  observe-kept hr a success w h = keeps.observe _ _ (keeps.observe _ w h)

  conclude-kept :
      {A : Type 0} (hr : HelmRelease) (a : Action) (bad good : HelmReleasePhase) (message : String)
      (x : Result A × W)
      → P x.1
      → P (conclude env hr a bad good message x).1
  conclude-kept hr a bad good message (err e, w) p =
      observe-kept hr a false (phase env hr bad w) (phase-kept hr bad w p)
  conclude-kept hr a bad good message (ok x, w) p =
      observe-kept hr a true (phase env hr good w) (phase-kept hr good w p)

  pub migrate-kept :
      (hr : HelmRelease) (chart : Chart) (dry_run : Bool) (w : W)
      → P w
      → P (migrate env hr chart dry_run w).1
  unfolding migrate
  migrate-kept hr chart dry_run w p =
      conclude-kept hr Action.migrate HelmReleasePhase.failed HelmReleasePhase.succeeded
        "installation failed" _
        ((keeps.convert _ dry_run).at _
          (phase_with_revision-kept hr HelmReleasePhase.migrating chart.revision w p))

  annotate_all-kept :
      (m : Resources) (id : String) (errs : ErrCollection) (w : W)
      → P w
      → P (annotate_all env m id errs w).1
  unfolding annotate_all
  annotate_all-kept [] id errs w p = p
  annotate_all-kept ((ns, res) ∷ m) id errs w p =
      annotate_all-kept m id _ _ ((keeps.kubectl_annotate ns res id).at w p)

  pub annotate-kept :
      (hr : HelmRelease) (rel : Option Release) (w : W) → P w → P (annotate env hr rel w).1
  unfolding annotate annotate_resources
  annotate-kept hr none w p = observe-kept hr Action.annotate true w p
  annotate-kept hr (some rel) w p =
      observe-kept hr Action.annotate _ _
        (annotate_all-kept (release_resources env rel) (env.resource_id hr) ErrCollection.empty w p)

  ask_first-kept :
      (m : Resources) (hr : HelmRelease) (errs : ErrCollection) (w : W)
      → P w
      → P (ask_first env m hr errs w).1
  unfolding ask_first ask
  ask_first-kept [] hr errs w p = p
  ask_first-kept ((ns, []) ∷ m) hr errs w p = ask_first-kept m hr errs w p
  ask_first-kept ((ns, r ∷ _) ∷ _) hr errs w p = (keeps.kubectl_get ns r).at w p

  pub managed_by_helm_release-kept :
      (rel : Release) (hr : HelmRelease) (w : W) → P w → P (managed_by_helm_release env rel hr w).1
  unfolding managed_by_helm_release
  managed_by_helm_release-kept rel hr w p =
      ask_first-kept (release_resources env rel) hr ErrCollection.empty w p

  module _ (client : Client W) (client_keeps : ClientKeeps P client) (hr : HelmRelease) where
    pub install-kept :
        (chart : Chart) (values : String) (w : W) → P w → P (install env client hr chart values w).1
    unfolding install
    install-kept chart values w p =
        conclude-kept hr Action.install HelmReleasePhase.deploy_failed HelmReleasePhase.deployed
          "installation failed" _
          ((client_keeps.upgrade_from_path chart.chart_path _ values _).at _
            (phase_with_revision-kept hr HelmReleasePhase.installing chart.revision w p))

    pub upgrade-kept :
        (chart : Chart) (values : String) (w : W) → P w → P (upgrade env client hr chart values w).1
    unfolding upgrade
    upgrade-kept chart values w p =
        conclude-kept hr Action.upgrade HelmReleasePhase.deploy_failed HelmReleasePhase.deployed
          "upgrade failed" _
          ((client_keeps.upgrade_from_path chart.chart_path _ values _).at _
            (phase_with_revision-kept hr HelmReleasePhase.upgrading chart.revision w p))

    pub rollback-kept : (w : W) → P w → P (rollback env client hr w).1
    unfolding rollback
    rollback-kept w p =
        conclude-kept hr Action.rollback HelmReleasePhase.rollback_failed
          HelmReleasePhase.rolled_back "rollback failed" _
          ((client_keeps.rollback _ _).at _ (phase-kept hr HelmReleasePhase.rolling_back w p))

    pub test-kept : (w : W) → P w → P (test env client hr w).1
    unfolding test
    test-kept w p =
        conclude-kept hr Action.test HelmReleasePhase.test_failed HelmReleasePhase.tested
          "test failed" _
          ((client_keeps.test _ _).at _ (phase-kept hr HelmReleasePhase.testing w p))

    pub uninstall-kept : (w : W) → P w → P (uninstall env client hr w).1
    unfolding uninstall
    uninstall-kept w p = observe-kept hr Action.uninstall _ _ ((client_keeps.uninstall _ _).at w p)

    dry_compared-kept :
        (rel : Option Release) (x : Result (Option Release) × W)
        → P x.1
        → P (dry_compared env rel hr x).1
    dry_compared-kept rel (err e, w) p = observe-kept hr Action.dry_run_compare false w p
    dry_compared-kept rel (ok none, w) p = observe-kept hr Action.dry_run_compare true w p
    dry_compared-kept none (ok (some dry), w) p = observe-kept hr Action.dry_run_compare true w p
    dry_compared-kept (some cur) (ok (some dry), w) p =
        observe-kept hr Action.dry_run_compare true w p

    pub dry_run_compare-kept :
        (rel : Option Release) (chart : Chart) (values : String) (w : W)
        → P w
        → P (dry_run_compare env client rel hr chart values w).1
    unfolding dry_run_compare
    dry_run_compare-kept rel chart values w p =
        dry_compared-kept rel _
          ((client_keeps.upgrade_from_path chart.chart_path _ values _).at w p)
