-- ===== src/Frame/Releases.antt =====
-- The loop over actions (`run`, pkg/release/release.go) keeps what its calls keep.
use helm_operator.Base.{Option, String, is_some, ltb, none, some, str_eq, suc, zero, ℕ}
use helm_operator.Effects.{Result, Outcome, M, ok, err, returned, panicked, ◌>>=◌, pure}
use helm_operator.Errors.{Error, ErrCollection, append}
use helm_operator.Api.{HelmRelease, HelmReleasePhase, get_ignore_failures}
use helm_operator.Helm.{Client, Release}
use helm_operator.Status.{has_rolled_back}
use helm_operator.Release.{
  Env, Chart, Action, Next, run, run_from, step, continue, again, stop, compared, dry_run_on,
  dry_run_case, deployed, install_case, upgrade_case, migrate_case, migrate_next, test_case, tested,
  succeed, annotate_case, rollback_case, after_latest, compare_latest, uninstall_case,
  dry_run_compare, undo_test,
}
use helm_operator.Frame.Laws.{EnvKeeps, ClientKeeps}
use helm_operator.Frame.Operations.{
  phase-kept, phase_with_revision-kept, migrate-kept, annotate-kept, install-kept, upgrade-kept,
  rollback-kept, test-kept, uninstall-kept, dry_run_compare-kept,
}
use helm_operator.Frame.Branches.{if-kept, if_call-kept, if_world-kept}

module _ {W : Type 0} (P : W → Type 0) (env : Env W) (keeps : EnvKeeps P env) (client : Client W)
    (client_keeps : ClientKeeps P client) (hr : HelmRelease) (chart : Chart) (cur : Option Release)
    (values : String) where
  compared-kept :
      (r : Result (Release × String)) (errs : ErrCollection) (w : W)
      → P w
      → P (compared env client hr cur chart values r errs w).1
  compared-kept (err e) errs w p = phase-kept P env keeps hr HelmReleasePhase.failed w p
  compared-kept (ok (dry, diff)) errs w p =
      if-kept P (str_eq diff "") _ _
        (if_world-kept P (has_rolled_back hr) _ _ p
          (phase-kept P env keeps hr HelmReleasePhase.succeeded w p))
        p

  dry_run_then-kept :
      (x : Outcome (Result (Release × String)) × W) (errs : ErrCollection)
      → P x.1
      → P (((λ (_ : W). x) >>= λ r. compared env client hr cur chart values r errs) x.1).1
  dry_run_then-kept (panicked, w) errs p = p
  dry_run_then-kept (returned r, w) errs p = compared-kept r errs w p

  dry_run_on-kept :
      (rel : Option Release) (errs : ErrCollection) (w : W)
      → P w
      → P (dry_run_on env client hr cur chart values rel errs w).1
  dry_run_on-kept none errs w p = p
  dry_run_on-kept (some rel) errs w p =
      dry_run_then-kept (dry_run_compare env client (some rel) hr chart values w) errs
        (dry_run_compare-kept P env keeps client client_keeps hr (some rel) chart values w p)

  deployed-kept :
      (undo : Action) (x : Result (Option Release) × W) (errs : ErrCollection)
      → P x.1
      → P (deployed env client hr cur chart values undo x errs).1
  deployed-kept undo (err e, w) errs p = p
  deployed-kept undo (ok rel, w) errs p = p

  migrate_next-kept :
      (x : Result (Unit {0}) × W) (errs : ErrCollection)
      → P x.1
      → P (migrate_next env client hr cur chart values x errs).1
  migrate_next-kept (err e, w) errs p = phase-kept P env keeps hr HelmReleasePhase.failed w p
  migrate_next-kept (ok _, w) errs p = p

  succeed-kept :
      (rel : Option Release) (errs : ErrCollection) (w : W)
      → P w
      → P (succeed env client hr cur chart values rel errs w).1
  succeed-kept rel errs w p =
      phase_with_revision-kept P env keeps hr HelmReleasePhase.succeeded chart.revision w p

  tested-kept :
      (r : Result (Unit {0})) (rel : Option Release) (errs : ErrCollection) (w : W)
      → P w
      → P (tested env client hr cur chart values r rel errs w).1
  tested-kept (ok _) rel errs w p = succeed-kept rel errs w p
  tested-kept (err e) rel errs w p =
      if_call-kept P (get_ignore_failures hr.spec.test)
        (succeed env client hr cur chart values rel (append errs e))
        (pure (again (undo_test env client hr cur chart values) rel (append errs e))) w
        (succeed-kept rel (append errs e) w p) p

  test_case-kept :
      (rel : Option Release) (errs : ErrCollection) (w : W)
      → P w
      → P (test_case env client hr cur chart values rel errs w).1
  unfolding test_case
  test_case-kept rel errs w p =
      if-kept P hr.spec.test.enable _ _
        (tested-kept _ rel errs _ (test-kept P env keeps client client_keeps hr w p))
        (succeed-kept rel errs w p)

  annotate_then-kept :
      (x : Outcome (Option Error) × W) (errs : ErrCollection)
      → P x.1
      → P (((λ (_ : W). x) >>= λ _. pure {W = W} (stop errs)) x.1).1
  annotate_then-kept (panicked, w) errs p = p
  annotate_then-kept (returned r, w) errs p = p

  compare_latest-kept :
      (rel latest : Option Release) (errs : ErrCollection) (w : W)
      → P w
      → P (compare_latest env client hr cur chart values rel latest errs w).1
  compare_latest-kept none latest errs w p = p
  compare_latest-kept (some c) none errs w p = p
  compare_latest-kept (some c) (some l) errs w p =
      if-kept P (ltb c.version l.version) _ _ (rollback-kept P env keeps client client_keeps hr w p)
        p

  after_latest-kept :
      (x : Result (Option Release) × W) (errs : ErrCollection)
      → P x.1
      → P (after_latest env client hr cur chart values x errs).1
  after_latest-kept (err e, w) errs p = p
  after_latest-kept (ok latest, w) errs p = compare_latest-kept cur latest errs w p

  step-kept :
      (a : Action) (rel : Option Release) (errs : ErrCollection) (w : W)
      → P w
      → P (step env client hr cur chart values a rel errs w).1
  unfolding step dry_run_case install_case upgrade_case migrate_case annotate_case rollback_case
      uninstall_case
  step-kept Action.dry_run_compare rel errs w p = dry_run_on-kept cur errs w p
  step-kept Action.install rel errs w p =
      deployed-kept Action.uninstall _ errs
        (install-kept P env keeps client client_keeps hr chart values w p)
  step-kept Action.migrate rel errs w p =
      migrate_next-kept _ errs (migrate-kept P env keeps hr chart _ w p)
  step-kept Action.upgrade rel errs w p =
      deployed-kept Action.rollback _ errs
        (upgrade-kept P env keeps client client_keeps hr chart values w p)
  step-kept Action.test rel errs w p = test_case-kept rel errs w p
  step-kept Action.annotate rel errs w p =
      annotate_then-kept _ errs (annotate-kept P env keeps hr rel w p)
  step-kept Action.rollback rel errs w p =
      if-kept P hr.spec.rollback.enable _ _
        (after_latest-kept _ errs ((client_keeps.get _ _).at w p)) p
  step-kept Action.uninstall rel errs w p =
      let p₁ = uninstall-kept P env keeps client client_keeps hr w p in
      if_world-kept P (is_some hr.spec.chart_source.git_chart_source) _ _
        (keeps.delete_mirror hr _ p₁) p₁
  step-kept Action.skip rel errs w p = p

  continue-kept :
      (next : Action → Option Release → ErrCollection → M W (Option ErrCollection))
      → ((b : Action) (rel : Option Release) (es : ErrCollection) (w : W)
          → P w
          → P (next b rel es w).1)
      → (o : Outcome Next) (w : W) → P w
      → P (continue env client hr cur chart values next o w).1
  continue-kept next ih panicked w p = p
  continue-kept next ih (returned (stop errs)) w p = p
  continue-kept next ih (returned (again b rel errs)) w p = ih b rel errs w p

  run_from-kept :
      (fuel : ℕ) (a : Action) (rel : Option Release) (errs : ErrCollection) (w : W)
      → P w
      → P (run_from env client hr cur chart values fuel a rel errs w).1
  unfolding run_from
  run_from-kept zero a rel errs w p = p
  run_from-kept (suc fuel) a rel errs w p =
      let x = step env client hr cur chart values a rel errs w in
      continue-kept (run_from env client hr cur chart values fuel) (run_from-kept fuel) x.0 x.1
        (step-kept a rel errs w p)

  pub run-kept : (a : Action) (w : W) → P w → P (run env client hr cur chart values a w).1
  unfolding run
  run-kept a w p = run_from-kept 6 a none ErrCollection.empty w p
