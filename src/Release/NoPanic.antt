-- ===== src/Release/NoPanic.antt =====
-- Where the loop over actions does not panic (`run`, pkg/release/release.go).
use helm_operator.Base.{
  Option, String, false, inl, is_some, none, refl, some, true, ◌≡◌, ◌≢◌, ℕ, suc, zero,
}
use helm_operator.Release.Context.{Env, Chart, Action}
use helm_operator.Effects.{Outcome, returned, panicked, ok, M}
use helm_operator.Errors.{ErrCollection, empty}
use helm_operator.Helm.{Client, Release}
use helm_operator.Api.{HelmRelease, HelmReleasePhase, get_release_name}
use helm_operator.Release.Cases.{
  Next, again, stop, install_case, upgrade_case, uninstall_case, migrate_case, dry_run_case,
  dry_run_on,
}
use helm_operator.Release.Operations.{
  install, dry_run_compare, upgrade, dry_run_options, install_options, upgrade_options,
  phase_with_revision,
}
use helm_operator.Release.Run.{step, run_from, run, continue}
use helm_operator.Release.Ends.{run_total}
use helm_operator.Release.Readiness.{
  Deploys, conclude-some, CanUndo, Goes, Ready, deployed-Goes, dry_compared-Goes, migrate_next-Goes,
  test_case-Goes, annotate_case-Goes, rollback_case-Goes,
}

module _ {W : Type 0} (env : Env W) (client : Client W) (hr : HelmRelease)
    (cur_rel : Option Release) (chart : Chart) (values : String) (deploys : Deploys client) where
  install-some : (w : W) → (install env client hr chart values w).0 ≢ ok none
  unfolding install
  install-some w =
      conclude-some env client hr cur_rel chart values Action.install HelmReleasePhase.deploy_failed
        HelmReleasePhase.deployed "installation failed"
        (client.upgrade_from_path chart.chart_path (get_release_name hr) values
          (install_options env hr)
          (phase_with_revision env hr HelmReleasePhase.installing chart.revision w))
        (deploys.returns chart.chart_path (get_release_name hr) values (install_options env hr)
          (phase_with_revision env hr HelmReleasePhase.installing chart.revision w))

  upgrade-some : (w : W) → (upgrade env client hr chart values w).0 ≢ ok none
  unfolding upgrade
  upgrade-some w =
      conclude-some env client hr cur_rel chart values Action.upgrade HelmReleasePhase.deploy_failed
        HelmReleasePhase.deployed "upgrade failed"
        (client.upgrade_from_path chart.chart_path (get_release_name hr) values
          (upgrade_options env hr)
          (phase_with_revision env hr HelmReleasePhase.upgrading chart.revision w))
        (deploys.returns chart.chart_path (get_release_name hr) values (upgrade_options env hr)
          (phase_with_revision env hr HelmReleasePhase.upgrading chart.revision w))

  install_case-Goes :
      (errs : ErrCollection) (w : W)
      → CanUndo env client hr cur_rel chart values
      → Goes env client hr cur_rel chart values
          (install_case env client hr cur_rel chart values errs w).0
  unfolding install_case
  install_case-Goes errs w c =
      deployed-Goes env client hr cur_rel chart values Action.uninstall
        (install env client hr chart values w) errs (install-some w) tt c

  upgrade_case-Goes :
      (errs : ErrCollection) (w : W)
      → hr.spec.rollback.enable ≡ false
      → Goes env client hr cur_rel chart values
          (upgrade_case env client hr cur_rel chart values errs w).0
  unfolding upgrade_case
  upgrade_case-Goes errs w d =
      deployed-Goes env client hr cur_rel chart values Action.rollback
        (upgrade env client hr chart values w) errs (upgrade-some w) d (inl d)

  dry_run_on-Goes :
      (c : Option Release) (errs : ErrCollection) (w : W)
      → is_some c ≡ true
      → hr.spec.rollback.enable ≡ false
      → Goes env client hr cur_rel chart values
          (dry_run_on env client hr cur_rel chart values c errs w).0
  unfolding dry_run_compare
  dry_run_on-Goes none errs w s d = absurd cc
  dry_run_on-Goes (some cur) errs w s d =
      dry_compared-Goes env client hr cur_rel chart values cur errs
        (client.upgrade_from_path chart.chart_path (get_release_name hr) values
          (dry_run_options env hr) w)
        (deploys.returns chart.chart_path (get_release_name hr) values (dry_run_options env hr) w) d

  step-Goes :
      (a : Action) (rel : Option Release) (errs : ErrCollection) (w : W)
      → Ready env client hr cur_rel chart values a rel
      → Goes env client hr cur_rel chart values
          (step env client hr cur_rel chart values a rel errs w).0
  unfolding step uninstall_case migrate_case dry_run_case
  step-Goes Action.dry_run_compare rel errs w r = dry_run_on-Goes cur_rel errs w r.0 r.1
  step-Goes Action.install rel errs w r = install_case-Goes errs w r
  step-Goes Action.migrate rel errs w r =
      migrate_next-Goes env client hr cur_rel chart values _ errs r
  step-Goes Action.upgrade rel errs w r = upgrade_case-Goes errs w r
  step-Goes Action.test rel errs w r =
      test_case-Goes env client hr cur_rel chart values rel errs w r.0 r.1
  step-Goes Action.annotate rel errs w r =
      annotate_case-Goes env client hr cur_rel chart values rel errs w r
  step-Goes Action.rollback rel errs w r =
      rollback_case-Goes env client hr cur_rel chart values errs w r
  step-Goes Action.uninstall rel errs w r = tt
  step-Goes Action.skip rel errs w r = tt

  continue-calm :
      (next : Action → Option Release → ErrCollection → M W (Option ErrCollection))
      → ((b : Action) (rel : Option Release) (es : ErrCollection) (w : W)
          → Ready env client hr cur_rel chart values b rel
          → (next b rel es w).0 ≢ panicked)
      → (o : Outcome Next) (w : W) → Goes env client hr cur_rel chart values o
      → (continue env client hr cur_rel chart values next o w).0 ≢ panicked
  continue-calm next ih panicked w g = absurd g
  continue-calm next ih (returned (stop errs)) w g = λ e. cc
  continue-calm next ih (returned (again b rel errs)) w g = ih b rel errs w g

  run_from-calm :
      (fuel : ℕ) (a : Action) (rel : Option Release) (errs : ErrCollection) (w : W)
      → Ready env client hr cur_rel chart values a rel
      → (run_from env client hr cur_rel chart values fuel a rel errs w).0 ≢ panicked
  unfolding run_from
  run_from-calm zero a rel errs w r = λ e. cc
  run_from-calm (suc fuel) a rel errs w r =
      let x = step env client hr cur_rel chart values a rel errs w in
      continue-calm (run_from env client hr cur_rel chart values fuel) (run_from-calm fuel) x.0 x.1
        (step-Goes a rel errs w r)

  settled :
      (o : Outcome (Option ErrCollection))
      → o ≢ panicked
      → o ≢ returned none
      → (errs : ErrCollection) × (o ≡ returned (some errs))
  settled panicked p n = absurd (p refl)
  settled (returned none) p n = absurd (n refl)
  settled (returned (some errs)) p n = (errs, refl)

  -- With a client whose successful deployments return a release, a run ends with its collection of
  -- errors and without a panic, whatever fails on the way: an installation where there is no
  -- release yet or rollbacks are disabled, and, where rollbacks are disabled, an upgrade, a
  -- migration, or the comparison with a release that is there.
  pub run_returns :
      (a : Action) (w : W)
      → Ready env client hr cur_rel chart values a none
      → (errs : ErrCollection) × ((run env client hr cur_rel chart values a w).0
          ≡ returned (some errs))
  unfolding run
  run_returns a w r =
      settled (run env client hr cur_rel chart values a w).0 (run_from-calm 6 a none empty w r)
        (run_total env client hr cur_rel chart values a w)
