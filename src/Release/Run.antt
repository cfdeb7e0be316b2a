-- ===== src/Release/Run.antt =====
-- The loop over actions (`run`, pkg/release/release.go). `goto next` is a round of the loop, which
-- takes fuel; `none` means that the fuel ran out.
use helm_operator.Base.{ℕ, Option, String, none, suc, some, zero}
use helm_operator.Release.Context.{Env, Chart, Action}
use helm_operator.Helm.{Client, Release}
use helm_operator.Api.{HelmRelease}
use helm_operator.Errors.{ErrCollection, empty}
use helm_operator.Effects.{M, returned, pure, panicked, Outcome}
use helm_operator.Release.Cases.{
  Next, dry_run_case, install_case, migrate_case, upgrade_case, test_case, annotate_case,
  rollback_case, uninstall_case, stop, again,
}

module _ {W : Type 0} (env : Env W) (client : Client W) (hr : HelmRelease)
    (cur_rel : Option Release) (chart : Chart) (values : String) where
  -- The `switch`. A skip has no case.
  unfoldable pub step : Action → Option Release → ErrCollection → M W Next
  step Action.dry_run_compare new_rel errs = dry_run_case env client hr cur_rel chart values errs
  step Action.install new_rel errs = install_case env client hr cur_rel chart values errs
  step Action.migrate new_rel errs = migrate_case env client hr cur_rel chart values errs
  step Action.upgrade new_rel errs = upgrade_case env client hr cur_rel chart values errs
  step Action.test new_rel errs = test_case env client hr cur_rel chart values new_rel errs
  step Action.annotate new_rel errs = annotate_case env client hr cur_rel chart values new_rel errs
  step Action.rollback new_rel errs = rollback_case env client hr cur_rel chart values errs
  step Action.uninstall new_rel errs = uninstall_case env client hr cur_rel chart values errs
  step Action.skip new_rel errs = pure (stop errs)

  -- The end of a round: `next` is the loop.
  abbrev pub continue :
      (Action → Option Release → ErrCollection → M W (Option ErrCollection))
      → Outcome Next
      → M W (Option ErrCollection)
  continue next panicked w = (panicked, w)
  continue next (returned (stop errs)) w = (returned (some errs), w)
  continue next (returned (again action rel errs)) w = next action rel errs w

  unfoldable pub run_from : ℕ → Action → Option Release → ErrCollection → M W (Option ErrCollection)
  run_from zero action new_rel errs w = (returned none, w)
  run_from (suc fuel) action new_rel errs w =
      let (r, w₁) = step action new_rel errs w in continue (run_from fuel) r w₁

  -- `run`: an empty collection is returned as nil.
  unfoldable pub run : Action → M W (Option ErrCollection)
  run action = run_from 6 action none empty
