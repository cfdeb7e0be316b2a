-- ===== src/Release/Ends.antt =====
-- The end of the loop over actions (`run`, pkg/release/release.go).
use helm_operator.Base.{Option, String, arith, none, suc, zero, ℕ, ◌<◌, ◌≢◌}
use helm_operator.Release.Context.{Env, Chart, Action}
use helm_operator.Effects.{Outcome, returned, panicked}
use helm_operator.Helm.{Client, Release}
use helm_operator.Release.Cases.{Next, again, stop}
use helm_operator.Api.{HelmRelease}
use helm_operator.Errors.{ErrCollection, empty}
use helm_operator.Release.Run.{step, run_from, run, continue}
use helm_operator.Release.Diagram.{rank, rank-lt, Follows, step-⟶}

module _ {W : Type 0} (env : Env W) (client : Client W) (hr : HelmRelease)
    (cur_rel : Option Release) (chart : Chart) (values : String) where
  go-total :
      (fuel : ℕ)
      → ((a : Action) (rel : Option Release) (errs : ErrCollection) (w : W)
          → rank a < fuel
          → (run_from env client hr cur_rel chart values fuel a rel errs w).0 ≢ returned none)
      → (a : Action) (errs : ErrCollection) (o : Outcome Next) (w : W) → rank a < suc fuel
      → Follows a errs o
      → (continue env client hr cur_rel chart values
          (run_from env client hr cur_rel chart values fuel)
          o
          w).0
        ≢ returned none
  go-total fuel ih a _ panicked w lt f = λ e. cc
  go-total fuel ih a _ (returned (stop errs)) w lt f = λ e. cc
  go-total fuel ih a _ (returned (again b rel errs)) w lt f =
      ih b rel errs w (omega (arith, rank-lt f.0))

  run_from-total :
      (fuel : ℕ) (a : Action) (rel : Option Release) (errs : ErrCollection) (w : W)
      → rank a < fuel
      → (run_from env client hr cur_rel chart values fuel a rel errs w).0 ≢ returned none
  unfolding run_from
  run_from-total zero a rel errs w lt = absurd (omega arith)
  run_from-total (suc fuel) a rel errs w lt =
      let x = step env client hr cur_rel chart values a rel errs w in
      go-total fuel (run_from-total fuel) a errs x.0 x.1 lt
        (step-⟶ env client hr cur_rel chart values a rel errs w)

  -- From any action, whatever the clients answer, the loop comes to its end or panics: it never
  -- needs more than its six rounds.
  pub run_total :
      (a : Action) (w : W) → (run env client hr cur_rel chart values a w).0 ≢ returned none
  unfolding run
  run_total a w = run_from-total 6 a none empty w (rank_lt a)
    where
      rank_lt : (b : Action) → rank b < 6
      rank_lt Action.dry_run_compare = omega arith
      rank_lt _ = omega arith
