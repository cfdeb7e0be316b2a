-- ===== src/Release/ErrorsKept.antt =====
-- The errors of the loop over actions (`run`, pkg/release/release.go).
use helm_operator.Base.{Option, String, none, some, suc, zero, ℕ, ◌≡◌}
use helm_operator.Release.Context.{Env, Chart, Action}
use helm_operator.Errors.{append, ErrCollection, Error, empty}
use helm_operator.Helm.{Client, Release}
use helm_operator.Effects.{Outcome, returned, M, panicked, err, Call, Result}
use helm_operator.Api.{HelmRelease}
use helm_operator.Release.Diagram.{Extends, Follows, step-⟶, Extends-trans}
use helm_operator.Release.Run.{run_from, run, step, continue}
use helm_operator.Release.Cases.{Next, upgrade_case, install_case, stop, again}
use helm_operator.Release.Operations.{upgrade, install}

-- A result holds the errors.
abbrev pub Holds : ErrCollection → Outcome (Option ErrCollection) → Type 0
Holds errs (returned (some errs')) = Extends errs errs'
Holds errs (returned none) = Unit
Holds errs panicked = Unit

-- The two actions that deploy a chart, and their calls.
pub data Deploys {W : Type 0} (env : Env W) (client : Client W) (hr : HelmRelease) (chart : Chart)
    (values : String) : Action → Call W (Result (Option Release)) → Type 0 where
  installs : Deploys env client hr chart values Action.install (install env client hr chart values)
  upgrades : Deploys env client hr chart values Action.upgrade (upgrade env client hr chart values)

module _ {W : Type 0} (env : Env W) (client : Client W) (hr : HelmRelease)
    (cur_rel : Option Release) (chart : Chart) (values : String) where
  continue-Holds :
      (next : Action → Option Release → ErrCollection → M W (Option ErrCollection))
      → ((b : Action) (rel : Option Release) (es : ErrCollection) (w : W)
          → Holds es (next b rel es w).0)
      → (a : Action) (errs : ErrCollection) (o : Outcome Next) (w : W) → Follows a errs o
      → Holds errs (continue env client hr cur_rel chart values next o w).0
  continue-Holds next ih a errs panicked w f = tt
  continue-Holds next ih a errs (returned (stop es)) w f = f
  continue-Holds next ih a errs (returned (again b rel es)) w f =
      widen (next b rel es w).0 f.1 (ih b rel es w)
    where
      widen : (o : Outcome (Option ErrCollection)) → Extends errs es → Holds es o → Holds errs o
      widen panicked h k = tt
      widen (returned none) h k = tt
      widen (returned (some fs)) h k = Extends-trans h k

  pub run_from-Holds :
      (fuel : ℕ) (a : Action) (rel : Option Release) (errs : ErrCollection) (w : W)
      → Holds errs (run_from env client hr cur_rel chart values fuel a rel errs w).0
  unfolding run_from
  run_from-Holds zero a rel errs w = tt
  run_from-Holds (suc fuel) a rel errs w =
      let x = step env client hr cur_rel chart values a rel errs w in
      continue-Holds (run_from env client hr cur_rel chart values fuel) (run_from-Holds fuel) a errs
        x.0 x.1 (step-⟶ env client hr cur_rel chart values a rel errs w)

  round_Holds :
      (fuel : ℕ) (a b : Action) (rel rel' : Option Release) (errs es : ErrCollection) (w : W)
      → (step env client hr cur_rel chart values a rel errs w).0 ≡ returned (again b rel' es)
      → Holds es (run_from env client hr cur_rel chart values (suc fuel) a rel errs w).0
  unfolding run_from
  round_Holds fuel a b rel rel' errs es w h =
      let x = step env client hr cur_rel chart values a rel errs w in
      rw h (run_from-Holds fuel b rel' es x.1)

  upgrade_fails :
      (errs : ErrCollection) (rel : Option Release) (w : W) (e : Error)
      → (upgrade env client hr chart values w).0 ≡ err e
      → (step env client hr cur_rel chart values Action.upgrade rel errs w).0
        ≡ returned (again Action.rollback none (append errs e))
  unfolding step upgrade_case
  upgrade_fails errs rel w e h = rw h

  install_fails :
      (errs : ErrCollection) (rel : Option Release) (w : W) (e : Error)
      → (install env client hr chart values w).0 ≡ err e
      → (step env client hr cur_rel chart values Action.install rel errs w).0
        ≡ returned (again Action.uninstall none (append errs e))
  unfolding step install_case
  install_fails errs rel w e h = rw h

  -- The error of a failed installation or upgrade is among those that the run returns, also where
  -- the release is then uninstalled or rolled back without an error.
  pub run_keeps_failure :
      (a : Action) (f : Call W (Result (Option Release))) (w : W) (e : Error)
      → Deploys env client hr chart values a f
      → (f w).0 ≡ err e
      → Holds (append empty e) (run env client hr cur_rel chart values a w).0
  unfolding run
  run_keeps_failure _ _ w e upgrades h =
      round_Holds 5 Action.upgrade Action.rollback none none empty (append empty e) w
        (upgrade_fails empty none w e h)
  run_keeps_failure _ _ w e installs h =
      round_Holds 5 Action.install Action.uninstall none none empty (append empty e) w
        (install_fails empty none w e h)
