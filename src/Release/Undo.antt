-- ===== src/Release/Undo.antt =====
-- What is done about a failed upgrade or installation (`run`, pkg/release/release.go).
use helm_operator.Base.{
  Option, String, ap, arith, false, if◌then◌else◌, ltb, none, refl, some, true, ◌<◌, ◌∙◌, ◌≡◌, ◌≤◌,
}
use helm_operator.Release.Context.{Env, Chart, Action}
use helm_operator.Helm.{Client, Release}
use helm_operator.Release.Run.{run, step}
use helm_operator.Api.{HelmRelease}
use helm_operator.Release.Operations.{annotate, upgrade, rollback}
use helm_operator.Errors.{Error, ErrCollection, empty, append}
use helm_operator.Release.Cases.{
  again, stop, deployed, latest_release, after_latest, compare_latest, rollback_case, annotate_case,
  rolled_next,
}
use helm_operator.Release.Failures.{round, last_round, step-upgrade}
use helm_operator.Effects.{ok, returned, err}

module _ {W : Type 0} (env : Env W) (client : Client W) (hr : HelmRelease) (cur : Release)
    (chart : Chart) (values : String) where
  step-rollback_latest :
      (errs : ErrCollection) (latest : Option Release) (w w₁ : W)
      → hr.spec.rollback.enable ≡ true
      → latest_release env client hr (some cur) chart values w ≡ (ok latest, w₁)
      → step env client hr (some cur) chart values Action.rollback none errs w
        ≡ compare_latest env client hr (some cur) chart values (some cur) latest errs w₁
  unfolding step rollback_case
  step-rollback_latest errs latest w w₁ back l =
      ap
        (λ b.
          if b
          then after_latest env client hr (some cur) chart values
              (latest_release env client hr (some cur) chart values w) errs
          else (returned (stop errs), w))
        back
      ∙ ap (λ x. after_latest env client hr (some cur) chart values x errs) l

  to_rollback :
      (e : Error) (w w₁ : W)
      → upgrade env client hr chart values w ≡ (err e, w₁)
      → step env client hr (some cur) chart values Action.upgrade none empty w
        ≡ (returned (again Action.rollback none (append empty e)), w₁)
  to_rollback e w w₁ u =
      step-upgrade env client hr (some cur) chart values empty none w
      ∙ ap (λ x. deployed env client hr (some cur) chart values Action.rollback x empty) u

  rolled :
      (errs : ErrCollection) (latest rel : Release) (w w₁ : W)
      → ltb cur.version latest.version ≡ true
      → rollback env client hr w ≡ (ok (some rel), w₁)
      → compare_latest env client hr (some cur) chart values (some cur) (some latest) errs w
        ≡ (returned (again Action.annotate (some rel) errs), w₁)
  rolled errs latest rel w w₁ newer r =
      ap
        (λ b.
          if b
          then (
            returned (
                rolled_next env client hr (some cur) chart values (rollback env client hr w).0
                  errs),
            (rollback env client hr w).1,
          )
          else (returned (stop errs), w))
        newer
      ∙ ap (λ x. (returned (rolled_next env client hr (some cur) chart values x.0 errs), x.1)) r

  annotated :
      (errs : ErrCollection) (rel : Release) (w : W)
      → step env client hr (some cur) chart values Action.annotate (some rel) errs w
        ≡ (returned (stop errs), (annotate env hr (some rel) w).1)
  unfolding step annotate_case annotate
  annotated errs rel w = refl

  -- With rollbacks enabled, a failed upgrade that left a newer release is rolled back, the resources
  -- of the release that the client then reports are annotated, and the error of the upgrade is the
  -- one that is returned.
  pub upgrade_rolled_back :
      (latest rel : Release) (e : Error) (w w₁ w₂ w₃ : W)
      → hr.spec.rollback.enable ≡ true
      → upgrade env client hr chart values w ≡ (err e, w₁)
      → latest_release env client hr (some cur) chart values w₁ ≡ (ok (some latest), w₂)
      → cur.version < latest.version
      → rollback env client hr w₂ ≡ (ok (some rel), w₃)
      → run env client hr (some cur) chart values Action.upgrade w
        ≡ (returned (some (append empty e)), (annotate env hr (some rel) w₃).1)
  unfolding run
  upgrade_rolled_back latest rel e w w₁ w₂ w₃ back u l newer r =
      let errs = append empty e in
      round env client hr (some cur) chart values 5 Action.upgrade none empty w Action.rollback none
        errs w₁ (to_rollback e w w₁ u)
      ∙ round env client hr (some cur) chart values 4 Action.rollback none errs w₁ Action.annotate
          (some rel) errs w₃
          (step-rollback_latest errs (some latest) w₁ w₂ back l
            ∙ rolled errs latest rel w₂ w₃ (ground arith) r)
      ∙ last_round env client hr (some cur) chart values 3 Action.annotate (some rel) errs w₃ errs
          (annotate env hr (some rel) w₃).1 (annotated errs rel w₃)

  -- A failed upgrade that left no newer release is not rolled back: nothing is called after the
  -- latest release has been asked for.
  pub upgrade_not_rolled_back :
      (latest : Release) (e : Error) (w w₁ w₂ : W)
      → hr.spec.rollback.enable ≡ true
      → upgrade env client hr chart values w ≡ (err e, w₁)
      → latest_release env client hr (some cur) chart values w₁ ≡ (ok (some latest), w₂)
      → latest.version ≤ cur.version
      → run env client hr (some cur) chart values Action.upgrade w
        ≡ (returned (some (append empty e)), w₂)
  unfolding run
  upgrade_not_rolled_back latest e w w₁ w₂ back u l old =
      let errs = append empty e in
      round env client hr (some cur) chart values 5 Action.upgrade none empty w Action.rollback none
        errs w₁ (to_rollback e w w₁ u)
      ∙ last_round env client hr (some cur) chart values 4 Action.rollback none errs w₁ errs w₂
          (step-rollback_latest errs (some latest) w₁ w₂ back l ∙ kept errs (ground arith))
    where
      kept :
          (errs : ErrCollection)
          → ltb cur.version latest.version ≡ false
          → compare_latest env client hr (some cur) chart values (some cur) (some latest) errs w₂
            ≡ (returned (stop errs), w₂)
      kept errs b =
          ap
            (λ b.
              if b
              then (
                returned (
                    rolled_next env client hr (some cur) chart values (rollback env client hr w₂).0
                      errs),
                (rollback env client hr w₂).1,
              )
              else (returned (stop errs), w₂))
            b
