-- ===== src/Release/Failures.antt =====
-- Whole runs of the loop (`run`, pkg/release/release.go).
use helm_operator.Base.{
  Option, String, ap, false, if◌then◌else◌, none, refl, some, suc, true, ℕ, ◌∙◌, ◌≡◌,
}
use helm_operator.Release.ErrorsKept.{Deploys, installs, upgrades}
use helm_operator.Release.Context.{Env, Chart, Action}
use helm_operator.Helm.{Client, Release}
use helm_operator.Release.Run.{run, run_from, step, continue}
use helm_operator.Api.{HelmRelease, HelmReleasePhase}
use helm_operator.Release.Operations.{
  annotate, install, phase_with_revision, migrate, upgrade, test,
}
use helm_operator.Errors.{Error, ErrCollection, empty, append}
use helm_operator.Release.Cases.{
  upgrade_case, install_case, migrates_dry, deployed, again, stop, latest_release, test_case,
  annotate_case, migrate_case, rollback_case, tested, migrate_next, after_latest, succeed,
}
use helm_operator.Effects.{ok, returned, panicked, err, Call, Result}

module _ {W : Type 0} (env : Env W) (client : Client W) (hr : HelmRelease)
    (cur_rel : Option Release) (chart : Chart) (values : String) where
  pub round :
      (fuel : ℕ) (a : Action) (rel : Option Release) (errs : ErrCollection) (w : W) (b : Action)
      (rel' : Option Release) (es : ErrCollection) (w₁ : W)
      → step env client hr cur_rel chart values a rel errs w ≡ (returned (again b rel' es), w₁)
      → run_from env client hr cur_rel chart values (suc fuel) a rel errs w
        ≡ run_from env client hr cur_rel chart values fuel b rel' es w₁
  unfolding run_from
  round fuel a rel errs w b rel' es w₁ h =
      ap
        (λ x.
          continue env client hr cur_rel chart values
            (run_from env client hr cur_rel chart values fuel) x.0 x.1)
        h

  pub last_round :
      (fuel : ℕ) (a : Action) (rel : Option Release) (errs : ErrCollection) (w : W)
      (es : ErrCollection) (w₁ : W)
      → step env client hr cur_rel chart values a rel errs w ≡ (returned (stop es), w₁)
      → run_from env client hr cur_rel chart values (suc fuel) a rel errs w
        ≡ (returned (some es), w₁)
  unfolding run_from
  last_round fuel a rel errs w es w₁ h =
      ap
        (λ x.
          continue env client hr cur_rel chart values
            (run_from env client hr cur_rel chart values fuel) x.0 x.1)
        h

  pub crash :
      (fuel : ℕ) (a : Action) (rel : Option Release) (errs : ErrCollection) (w w₁ : W)
      → step env client hr cur_rel chart values a rel errs w ≡ (panicked, w₁)
      → run_from env client hr cur_rel chart values (suc fuel) a rel errs w ≡ (panicked, w₁)
  unfolding run_from
  crash fuel a rel errs w w₁ h =
      ap
        (λ x.
          continue env client hr cur_rel chart values
            (run_from env client hr cur_rel chart values fuel) x.0 x.1)
        h

  -- The world after a release that was not tested: its success is recorded with the revision of
  -- the chart, and its resources are annotated.
  abbrev pub after_success : Release → W → W
  after_success rel w =
      (annotate env hr (some rel)
        (phase_with_revision env hr HelmReleasePhase.succeeded chart.revision w)).1

  pub step-upgrade :
      (errs : ErrCollection) (rel : Option Release) (w : W)
      → step env client hr cur_rel chart values Action.upgrade rel errs w
        ≡ deployed env client hr cur_rel chart values Action.rollback
            (upgrade env client hr chart values w)
            errs
  unfolding step upgrade_case
  step-upgrade errs rel w = refl

  pub step-install :
      (errs : ErrCollection) (rel : Option Release) (w : W)
      → step env client hr cur_rel chart values Action.install rel errs w
        ≡ deployed env client hr cur_rel chart values Action.uninstall
            (install env client hr chart values w)
            errs
  unfolding step install_case
  step-install errs rel w = refl

  step-test :
      (rel : Option Release) (w : W)
      → hr.spec.test.enable ≡ false
      → step env client hr cur_rel chart values Action.test rel empty w ≡ (
        returned (again Action.annotate rel empty),
        phase_with_revision env hr HelmReleasePhase.succeeded chart.revision w,
      )
  unfolding step test_case
  step-test rel w e =
      ap
        (λ b.
          if b
          then tested env client hr cur_rel chart values (test env client hr w).0 rel empty
              (test env client hr w).1
          else succeed env client hr cur_rel chart values rel empty w)
        e

  step-annotate :
      (rel : Release) (w : W)
      → step env client hr cur_rel chart values Action.annotate (some rel) empty w
        ≡ (returned (stop empty), (annotate env hr (some rel) w).1)
  unfolding step annotate_case annotate
  step-annotate rel w = refl

  untested :
      (fuel : ℕ) (rel : Release) (w : W)
      → hr.spec.test.enable ≡ false
      → run_from env client hr cur_rel chart values (suc (suc fuel)) Action.test (some rel) empty w
        ≡ (returned (some empty), after_success rel w)
  untested fuel rel w t =
      let w₁ = phase_with_revision env hr HelmReleasePhase.succeeded chart.revision w in
      round (suc fuel) Action.test (some rel) empty w Action.annotate (some rel) empty w₁
        (step-test (some rel) w t)
      ∙ last_round fuel Action.annotate (some rel) empty w₁ empty (after_success rel w)
          (step-annotate rel w₁)

  -- With tests disabled, an installation or an upgrade that the client accepts ends the run without
  -- an error, once the success and its revision are recorded and the resources are annotated.
  pub run_succeeds :
      (a : Action) (f : Call W (Result (Option Release))) (rel : Release) (w w₁ : W)
      → hr.spec.test.enable ≡ false
      → Deploys env client hr chart values a f
      → f w ≡ (ok (some rel), w₁)
      → run env client hr cur_rel chart values a w ≡ (returned (some empty), after_success rel w₁)
  unfolding run
  run_succeeds _ _ rel w w₁ t installs h =
      round 5 Action.install none empty w Action.test (some rel) empty w₁ (
        step-install empty none w
        ∙ ap (λ x. deployed env client hr cur_rel chart values Action.uninstall x empty) h)
      ∙ untested 3 rel w₁ t
  run_succeeds _ _ rel w w₁ t upgrades h =
      round 5 Action.upgrade none empty w Action.test (some rel) empty w₁ (
        step-upgrade empty none w
        ∙ ap (λ x. deployed env client hr cur_rel chart values Action.rollback x empty) h)
      ∙ untested 3 rel w₁ t

step-migrate :
    {W : Type 0} (env : Env W) (client : Client W) (hr : HelmRelease) (cur_rel : Option Release)
    (chart : Chart) (values : String) (w w₁ : W)
    → migrates_dry env client hr cur_rel chart values ≡ false
    → migrate env hr chart false w ≡ (ok tt, w₁)
    → step env client hr cur_rel chart values Action.migrate none empty w
      ≡ (returned (again Action.upgrade none empty), w₁)
unfolding step migrate_case
step-migrate env client hr cur_rel chart values w w₁ dry m =
    ap (λ b. migrate_next env client hr cur_rel chart values (migrate env hr chart b w) empty) dry
    ∙ ap (λ x. migrate_next env client hr cur_rel chart values x empty) m
    ∙ ap (λ b. (returned (again (if b then Action.skip else Action.upgrade) none empty), w₁)) dry

step-rollback :
    {W : Type 0} (env : Env W) (client : Client W) (hr : HelmRelease) (chart : Chart)
    (values : String) (errs : ErrCollection) (latest : Option Release) (w w₁ : W)
    → hr.spec.rollback.enable ≡ true
    → latest_release env client hr none chart values w ≡ (ok latest, w₁)
    → step env client hr none chart values Action.rollback none errs w ≡ (panicked, w₁)
unfolding step rollback_case
step-rollback env client hr chart values errs latest w w₁ back l =
    ap
      (λ b.
        if b
        then after_latest env client hr none chart values
            (latest_release env client hr none chart values w) errs
        else (returned (stop errs), w))
      back
    ∙ ap (λ x. after_latest env client hr none chart values x errs) l

-- After a migration there is no current release to compare with: if the upgrade that follows fails
-- and rollbacks are enabled, the run panics, whatever release the client then finds.
pub migrated_upgrade_panics :
    {W : Type 0} (env : Env W) (client : Client W) (hr : HelmRelease) (chart : Chart)
    (values : String) (latest : Option Release) (e : Error) (w w₁ w₂ w₃ : W)
    → migrates_dry env client hr none chart values ≡ false
    → hr.spec.rollback.enable ≡ true
    → migrate env hr chart false w ≡ (ok tt, w₁)
    → upgrade env client hr chart values w₁ ≡ (err e, w₂)
    → latest_release env client hr none chart values w₂ ≡ (ok latest, w₃)
    → run env client hr none chart values Action.migrate w ≡ (panicked, w₃)
unfolding run
migrated_upgrade_panics env client hr chart values latest e w w₁ w₂ w₃ dry back m u l =
    round env client hr none chart values 5 Action.migrate none empty w Action.upgrade none empty w₁
      (step-migrate env client hr none chart values w w₁ dry m)
    ∙ round env client hr none chart values 4 Action.upgrade none empty w₁ Action.rollback none
        (append empty e) w₂
        (step-upgrade env client hr none chart values empty none w₁
          ∙ ap (λ x. deployed env client hr none chart values Action.rollback x empty) u)
    ∙ crash env client hr none chart values 3 Action.rollback none (append empty e) w₂ w₃
        (step-rollback env client hr chart values (append empty e) latest w₂ w₃ back l)
