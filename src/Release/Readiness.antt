-- ===== src/Release/Readiness.antt =====
-- What the cases of the loop over actions need so as not to panic (pkg/release/release.go).
use helm_operator.Base.{
  Bool-cases, Option, String, false, inl, inr, is_some, none, refl, some, true, ◌≡◌, ◌≢◌, ◌⊎◌, Bool,
  str_eq, if◌then◌else◌,
}
use helm_operator.Release.Context.{Env, Chart, Action}
use helm_operator.Effects.{Outcome, Result, returned, panicked, ok, err, ◌>>=◌}
use helm_operator.Errors.{ErrCollection}
use helm_operator.Helm.{Client, Release, UpgradeOptions, diff}
use helm_operator.Api.{HelmRelease, get_ignore_failures, HelmReleasePhase}
use helm_operator.Release.Cases.{
  Next, again, stop, test_case, annotate_case, deployed, migrates_dry, migrate_next, tested,
  undo_test, rollback_case, compared,
}
use helm_operator.Release.Operations.{annotate, test, conclude, dry_compared}

-- A deployment that succeeds returns a release.
pub record Deploys {W : Type 0} (client : Client W) : Type 0 where
  pub returns :
      (path name values : String) (opts : UpgradeOptions) (w : W)
      → (client.upgrade_from_path path name values opts w).0 ≢ ok none

module _ {W : Type 0} (env : Env W) (client : Client W) (hr : HelmRelease)
    (cur_rel : Option Release) (chart : Chart) (values : String) where
  -- No rollback is made of a release that is not there.
  abbrev pub CanUndo : Type 0
  CanUndo = (hr.spec.rollback.enable ≡ false) ⊎ (is_some cur_rel ≡ false)

  -- What an action needs so that no later one panics.
  abbrev pub Ready : Action → Option Release → Type 0
  Ready Action.dry_run_compare rel = (is_some cur_rel ≡ true) × (hr.spec.rollback.enable ≡ false)
  Ready Action.install rel = CanUndo
  Ready Action.upgrade rel = hr.spec.rollback.enable ≡ false
  Ready Action.migrate rel = hr.spec.rollback.enable ≡ false
  Ready Action.rollback rel = hr.spec.rollback.enable ≡ false
  Ready Action.test rel = (is_some rel ≡ true) × CanUndo
  Ready Action.annotate rel = is_some rel ≡ true
  Ready Action.skip rel = Unit
  Ready Action.uninstall rel = Unit

  -- A round that did not panic, and whose next action is ready.
  abbrev pub Goes : Outcome Next → Type 0
  Goes panicked = ⊥
  Goes (returned (stop errs)) = Unit
  Goes (returned (again b rel errs)) = Ready b rel

  pub deployed-Goes :
      (undo : Action) (x : Result (Option Release) × W) (errs : ErrCollection)
      → x.0 ≢ ok none
      → Ready undo none
      → CanUndo
      → Goes (deployed env client hr cur_rel chart values undo x errs).0
  deployed-Goes undo (err e, w) errs d r c = r
  deployed-Goes undo (ok none, w) errs d r c = absurd (d refl)
  deployed-Goes undo (ok (some rel), w) errs d r c = (refl, c)

  if_Goes :
      (b : Bool) (x y : Outcome Next × W)
      → (b ≡ true → Goes x.0)
      → (b ≡ false → Goes y.0)
      → Goes (if b then x else y).0
  if_Goes true x y gx gy = gx refl
  if_Goes false x y gx gy = gy refl

  undo_Ready :
      (rel : Option Release) → CanUndo → Ready (undo_test env client hr cur_rel chart values) rel
  undo_Ready rel c = elim (Bool-cases (is_some cur_rel)) [
    | inl e ↦ rw e (elim c [ inl d ↦ d | inr d ↦ absurd cc ])
    | inr e ↦ rw e tt
  ]

  tested-Goes :
      (r : Result (Unit {0})) (rel : Option Release) (errs : ErrCollection) (w : W)
      → is_some rel ≡ true
      → CanUndo
      → Goes (tested env client hr cur_rel chart values r rel errs w).0
  tested-Goes (ok _) rel errs w s c = s
  tested-Goes (err e) rel errs w s c = elim (Bool-cases (get_ignore_failures hr.spec.test)) [
    | inl i ↦ rw i s
    | inr i ↦ rw i (undo_Ready rel c)
  ]

  pub test_case-Goes :
      (rel : Option Release) (errs : ErrCollection) (w : W)
      → is_some rel ≡ true
      → CanUndo
      → Goes (test_case env client hr cur_rel chart values rel errs w).0
  unfolding test_case
  test_case-Goes rel errs w s c =
      let x = test env client hr w in
      if_Goes hr.spec.test.enable (tested env client hr cur_rel chart values x.0 rel errs x.1) _
        (λ e. tested-Goes x.0 rel errs x.1 s c) (λ e. s)

  pub migrate_next-Goes :
      (x : Result (Unit {0}) × W) (errs : ErrCollection)
      → hr.spec.rollback.enable ≡ false
      → Goes (migrate_next env client hr cur_rel chart values x errs).0
  migrate_next-Goes (err e, w) errs d = tt
  migrate_next-Goes (ok _, w) errs d =
      elim (Bool-cases (migrates_dry env client hr cur_rel chart values)) [
        | inl e ↦ rw e tt
        | inr e ↦ rw e d
      ]

  pub annotate_case-Goes :
      (rel : Option Release) (errs : ErrCollection) (w : W)
      → is_some rel ≡ true
      → Goes (annotate_case env client hr cur_rel chart values rel errs w).0
  unfolding annotate_case annotate
  annotate_case-Goes none errs w s = absurd cc
  annotate_case-Goes (some rel) errs w s = tt

  pub rollback_case-Goes :
      (errs : ErrCollection) (w : W)
      → hr.spec.rollback.enable ≡ false
      → Goes (rollback_case env client hr cur_rel chart values errs w).0
  unfolding rollback_case
  rollback_case-Goes errs w d =
      if_Goes hr.spec.rollback.enable _ (returned (stop errs), w) (λ e. absurd cc) (λ e. tt)

  compared-Goes :
      (r : Result (Release × String)) (errs : ErrCollection) (w : W)
      → hr.spec.rollback.enable ≡ false
      → Goes (compared env client hr cur_rel chart values r errs w).0
  compared-Goes (err e) errs w d = tt
  compared-Goes (ok (dry, diff)) errs w d =
      if_Goes (str_eq diff "") (returned (stop errs), _)
        (returned (again Action.upgrade (some dry) errs), w) (λ e. tt) (λ e. d)

  abbrev pub dry_run_next :
      Outcome (Result (Release × String)) × W → ErrCollection → Outcome Next × W
  dry_run_next x errs = ((λ _. x) >>= λ r. compared env client hr cur_rel chart values r errs) x.1

  pub dry_compared-Goes :
      (cur : Release) (errs : ErrCollection) (x : Result (Option Release) × W)
      → x.0 ≢ ok none
      → hr.spec.rollback.enable ≡ false
      → Goes (dry_run_next (dry_compared env (some cur) hr x) errs).0
  dry_compared-Goes cur errs (err e, w) d r = tt
  dry_compared-Goes cur errs (ok none, w) d r = absurd (d refl)
  dry_compared-Goes cur errs (ok (some dry), w) d r =
      compared-Goes (ok (dry, diff env.diff_values env.diff_charts cur dry)) errs _ r

  pub conclude-some :
      (a : Action) (bad good : HelmReleasePhase) (message : String)
      (x : Result (Option Release) × W)
      → x.0 ≢ ok none
      → (conclude env hr a bad good message x).0 ≢ ok none
  conclude-some a bad good message (err e, w) d = λ e. cc
  conclude-some a bad good message (ok rel, w) d = d
