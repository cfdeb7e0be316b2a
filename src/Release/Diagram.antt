-- ===== src/Release/Diagram.antt =====
-- The diagram of the actions (`run`, pkg/release/release.go).
use helm_operator.Base.{
  Bool, Bool-cases, Option, String, arith, false, if◌then◌else◌, inl, inr, is_some, ltb, none, some,
  str_eq, true, ℕ, ◌<◌,
}
use helm_operator.Release.Context.{Env, Chart, Action}
use helm_operator.Effects.{Outcome, M, ◌>>=◌, returned, Result, err, ok, panicked, pure}
use helm_operator.Helm.{Client, Release}
use helm_operator.Release.Cases.{
  Next, again, deployed, tested, compare_latest, dry_run_case, stop, install_case, upgrade_case,
  migrate_case, test_case, annotate_case, rollback_case, uninstall_case, compared, rolled_next,
  after_latest, migrates_dry, migrate_next, latest_release, succeed,
}
use helm_operator.Api.{HelmRelease, get_ignore_failures}
use helm_operator.Errors.{ErrCollection, Error, append}
use helm_operator.Release.Run.{step}
use helm_operator.Release.Operations.{
  rollback, install, upgrade, annotate, dry_run_compare, migrate, test,
}

infix 40 ◌⟶◌
pub data ◌⟶◌ : Action → Action → Type 0 where
  differs : Action.dry_run_compare ⟶ Action.upgrade
  installed : Action.install ⟶ Action.test
  undo_install : Action.install ⟶ Action.uninstall
  migrated : Action.migrate ⟶ Action.upgrade
  migrated_dry : Action.migrate ⟶ Action.skip
  upgraded : Action.upgrade ⟶ Action.test
  undo_upgrade : Action.upgrade ⟶ Action.rollback
  settled : Action.test ⟶ Action.annotate
  undo_test_first : Action.test ⟶ Action.uninstall
  undo_test_later : Action.test ⟶ Action.rollback
  rolled : Action.rollback ⟶ Action.annotate

-- How many more actions can follow.
abbrev pub rank : Action → ℕ
rank Action.dry_run_compare = 5
rank Action.migrate = 5
rank Action.upgrade = 4
rank Action.install = 4
rank Action.test = 3
rank Action.rollback = 2
rank _ = 0

pub rank-lt : {a b : Action} → a ⟶ b → rank b < rank a
rank-lt differs = omega arith
rank-lt installed = omega arith
rank-lt undo_install = omega arith
rank-lt migrated = omega arith
rank-lt migrated_dry = omega arith
rank-lt upgraded = omega arith
rank-lt undo_upgrade = omega arith
rank-lt settled = omega arith
rank-lt undo_test_first = omega arith
rank-lt undo_test_later = omega arith
rank-lt rolled = omega arith

-- An error is only ever added at the end.
pub data Extends (errs : ErrCollection) : ErrCollection → Type 0 where
  same : Extends errs errs
  more : {es : ErrCollection} {e : Error} → Extends errs es → Extends errs (append es e)

pub Extends-trans : {errs es fs : ErrCollection} → Extends errs es → Extends es fs → Extends errs fs
Extends-trans h same = h
Extends-trans h (more k) = more (Extends-trans h k)

-- What comes of an action keeps the errors so far, and goes on along an edge if it goes on.
abbrev pub Follows : Action → ErrCollection → Outcome Next → Type 0
Follows a errs (returned (again b _ errs')) = (a ⟶ b) × Extends errs errs'
Follows a errs (returned (stop errs')) = Extends errs errs'
Follows a errs panicked = Unit

-- An action that begins with a call goes on as the rest does.
bind-Follows :
    {W A : Type 0} (a : Action) (errs : ErrCollection) (o : Outcome A) (w : W) (f : A → M W Next)
    → ((x : A) → Follows a errs (f x w).0)
    → Follows a errs (((λ v. (o, v)) >>= f) w).0
bind-Follows a errs (returned x) w f h = h x
bind-Follows a errs panicked w f h = tt

if-Follows :
    {W : Type 0} (a : Action) (errs : ErrCollection) (b : Bool) (x y : Outcome Next × W)
    → Follows a errs x.0
    → Follows a errs y.0
    → Follows a errs (if b then x else y).0
if-Follows a errs true x y h k = h
if-Follows a errs false x y h k = k

module _ {W : Type 0} (env : Env W) (client : Client W) (hr : HelmRelease)
    (cur_rel : Option Release) (chart : Chart) (values : String) where
  compared-Follows :
      (r : Result (Release × String)) (errs : ErrCollection) (w : W)
      → Follows Action.dry_run_compare errs (compared env client hr cur_rel chart values r errs w).0
  compared-Follows (err e) errs w = more same
  compared-Follows (ok (dry, diff)) errs w = elim (Bool-cases (str_eq diff "")) [
    | inl e ↦ rw e same
    | inr e ↦ rw e (differs, same)
  ]

  deployed-Follows :
      (a undo : Action) (x : Result (Option Release) × W) (errs : ErrCollection)
      → a ⟶ undo
      → a ⟶ Action.test
      → Follows a errs (deployed env client hr cur_rel chart values undo x errs).0
  deployed-Follows a undo (err e, w) errs u t = (u, more same)
  deployed-Follows a undo (ok rel, w) errs u t = (t, same)

  migrated-Follows :
      (dry : Bool) (errs : ErrCollection)
      → Action.migrate ⟶ (if dry then Action.skip else Action.upgrade)
  migrated-Follows true errs = migrated_dry
  migrated-Follows false errs = migrated

  tested-Follows :
      (r : Result (Unit {0})) (rel : Option Release) (errs : ErrCollection) (w : W)
      → Follows Action.test errs (tested env client hr cur_rel chart values r rel errs w).0
  tested-Follows (ok _) rel errs w = (settled, same)
  tested-Follows (err e) rel errs w = elim (Bool-cases (get_ignore_failures hr.spec.test)) [
    | inl i ↦ rw i (settled, more same)
    | inr i ↦ rw i (undone (is_some cur_rel), more same)
  ]
    where
      undone : (b : Bool) → Action.test ⟶ (if b then Action.rollback else Action.uninstall)
      undone true = undo_test_later
      undone false = undo_test_first

  compare_latest-Follows :
      (cur latest : Option Release) (errs : ErrCollection) (w : W)
      → Follows Action.rollback errs
          (compare_latest env client hr cur_rel chart values cur latest errs w).0
  compare_latest-Follows none latest errs w = tt
  compare_latest-Follows (some cur) none errs w = tt
  compare_latest-Follows (some cur) (some latest) errs w =
      elim (Bool-cases (ltb cur.version latest.version)) [
        | inl e ↦ rw e (rolled-Follows (rollback env client hr w).0)
        | inr e ↦ rw e same
      ]
    where
      rolled-Follows :
          (r : Result (Option Release))
          → Follows Action.rollback errs
              (returned (rolled_next env client hr cur_rel chart values r errs))
      rolled-Follows (ok rel) = (rolled, same)
      rolled-Follows (err e) = more same

  latest-Follows :
      (x : Result (Option Release) × W) (errs : ErrCollection)
      → Follows Action.rollback errs (after_latest env client hr cur_rel chart values x errs).0
  latest-Follows (err e, w) errs = more same
  latest-Follows (ok latest, w) errs = compare_latest-Follows cur_rel latest errs w

  -- Whatever the clients answer, an action ends the loop or goes on to one that follows it in the
  -- diagram, and every error that was recorded before it is kept.
  pub step-⟶ :
      (a : Action) (rel : Option Release) (errs : ErrCollection) (w : W)
      → Follows a errs (step env client hr cur_rel chart values a rel errs w).0
  unfolding step dry_run_case install_case upgrade_case migrate_case test_case annotate_case
      rollback_case uninstall_case
  step-⟶ Action.dry_run_compare rel errs w =
      elim cur_rel
        as (λ c.
          Follows Action.dry_run_compare errs
            (dry_run_case env client hr c chart values errs w).0) [
              | none ↦ tt
              | some cur ↦
                  let x = dry_run_compare env client (some cur) hr chart values w in
                  bind-Follows Action.dry_run_compare errs x.0 x.1
                    (λ r. compared env client hr (some cur) chart values r errs)
                    (λ r. compared-Follows r errs x.1)
            ]
  step-⟶ Action.install rel errs w =
      deployed-Follows Action.install Action.uninstall (install env client hr chart values w) errs
        undo_install installed
  step-⟶ Action.upgrade rel errs w =
      deployed-Follows Action.upgrade Action.rollback (upgrade env client hr chart values w) errs
        undo_upgrade upgraded
  step-⟶ Action.migrate rel errs w =
      let dry = migrates_dry env client hr cur_rel chart values in
      let x = migrate env hr chart dry w in
      elim x.0
        as (λ r.
          Follows Action.migrate errs
            (migrate_next env client hr cur_rel chart values (r, x.1) errs).0) [
              | ok _ ↦ (migrated-Follows dry errs, same)
              | err e ↦ more same
            ]
  step-⟶ Action.test rel errs w =
      let x = test env client hr w in
      if-Follows Action.test errs hr.spec.test.enable _
        (succeed env client hr cur_rel chart values rel errs w) (tested-Follows x.0 rel errs x.1)
        (settled, same)
  step-⟶ Action.annotate rel errs w =
      let x = annotate env hr rel w in
      bind-Follows Action.annotate errs x.0 x.1 (λ _. pure (stop errs)) (λ _. same)
  step-⟶ Action.rollback rel errs w =
      if-Follows Action.rollback errs hr.spec.rollback.enable _ (returned (stop errs), w)
        (latest-Follows (latest_release env client hr cur_rel chart values w) errs) same
  step-⟶ Action.uninstall rel errs w = same
  step-⟶ Action.skip rel errs w = same
