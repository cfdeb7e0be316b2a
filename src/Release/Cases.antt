-- ===== src/Release/Cases.antt =====
-- The cases of the loop over actions (`run`, pkg/release/release.go). A case ends the loop or
-- goes on with an action, a new release and the errors so far. Logging is left out.
use helm_operator.Base.{
  lookup, if◌then◌else◌, Option, String, none, Bool, not, str_eq, get_or, some, is_some, ltb,
}
use helm_operator.Release.Context.{Env, Chart, Action}
use helm_operator.Helm.{Client, Release}
use helm_operator.Api.{
  HelmRelease, HelmReleasePhase, get_ignore_failures, get_release_name, get_target_namespace,
}
use helm_operator.Errors.{ErrCollection, append, wrapped}
use helm_operator.Effects.{Result, M, Outcome, err, returned, panicked, ok, ◌>>=◌, pure, Call}
use helm_operator.Release.Operations.{
  install, upgrade, migrate, annotate, uninstall, phase_with_revision, phase, dry_run_compare, test,
  rollback,
}
use helm_operator.Status.{has_rolled_back}

pub data Next : Type 0 where
  again : Action → Option Release → ErrCollection → Next
  stop : ErrCollection → Next

abbrev pub migrate_annotation : String
migrate_annotation = "helm.fluxcd.io/migrate"

module _ {W : Type 0} (env : Env W) (client : Client W) (hr : HelmRelease)
    (cur_rel : Option Release) (chart : Chart) (values : String) where
  abbrev pub compared : Result (Release × String) → ErrCollection → M W Next
  compared (err e) errs w = (
    returned (stop (append errs (wrapped "dry-run upgrade failed" e))),
    phase env hr HelmReleasePhase.failed w,
  )
  compared (ok (dry, diff)) errs w =
      if str_eq diff ""
      then (
        returned (stop errs),
        (if has_rolled_back hr then w else phase env hr HelmReleasePhase.succeeded w),
      )
      else (returned (again Action.upgrade (some dry) errs), w)

  -- The log line reads the version of the current release first.
  abbrev pub dry_run_on : Option Release → ErrCollection → M W Next
  dry_run_on none errs w = (panicked, w)
  dry_run_on (some cur) errs w =
      (dry_run_compare env client (some cur) hr chart values >>= λ r. compared r errs) w

  unfoldable pub dry_run_case : ErrCollection → M W Next
  dry_run_case errs w = dry_run_on cur_rel errs w

  -- An installation or an upgrade is tested if it succeeds, and undone if it fails.
  abbrev pub deployed : Action → Result (Option Release) × W → ErrCollection → Outcome Next × W
  deployed undo (err e, w) errs = (returned (again undo none (append errs e)), w)
  deployed undo (ok rel, w) errs = (returned (again Action.test rel errs), w)

  unfoldable pub install_case : ErrCollection → M W Next
  install_case errs w = deployed Action.uninstall (install env client hr chart values w) errs

  unfoldable pub upgrade_case : ErrCollection → M W Next
  upgrade_case errs w = deployed Action.rollback (upgrade env client hr chart values w) errs

  abbrev pub migrates_dry : Bool
  migrates_dry = not (str_eq (get_or (lookup migrate_annotation hr.annotations) "") "true")

  abbrev pub migrate_next : Result (Unit {0}) × W → ErrCollection → Outcome Next × W
  migrate_next (err e, w) errs = (
    returned (stop (append errs (wrapped "failed to convert helm chart from v2 to v3" e))),
    phase env hr HelmReleasePhase.failed w,
  )
  migrate_next (ok _, w) errs =
      (returned (again (if migrates_dry then Action.skip else Action.upgrade) none errs), w)

  unfoldable pub migrate_case : ErrCollection → M W Next
  migrate_case errs w = migrate_next (migrate env hr chart migrates_dry w) errs

  abbrev pub undo_test : Action
  undo_test = if is_some cur_rel then Action.rollback else Action.uninstall

  abbrev pub succeed : Option Release → ErrCollection → M W Next
  succeed new_rel errs w = (
    returned (again Action.annotate new_rel errs),
    phase_with_revision env hr HelmReleasePhase.succeeded chart.revision w,
  )

  abbrev pub tested : Result (Unit {0}) → Option Release → ErrCollection → M W Next
  tested (ok _) new_rel errs = succeed new_rel errs
  tested (err e) new_rel errs =
      if get_ignore_failures hr.spec.test
      then succeed new_rel (append errs e)
      else pure (again undo_test new_rel (append errs e))

  unfoldable pub test_case : Option Release → ErrCollection → M W Next
  test_case new_rel errs w =
      if hr.spec.test.enable
      then (let (r, w₁) = test env client hr w in tested r new_rel errs w₁)
      else succeed new_rel errs w

  unfoldable pub annotate_case : Option Release → ErrCollection → M W Next
  annotate_case new_rel errs = annotate env hr new_rel >>= λ _. pure (stop errs)

  abbrev pub rolled_next : Result (Option Release) → ErrCollection → Next
  rolled_next (err e) errs = stop (append errs e)
  rolled_next (ok rel) errs = again Action.annotate rel errs

  abbrev pub compare_latest : Option Release → Option Release → ErrCollection → M W Next
  compare_latest none latest errs w = (panicked, w)
  compare_latest (some cur) none errs w = (panicked, w)
  compare_latest (some cur) (some latest) errs w =
      if ltb cur.version latest.version
      then (let (r, w₁) = rollback env client hr w in (returned (rolled_next r errs), w₁))
      else (returned (stop errs), w)

  abbrev pub after_latest : Result (Option Release) × W → ErrCollection → Outcome Next × W
  after_latest (err e, w) errs = (
    returned (stop (append errs (wrapped "unable to determine if rollback should be performed" e))),
    w,
  )
  after_latest (ok latest, w) errs = compare_latest cur_rel latest errs w

  abbrev pub latest_release : Call W (Result (Option Release))
  latest_release =
      client.get (get_release_name hr) (record { namespace = get_target_namespace hr; version = 0 })

  unfoldable pub rollback_case : ErrCollection → M W Next
  rollback_case errs w =
      if hr.spec.rollback.enable
      then after_latest (latest_release w) errs
      else (returned (stop errs), w)

  unfoldable pub uninstall_case : ErrCollection → M W Next
  uninstall_case errs w =
      let w₁ = (uninstall env client hr w).1 in
      (
        returned (stop errs),
        (if is_some hr.spec.chart_source.git_chart_source then env.delete_mirror hr w₁ else w₁),
      )
