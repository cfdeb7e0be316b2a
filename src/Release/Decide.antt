-- ===== src/Release/Decide.antt =====
-- Which action a sync starts with (`determineSyncAction`, pkg/release/release.go). The release is
-- the current one, nil where there is none.
use helm_operator.Base.{
  lookup, Bool, List, Option, String, [], false, if◌then◌else◌, is_some, none, not, some, str_eq,
  true, ◌&&◌, ◌++s◌, ◌||◌, ◌∷◌,
}
use helm_operator.Release.Context.{Env, Chart, Action}
use helm_operator.Helm.{Status, Release, Client, allows_upgrade, status_string}
use helm_operator.Effects.{Result, Call, err, ok}
use helm_operator.Api.{
  HelmRelease, get_release_name, get_target_namespace, get_helm_version, get_max_history,
}
use helm_operator.Errors.{Error, wrapped, plain}
use helm_operator.Release.Cases.{migrate_annotation}
use helm_operator.Status.{has_synced, has_rolled_back, should_retry_upgrade}
use helm_operator.Release.Manifest.{managed_by_helm_release}

-- The first failed or superseded release of the history, if there is one.
unfoldable pub inspected : List Release → Release → Release
inspected [] cur = cur
inspected (r ∷ rs) cur = elim r.info.status [
  | Status.failed ↦ r
  | Status.superseded ↦ r
  | _ ↦ inspected rs cur
]

abbrev pub Decision : Type 0
Decision = Result (Action × Option Release)

module _ {W : Type 0} (env : Env W) (client : Client W) (hr : HelmRelease) (chart : Chart) where
  abbrev pub from_v2 : Result Bool × W → Decision × W
  from_v2 (err e, w) =
      (err (wrapped "failed to retrieve Helm v2 release while attempting migration" e), w)
  from_v2 (ok exists, w) = (ok ((if exists then Action.migrate else Action.install), none), w)

  -- There is no release: migrate a release of Helm 2 if the annotation asks for it and the target
  -- is Helm 3, else install.
  unfoldable pub decide_new : Call W Decision
  decide_new w =
      if is_some (lookup migrate_annotation hr.annotations)
        && str_eq (get_helm_version hr env.config.default_helm_version) "v3"
      then from_v2 (env.v2_release_exists (get_release_name hr) w)
      else (ok (Action.install, none), w)

  abbrev pub from_history : Release → Result (List Release) × W → Decision × W
  from_history cur (err e, w) =
      (err (wrapped "failed to retreive history for rolled back release" e), w)
  from_history cur (ok hist, w) = (ok (Action.dry_run_compare, some (inspected hist cur)), w)

  -- The release is ours and may be upgraded.
  unfoldable pub decide_managed : Release → Call W Decision
  decide_managed cur w =
      if not (has_synced hr)
      then (ok (Action.upgrade, some cur), w)
      else if has_rolled_back hr
      then (if chart.changed || should_retry_upgrade hr
          then (ok (Action.upgrade, some cur), w)
          else from_history cur (
              client.history (get_release_name hr)
                (record { namespace = get_target_namespace hr; max = get_max_history hr }) w))
      else if chart.changed
      then (ok (Action.upgrade, some cur), w)
      else (ok (Action.dry_run_compare, some cur), w)

  abbrev pub decide_by_owner : Release → (Bool × String × Option Error) × W → Decision × W
  decide_by_owner cur ((_, _, some e), w) =
      (err (wrapped "failed to determine ownership over release" e), w)
  decide_by_owner cur ((false, antecedent, none), w) =
      (err (plain ("release appears to be managed by '" ++s (antecedent ++s "'"))), w)
  decide_by_owner cur ((true, _, none), w) =
      if allows_upgrade cur.info.status then decide_managed cur w else (
        err (
            plain (
              "status '"
              ++s (status_string cur.info.status
                  ++s "' of release does not allow a safe upgrade"))),
        w,
      )

  abbrev pub decide_found : Result (Option Release) × W → Decision × W
  decide_found (err e, w) = (err (wrapped "failed to retrieve Helm release" e), w)
  decide_found (ok none, w) = decide_new w
  decide_found (ok (some cur), w) = decide_by_owner cur (managed_by_helm_release env cur hr w)

  unfoldable pub determine_sync_action : Call W Decision
  determine_sync_action w = decide_found (
      client.get (get_release_name hr) (record { namespace = get_target_namespace hr; version = 0 })
        w)
