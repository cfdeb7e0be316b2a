-- ===== src/Frame/Decisions.antt =====
-- The decision on an action (`determineSyncAction`, pkg/release/release.go) keeps what its calls keep.
use helm_operator.Base.{Bool, List, Option, String, false, none, not, some, true, ◌||◌}
use helm_operator.Effects.{Result, ok, err}
use helm_operator.Errors.{Error}
use helm_operator.Api.{HelmRelease}
use helm_operator.Helm.{Client, Release, allows_upgrade}
use helm_operator.Status.{has_synced, has_rolled_back, should_retry_upgrade}
use helm_operator.Release.{
  Env, Chart, determine_sync_action, decide_found, decide_by_owner, decide_managed, decide_new,
  from_history, from_v2,
}
use helm_operator.Frame.Laws.{EnvKeeps, ClientKeeps}
use helm_operator.Frame.Operations.{managed_by_helm_release-kept}
use helm_operator.Frame.Branches.{if-kept}

module _ {W : Type 0} (P : W → Type 0) (env : Env W) (keeps : EnvKeeps P env) (client : Client W)
    (client_keeps : ClientKeeps P client) (hr : HelmRelease) (chart : Chart) where
  from_v2-kept : (x : Result Bool × W) → P x.1 → P (from_v2 env client hr chart x).1
  from_v2-kept (err e, w) p = p
  from_v2-kept (ok b, w) p = p

  decide_new-kept : (w : W) → P w → P (decide_new env client hr chart w).1
  unfolding decide_new
  decide_new-kept w p = if-kept P _ _ _ (from_v2-kept _ ((keeps.v2_release_exists _).at w p)) p

  from_history-kept :
      (cur : Release) (x : Result (List Release) × W)
      → P x.1
      → P (from_history env client hr chart cur x).1
  from_history-kept cur (err e, w) p = p
  from_history-kept cur (ok h, w) p = p

  decide_managed-kept :
      (cur : Release) (w : W) → P w → P (decide_managed env client hr chart cur w).1
  unfolding decide_managed
  decide_managed-kept cur w p = if-kept P (not (has_synced hr)) _ _ p (
      if-kept P (has_rolled_back hr) _ _
        (if-kept P (chart.changed || should_retry_upgrade hr) _ _ p
          (from_history-kept cur _ ((client_keeps.history _ _).at w p)))
        (if-kept P chart.changed _ _ p p))

  decide_by_owner-kept :
      (cur : Release) (x : (Bool × String × Option Error) × W)
      → P x.1
      → P (decide_by_owner env client hr chart cur x).1
  decide_by_owner-kept cur ((b, s, some e), w) p = p
  decide_by_owner-kept cur ((false, s, none), w) p = p
  decide_by_owner-kept cur ((true, s, none), w) p =
      if-kept P (allows_upgrade cur.info.status) _ _ (decide_managed-kept cur w p) p

  decide_found-kept :
      (x : Result (Option Release) × W) → P x.1 → P (decide_found env client hr chart x).1
  decide_found-kept (err e, w) p = p
  decide_found-kept (ok none, w) p = decide_new-kept w p
  decide_found-kept (ok (some cur), w) p =
      decide_by_owner-kept cur _ (managed_by_helm_release-kept P env keeps cur hr w p)

  pub determine_sync_action-kept : (w : W) → P w → P (determine_sync_action env client hr chart w).1
  unfolding determine_sync_action
  determine_sync_action-kept w p = decide_found-kept _ ((client_keeps.get _ _).at w p)
