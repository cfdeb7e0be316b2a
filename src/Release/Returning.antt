-- ===== src/Release/Returning.antt =====
-- A whole sync returns (`Sync`, pkg/release/release.go).
use helm_operator.Base.{
  Bool, Option, String, false, inl, none, refl, some, true, ◌≡◌, List, not, ap, subst,
  if◌then◌else◌, ◌||◌, sym, is_some, lookup, ◌&&◌, str_eq,
}
use helm_operator.Release.Context.{Env, Chart, load, Action}
use helm_operator.Effects.{Outcome, Result, returned, panicked, ok, err, ◌>>=◌, pure}
use helm_operator.Errors.{Error, ErrCollection}
use helm_operator.Helm.{Client, Release, allows_upgrade}
use helm_operator.Values.{Sources, compose_values}
use helm_operator.Api.{
  HelmRelease, GitChartSource, RepoChartSource, Customize, Oss, get_helm_version, get_release_name,
}
use helm_operator.Status.{has_synced, has_rolled_back, should_retry_upgrade}
use helm_operator.Release.Decide.{
  Decision, determine_sync_action, decide_found, decide_by_owner, decide_managed, decide_new,
  from_v2, from_history,
}
use helm_operator.Release.Prepare.{
  Prepared, sync, sync_with, prepare_chart, prepare_from, with_revision, revised, run_decided,
  run_composed, run_prepared, run_error, fetched,
}
use helm_operator.Release.Readiness.{Deploys, Ready}
use helm_operator.Release.NoPanic.{run_returns}
use helm_operator.Release.Run.{run}
use helm_operator.Release.Cases.{migrate_annotation}

abbrev pub Ends {ℓ} : {A : Type ℓ} → Outcome A → Type ℓ
Ends {A = A} o = (a : A) × (o ≡ returned a)

-- The revision of a chart is determined without a panic.
abbrev pub Revises : {W : Type 0} → Client W → Type 0
Revises {W = W} client = (path : String) (w : W) → Ends (client.get_chart_revision path w).0

module _ {W : Type 0} (env : Env W) (src : Sources W) (hr : HelmRelease) (client : Client W) where
  revised-Ends :
      (path : String) (x : Outcome (Result String) × W)
      → Ends x.0
      → Ends (((λ (_ : W). x) >>= λ r. pure (revised env client hr path r)) x.1).0
  revised-Ends path (returned r, w) e = (revised env client hr path r, refl)
  revised-Ends path (panicked, w) (r, e) = absurd cc

  with_revision-Ends :
      (x : Result String × W) → Revises client → Ends (with_revision env client hr x).0
  unfolding with_revision
  with_revision-Ends (err e, w) r = (err e, refl)
  with_revision-Ends (ok path, w) r =
      revised-Ends path (client.get_chart_revision path w) (r path w)

  prepare_from-Ends :
      (g : Option GitChartSource) (r : Option RepoChartSource) (c : Option Customize)
      (o : Option Oss) (w : W)
      → Revises client
      → Ends (prepare_from env client hr g r c o w).0
  prepare_from-Ends (some g) r c o w v = (_, refl)
  prepare_from-Ends none (some r) c o w v = with_revision-Ends _ v
  prepare_from-Ends none none (some c) o w v = with_revision-Ends _ v
  prepare_from-Ends none none none (some o) w v = with_revision-Ends _ v
  prepare_from-Ends none none none none w v = (_, refl)

  prepare_chart-Ends : (w : W) → Revises client → Ends (prepare_chart env client hr w).0
  unfolding prepare_chart
  prepare_chart-Ends w v = prepare_from-Ends _ _ _ _ w v

  module _ (chart : Chart) (values : String) (disabled : hr.spec.rollback.enable ≡ false) where
    abbrev Starts : Decision → Type 0
    Starts (err e) = Unit
    Starts (ok (a, cur)) = Ready env client hr cur chart values a none

    if-Starts :
        (b : Bool) (x y : Decision × W) → Starts x.0 → Starts y.0 → Starts (if b then x else y).0
    if-Starts true x y p q = p
    if-Starts false x y p q = q

    from_v2-Starts : (x : Result Bool × W) → Starts (from_v2 env client hr chart x).0
    from_v2-Starts (err e, w) = tt
    from_v2-Starts (ok true, w) = disabled
    from_v2-Starts (ok false, w) = inl disabled

    decide_new-Starts : (w : W) → Starts (decide_new env client hr chart w).0
    unfolding decide_new
    decide_new-Starts w =
        let exists = env.v2_release_exists (get_release_name hr) w in
        if-Starts
          (is_some (lookup migrate_annotation hr.annotations)
            && str_eq (get_helm_version hr env.config.default_helm_version) "v3")
          (from_v2 env client hr chart exists) (ok (Action.install, none), w)
          (from_v2-Starts exists) (inl disabled)

    from_history-Starts :
        (cur : Release) (x : Result (List Release) × W)
        → Starts (from_history env client hr chart cur x).0
    from_history-Starts cur (err e, w) = tt
    from_history-Starts cur (ok hist, w) = (refl, disabled)

    decide_managed-Starts :
        (cur : Release) (w : W) → Starts (decide_managed env client hr chart cur w).0
    unfolding decide_managed
    decide_managed-Starts cur w = if-Starts (not (has_synced hr)) _ _ disabled (
        if-Starts (has_rolled_back hr) _ _
          (if-Starts (chart.changed || should_retry_upgrade hr) _ _ disabled
            (from_history-Starts cur _))
          (if-Starts chart.changed _ _ disabled (refl, disabled)))

    decide_by_owner-Starts :
        (cur : Release) (x : (Bool × String × Option Error) × W)
        → Starts (decide_by_owner env client hr chart cur x).0
    decide_by_owner-Starts cur ((b, s, some e), w) = tt
    decide_by_owner-Starts cur ((false, s, none), w) = tt
    decide_by_owner-Starts cur ((true, s, none), w) =
        if-Starts (allows_upgrade cur.info.status) _ _ (decide_managed-Starts cur w) tt

    decide_found-Starts :
        (x : Result (Option Release) × W) → Starts (decide_found env client hr chart x).0
    decide_found-Starts (err e, w) = tt
    decide_found-Starts (ok none, w) = decide_new-Starts w
    decide_found-Starts (ok (some cur), w) = decide_by_owner-Starts cur _

    run_decided-Ends :
        (x : Decision × W)
        → Deploys client
        → Starts x.0
        → Ends (run_decided env src hr client chart values x).0
    unfolding run_decided
    run_decided-Ends (err e, w) d s = (_, refl)
    run_decided-Ends (ok (a, cur), w) d s =
        let (errs, e) = run_returns env client hr cur chart values d a w s in
        (run_error env src hr (some errs), ap concluded e)
      where
        concluded : Outcome (Option ErrCollection) → Outcome (Option Error)
        concluded o =
            (((λ v. (o, v)) >>= λ r. pure (run_error env src hr r))
              (run env client hr cur chart values a w).1).0

  run_composed-Ends :
      (chart : Chart) (x : Result String × W)
      → hr.spec.rollback.enable ≡ false
      → Deploys client
      → Ends (run_composed env src hr client chart x).0
  unfolding run_composed determine_sync_action
  run_composed-Ends chart (err e, w) r d = (_, refl)
  run_composed-Ends chart (ok values, w) r d =
      run_decided-Ends chart values r _ d (decide_found-Starts chart values r _)

  run_prepared-Ends :
      (x : Outcome Prepared × W)
      → hr.spec.rollback.enable ≡ false
      → Deploys client
      → Ends x.0
      → Ends (((λ (_ : W). x) >>= run_prepared env src hr client) x.1).0
  unfolding run_prepared
  run_prepared-Ends (panicked, w) r d (p, e) = absurd cc
  run_prepared-Ends (returned (err f), w) r d e = (_, refl)
  run_prepared-Ends (returned (ok (chart, export)), w) r d e =
      run_composed-Ends chart (compose_values src hr chart.chart_path (fetched env src hr chart w))
        r d

  sync_with-Ends :
      (w : W)
      → hr.spec.rollback.enable ≡ false
      → Deploys client
      → Revises client
      → Ends (sync_with env src hr (some client) w).0
  unfolding sync_with
  sync_with-Ends w r d v =
      run_prepared-Ends (prepare_chart env client hr w) r d (prepare_chart-Ends w v)

  -- Where rollbacks are disabled, the deployments of the client return a release, and the revision of
  -- a chart is always determined, a whole sync returns, with an error or without one, and does not
  -- panic, whatever else the cluster, Helm and the sources of charts and values answer.
  pub sync_returns :
      (w : W)
      → load env.clients (get_helm_version hr env.config.default_helm_version) ≡ some client
      → hr.spec.rollback.enable ≡ false
      → Deploys client
      → Revises client
      → Ends (sync env src hr w).0
  unfolding sync
  sync_returns w l r d v =
      subst (λ o. Ends (sync_with env src hr o w).0) (sym l) (sync_with-Ends w r d v)
