-- ===== src/Frame/Exports.antt =====
-- The copies of git mirrors that a sync leaves behind (`prepareChart` and `Sync`,
-- pkg/release/release.go).
use helm_operator.Base.{
  Option, String, [], ap, inl, inr, none, refl, some, subst, suc, sym, ℕ, ◌-◌, ◌∙◌, ◌≡◌, ◌⊎◌, arith,
}
use helm_operator.Effects.{Result, Outcome, ok, err, returned, panicked, ◌>>=◌, pure}
use helm_operator.Errors.{Error, ErrCollection}
use helm_operator.Api.{HelmRelease, HelmReleasePhase, get_helm_version, get_target_namespace}
use helm_operator.Helm.{Client}
use helm_operator.Values.{Sources, compose_values}
use helm_operator.Release.{
  Env, Chart, Prepared, Decision, load, sync, sync_with, prepare_chart, run_prepared, run_composed,
  run_decided, after_sync, fetched, fail_in_target, determine_sync_action, run, run_error, phase,
}
use helm_operator.Frame.Statuses.{set_status_phase-Keeps, set_observed_generation-Keeps}
use helm_operator.Frame.Operations.{phase-kept}
use helm_operator.Frame.Decisions.{determine_sync_action-kept}
use helm_operator.Frame.Releases.{run-kept}
use helm_operator.Frame.Branches.{if_world-kept}
use helm_operator.Frame.ValueSources.{compose_values-kept}
use helm_operator.Frame.Copies.{CountsExports, Has, Held, UpdateFails, prepare_from-Held}

module _ {W : Type 0} (env : Env W) (client : Client W) (src : Sources W)
    (counts : CountsExports env client src) (hr : HelmRelease) where
  ended-Has :
      (n : ℕ) (x : Outcome (Option ErrCollection) × W)
      → Has env client src counts hr n x.1
      → Has env client src counts hr n
          (((λ (_ : W). x) >>= λ r. pure (run_error env src hr r)) x.1).1
  ended-Has n (panicked, w) p = p
  ended-Has n (returned r, w) p = p

  run_decided-Has :
      (n : ℕ) (chart : Chart) (values : String) (x : Decision × W)
      → Has env client src counts hr n x.1
      → Has env client src counts hr n (run_decided env src hr client chart values x).1
  unfolding run_decided fail_in_target
  run_decided-Has n chart values (err e, w) p =
      (set_status_phase-Keeps (Has env client src counts hr n) env.kube (counts.env_keeps n).kube
          (get_target_namespace hr) hr HelmReleasePhase.failed []).at
        w p
  run_decided-Has n chart values (ok (a, cur), w) p =
      ended-Has n (run env client hr cur chart values a w) (
        run-kept (Has env client src counts hr n) env (counts.env_keeps n) client
          (counts.client_keeps n) hr chart cur values a w p)

  run_composed-Has :
      (n : ℕ) (chart : Chart) (x : Result String × W)
      → Has env client src counts hr n x.1
      → Has env client src counts hr n (run_composed env src hr client chart x).1
  unfolding run_composed fail_in_target
  run_composed-Has n chart (err e, w) p =
      (set_status_phase-Keeps (Has env client src counts hr n) env.kube (counts.env_keeps n).kube
          (get_target_namespace hr) hr HelmReleasePhase.failed []).at
        w p
  run_composed-Has n chart (ok values, w) p =
      run_decided-Has n chart values (determine_sync_action env client hr chart w) (
        determine_sync_action-kept (Has env client src counts hr n) env (counts.env_keeps n) client
          (counts.client_keeps n) hr chart w p)

  -- The copies after a sync, of n before it.
  abbrev pub Kept : ℕ → W → Type 0
  Kept n w =
      Has env client src counts hr n w
      ⊎ (UpdateFails env client src counts hr × Has env client src counts hr (suc n) w)

  fetched-Has :
      (n : ℕ) (chart : Chart) (w : W)
      → Has env client src counts hr n w
      → Has env client src counts hr n (fetched env src hr chart w)
  fetched-Has n chart w p =
      if_world-kept (Has env client src counts hr n) chart.changed
        (phase env hr HelmReleasePhase.chart_fetched w) w
        (phase-kept (Has env client src counts hr n) env (counts.env_keeps n) hr
          HelmReleasePhase.chart_fetched w p)
        p

  run_chart-Has :
      (n : ℕ) (chart : Chart) (w : W)
      → Has env client src counts hr n w
      → Has env client src counts hr n
          (run_composed env src hr client chart
            (compose_values src hr chart.chart_path (fetched env src hr chart w))).1
  run_chart-Has n chart w p = run_composed-Has n chart _ (
      compose_values-kept (Has env client src counts hr n) src (counts.src_keeps n) hr
        chart.chart_path _ (fetched-Has n chart w p))

  run_prepared-Kept :
      (n : ℕ) (x : Outcome Prepared × W)
      → Held env client src counts hr n x
      → Kept n (((λ (_ : W). x) >>= run_prepared env src hr client) x.1).1
  unfolding run_prepared
  run_prepared-Kept n (panicked, w) p = inl p
  run_prepared-Kept n (returned (err e), w) (inl p) = inl (
      phase-kept (Has env client src counts hr n) env (counts.env_keeps n) hr
        HelmReleasePhase.chart_fetch_failed w p)
  run_prepared-Kept n (returned (err e), w) (inr (f, p)) = inr (
    f,
    phase-kept (Has env client src counts hr (suc n)) env (counts.env_keeps (suc n)) hr
        HelmReleasePhase.chart_fetch_failed w p,
  )
  run_prepared-Kept n (returned (ok (chart, none)), w) p = inl (run_chart-Has n chart w p)
  run_prepared-Kept n (returned (ok (chart, some export)), w) p =
      inl (counts.cleaned export _ ∙ ap (λ k. k - 1) (run_chart-Has (suc n) chart w p) ∙ taken)
    where
      taken : suc n - 1 ≡ n
      taken = omega arith

  after_sync-Has :
      (n : ℕ) (o : Outcome (Option Error)) (w : W)
      → Has env client src counts hr n w
      → Has env client src counts hr n (after_sync env src hr o w)
  unfolding after_sync
  after_sync-Has n o w p = (counts.env_keeps n).observe _ _ (
      (counts.env_keeps n).observe _ _ (
        (set_observed_generation-Keeps (Has env client src counts hr n) env.kube
            (counts.env_keeps n).kube hr.namespace hr hr.generation).at
          w p))

  after_sync-Kept :
      (n : ℕ) (o : Outcome (Option Error)) (w : W) → Kept n w → Kept n (after_sync env src hr o w)
  after_sync-Kept n o w (inl p) = inl (after_sync-Has n o w p)
  after_sync-Kept n o w (inr (f, p)) = inr (f, after_sync-Has (suc n) o w p)

  prepare_chart-Held :
      (n : ℕ) (w : W)
      → Has env client src counts hr n w
      → Held env client src counts hr n (prepare_chart env client hr w)
  unfolding prepare_chart
  prepare_chart-Held n w p = prepare_from-Held env client src counts hr n _ _ _ _ w p

  -- A sync leaves as many copies of git mirrors behind as there were before it, however it ends, also
  -- by a panic; only where an update of the dependencies fails can there be one more.
  pub sync-Kept :
      (w : W)
      → load env.clients (get_helm_version hr env.config.default_helm_version) ≡ some client
      → Kept (counts.exports w) (sync env src hr w).1
  unfolding sync sync_with
  sync-Kept w l =
      subst (λ o. Kept (counts.exports w) (sync_with env src hr o w).1) (sym l)
        (after_sync-Kept (counts.exports w) _ _ (
          run_prepared-Kept (counts.exports w) (prepare_chart env client hr w)
            (prepare_chart-Held (counts.exports w) w refl)))
