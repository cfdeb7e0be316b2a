-- ===== src/Release/Steady.antt =====
-- A whole sync of a release that is as it should be (`Sync`, pkg/release/release.go).
use helm_operator.Base.{Option, String, ap, false, if◌then◌else◌, none, refl, some, true, ◌∙◌, ◌≡◌}
use helm_operator.Release.Context.{Env, Chart, Export, Action, load}
use helm_operator.Api.{
  HelmRelease, HelmReleasePhase, get_release_name, get_target_namespace, get_helm_version,
}
use helm_operator.Effects.{Outcome, Result, ok, returned, ◌>>=◌, pure}
use helm_operator.Errors.{empty}
use helm_operator.Helm.{Client, Release, allows_upgrade, diff}
use helm_operator.Values.{Sources, compose_values}
use helm_operator.Status.{has_synced, has_rolled_back}
use helm_operator.Release.Manifest.{managed_by_helm_release}
use helm_operator.Release.Operations.{
  phase, observe, dry_run_compare, dry_run_options, dry_compared,
}
use helm_operator.Release.Cases.{dry_run_case, compared, stop, Next}
use helm_operator.Release.Run.{run, step}
use helm_operator.Release.Failures.{last_round}
use helm_operator.Release.Decide.{
  determine_sync_action, decide_found, decide_by_owner, decide_managed,
}
use helm_operator.Release.Prepare.{prepare_chart, sync, run_decided, after_sync, clean, run_error}
use helm_operator.Release.Syncing.{sync_decided}

module _ {W : Type 0} (env : Env W) (src : Sources W) (hr : HelmRelease) (client : Client W)
    (chart : Chart) (export : Option Export) (values : String) (cur : Release) where
  -- The resource asks for nothing new.
  abbrev pub Unchanged : Type 0
  Unchanged =
      (chart.changed ≡ false)
      × ((has_synced hr ≡ true)
          × ((has_rolled_back hr ≡ false) × (allows_upgrade cur.info.status ≡ true)))

  managed_action :
      (w : W)
      → Unchanged
      → decide_managed env client hr chart cur w ≡ (ok (Action.dry_run_compare, some cur), w)
  unfolding decide_managed
  managed_action w (c, (s, (r, a))) = simp (s, r, c) refl

  owned_action :
      (owner : String) (w : W)
      → Unchanged
      → decide_by_owner env client hr chart cur ((true, owner, none), w)
        ≡ (ok (Action.dry_run_compare, some cur), w)
  owned_action owner w u = simp (u.1.1.1) (managed_action w u)

  compare_action :
      (owner : String) (w w₁ w₂ : W)
      → Unchanged
      → client.get
          (get_release_name hr)
          (record { namespace = get_target_namespace hr; version = 0 })
          w
        ≡ (ok (some cur), w₁)
      → managed_by_helm_release env cur hr w₁ ≡ ((true, owner, none), w₂)
      → determine_sync_action env client hr chart w ≡ (ok (Action.dry_run_compare, some cur), w₂)
  unfolding determine_sync_action
  compare_action owner w w₁ w₂ u g m =
      ap (decide_found env client hr chart) g
      ∙ ap (decide_by_owner env client hr chart cur) m
      ∙ owned_action owner w₂ u

  abbrev pub compared_world : W → W
  compared_world w =
      phase env hr HelmReleasePhase.succeeded (observe env hr Action.dry_run_compare true w)

  compares :
      (dry : Release) (w w₁ : W)
      → has_rolled_back hr ≡ false
      → client.upgrade_from_path chart.chart_path
          (get_release_name hr)
          values
          (dry_run_options env hr)
          w
        ≡ (ok (some dry), w₁)
      → diff env.diff_values env.diff_charts cur dry ≡ ""
      → step env client hr (some cur) chart values Action.dry_run_compare none empty w
        ≡ (returned (stop empty), compared_world w₁)
  unfolding step dry_run_case dry_run_compare
  compares dry w w₁ r d e =
      ap (λ x. next (dry_compared env (some cur) hr x)) d
      ∙ ap (λ t. compared env client hr (some cur) chart values (ok (dry, t)) empty (observed w₁)) e
      ∙ ap
          (λ b. (
            returned (stop empty),
            (if b then observed w₁ else phase env hr HelmReleasePhase.succeeded (observed w₁)),
          ))
          r
    where
      observed : W → W
      observed = observe env hr Action.dry_run_compare true

      next : Outcome (Result (Release × String)) × W → Outcome Next × W
      next x = ((λ _. x) >>= λ t. compared env client hr (some cur) chart values t empty) w

  run_compares :
      (dry : Release) (w w₁ : W)
      → has_rolled_back hr ≡ false
      → client.upgrade_from_path chart.chart_path
          (get_release_name hr)
          values
          (dry_run_options env hr)
          w
        ≡ (ok (some dry), w₁)
      → diff env.diff_values env.diff_charts cur dry ≡ ""
      → run_decided env src hr client chart values (ok (Action.dry_run_compare, some cur), w)
        ≡ (returned none, compared_world w₁)
  unfolding run_decided run
  run_compares dry w w₁ r d e =
      ap (λ x. ((λ _. x) >>= λ t. pure (run_error env src hr t)) w)
        (last_round env client hr (some cur) chart values 5 Action.dry_run_compare none empty w
          empty (compared_world w₁) (compares dry w w₁ r d e))

  -- A sync of a release that is ours, may be upgraded and was not rolled back, with a chart and a
  -- resource that have not changed since it was released, and whose dry run shows no difference,
  -- deploys nothing: after the dry run it records the success, cleans the export of the chart, does
  -- what every sync does at its end, and returns no error.
  pub sync_steady :
      (owner : String) (dry : Release) (w w₁ w₂ w₃ w₄ w₅ : W)
      → load env.clients (get_helm_version hr env.config.default_helm_version) ≡ some client
      → prepare_chart env client hr w ≡ (returned (ok (chart, export)), w₁)
      → compose_values src hr chart.chart_path w₁ ≡ (ok values, w₂)
      → Unchanged
      → client.get
          (get_release_name hr)
          (record { namespace = get_target_namespace hr; version = 0 })
          w₂
        ≡ (ok (some cur), w₃)
      → managed_by_helm_release env cur hr w₃ ≡ ((true, owner, none), w₄)
      → client.upgrade_from_path chart.chart_path
          (get_release_name hr)
          values
          (dry_run_options env hr)
          w₄
        ≡ (ok (some dry), w₅)
      → diff env.diff_values env.diff_charts cur dry ≡ ""
      → sync env src hr w ≡ (
        returned none,
        after_sync env src hr (returned none) (clean env src hr export (compared_world w₅)),
      )
  sync_steady owner dry w w₁ w₂ w₃ w₄ w₅ l p c u g m d e =
      sync_decided env src hr client chart export values (ok (Action.dry_run_compare, some cur))
        none w w₁ w₂ w₄ (compared_world w₅) l p
        (ap
            (λ b.
              compose_values src hr chart.chart_path
                (if b then phase env hr HelmReleasePhase.chart_fetched w₁ else w₁))
            u.0
          ∙ c)
        (compare_action owner w₂ w₃ w₄ u g m) (run_compares dry w₄ w₅ u.1.1.0 d e)
