-- ===== src/Release/Upgrading.antt =====
-- A whole sync that upgrades a release (`Sync`, pkg/release/release.go).
use helm_operator.Base.{
  Bool-cases, Option, String, ap, false, inl, inr, none, refl, some, true, ◌∙◌, ◌≡◌,
}
use helm_operator.Release.Context.{Env, Chart, Export, Action, load}
use helm_operator.Api.{
  HelmRelease, HelmReleasePhase, get_release_name, get_target_namespace, get_helm_version,
}
use helm_operator.Effects.{ok, returned, ◌>>=◌, pure}
use helm_operator.Helm.{Client, Release, allows_upgrade}
use helm_operator.Values.{Sources, compose_values}
use helm_operator.Status.{has_synced, has_rolled_back}
use helm_operator.Release.Manifest.{managed_by_helm_release}
use helm_operator.Release.Operations.{
  phase, phase_with_revision, observe, upgrade, upgrade_options, conclude,
}
use helm_operator.Release.Decide.{
  determine_sync_action, decide_found, decide_by_owner, decide_managed,
}
use helm_operator.Release.Prepare.{
  prepare_chart, sync, run_decided, after_sync, clean, run_error, fetched,
}
use helm_operator.Release.Failures.{run_succeeds, after_success}
use helm_operator.Release.ErrorsKept.{upgrades}
use helm_operator.Release.Syncing.{sync_decided}

module _ {W : Type 0} (env : Env W) (src : Sources W) (hr : HelmRelease) (client : Client W)
    (chart : Chart) (export : Option Export) (values : String) (cur rel : Release) where
  -- The world of an upgrade: the phase before the client is called, and after it.
  abbrev pub before_upgrade : W → W
  before_upgrade = phase_with_revision env hr HelmReleasePhase.upgrading chart.revision

  abbrev pub after_upgrade : W → W
  after_upgrade w = observe env hr Action.upgrade true (phase env hr HelmReleasePhase.deployed w)

  changed_action :
      (w : W)
      → chart.changed ≡ true
      → decide_managed env client hr chart cur w ≡ (ok (Action.upgrade, some cur), w)
  unfolding decide_managed
  changed_action w c = elim (Bool-cases (has_synced hr)) [
    | inl s ↦ elim (Bool-cases (has_rolled_back hr)) [
      | inl r ↦ simp (s, r, c) refl
      | inr r ↦ simp (s, r, c) refl
    ]
    | inr s ↦ simp s refl
  ]

  upgrade_action :
      (owner : String) (w w₁ w₂ : W)
      → chart.changed ≡ true
      → allows_upgrade cur.info.status ≡ true
      → client.get
          (get_release_name hr)
          (record { namespace = get_target_namespace hr; version = 0 })
          w
        ≡ (ok (some cur), w₁)
      → managed_by_helm_release env cur hr w₁ ≡ ((true, owner, none), w₂)
      → determine_sync_action env client hr chart w ≡ (ok (Action.upgrade, some cur), w₂)
  unfolding determine_sync_action
  upgrade_action owner w w₁ w₂ c a g m =
      ap (decide_found env client hr chart) g
      ∙ ap (decide_by_owner env client hr chart cur) m
      ∙ simp a (changed_action w₂ c)

  upgraded :
      (w w₁ : W)
      → client.upgrade_from_path chart.chart_path
          (get_release_name hr)
          values
          (upgrade_options env hr)
          (before_upgrade w)
        ≡ (ok (some rel), w₁)
      → upgrade env client hr chart values w ≡ (ok (some rel), after_upgrade w₁)
  unfolding upgrade
  upgraded w w₁ u =
      ap
        (conclude env hr Action.upgrade HelmReleasePhase.deploy_failed HelmReleasePhase.deployed
          "upgrade failed")
        u

  run_upgrades :
      (w w₁ : W)
      → hr.spec.test.enable ≡ false
      → client.upgrade_from_path chart.chart_path
          (get_release_name hr)
          values
          (upgrade_options env hr)
          (before_upgrade w)
        ≡ (ok (some rel), w₁)
      → run_decided env src hr client chart values (ok (Action.upgrade, some cur), w) ≡ (
        returned none,
        after_success env client hr (some cur) chart values rel (after_upgrade w₁),
      )
  unfolding run_decided
  run_upgrades w w₁ t u =
      ap (λ x. ((λ _. x) >>= λ r. pure (run_error env src hr r)) w)
        (run_succeeds env client hr (some cur) chart values Action.upgrade
          (upgrade env client hr chart values) rel w (after_upgrade w₁) t upgrades
          (upgraded w w₁ u))

  -- A sync of a release that is ours and may be upgraded, whose chart has changed, upgrades it, where
  -- the chart is prepared, the values are composed and the client accepts them, with tests disabled,
  -- also after a rollback: it returns no error, records the phases of the upgrade and the success
  -- with its revision, annotates the resources, cleans the export of the chart, and does what every
  -- sync does at its end.
  pub sync_upgrades :
      (owner : String) (w w₁ w₂ w₃ w₄ w₅ : W)
      → load env.clients (get_helm_version hr env.config.default_helm_version) ≡ some client
      → prepare_chart env client hr w ≡ (returned (ok (chart, export)), w₁)
      → compose_values src hr chart.chart_path (fetched env src hr chart w₁) ≡ (ok values, w₂)
      → chart.changed ≡ true
      → client.get
          (get_release_name hr)
          (record { namespace = get_target_namespace hr; version = 0 })
          w₂
        ≡ (ok (some cur), w₃)
      → managed_by_helm_release env cur hr w₃ ≡ ((true, owner, none), w₄)
      → allows_upgrade cur.info.status ≡ true
      → client.upgrade_from_path chart.chart_path
          (get_release_name hr)
          values
          (upgrade_options env hr)
          (before_upgrade w₄)
        ≡ (ok (some rel), w₅)
      → hr.spec.test.enable ≡ false
      → sync env src hr w ≡ (
        returned none,
        after_sync env src hr (returned none) (
            clean env src hr export
              (after_success env client hr (some cur) chart values rel (after_upgrade w₅))),
      )
  sync_upgrades owner w w₁ w₂ w₃ w₄ w₅ l p c h g m a u t =
      sync_decided env src hr client chart export values (ok (Action.upgrade, some cur)) none w w₁
        w₂ w₄ (after_success env client hr (some cur) chart values rel (after_upgrade w₅)) l p c
        (upgrade_action owner w₂ w₃ w₄ h a g m) (run_upgrades w₄ w₅ t u)
