-- ===== src/Release/Syncing.antt =====
-- A sync whose chart is prepared and whose values are composed (`Sync`, pkg/release/release.go).
use helm_operator.Base.{Option, String, ap, some, ◌∙◌, ◌≡◌}
use helm_operator.Release.Context.{Env, Chart, Export, load}
use helm_operator.Api.{HelmRelease, get_helm_version}
use helm_operator.Effects.{Outcome, ok, returned, ◌>>=◌}
use helm_operator.Errors.{Error}
use helm_operator.Helm.{Client}
use helm_operator.Values.{Sources, compose_values}
use helm_operator.Release.Decide.{Decision, determine_sync_action}
use helm_operator.Release.Prepare.{
  Prepared, sync_with, prepare_chart, sync, run_decided, run_composed, run_prepared, after_sync,
  clean, fetched,
}

module _ {W : Type 0} (env : Env W) (src : Sources W) (hr : HelmRelease) (client : Client W)
    (chart : Chart) (export : Option Export) (values : String) where
  -- What such a sync does once an action is decided on, and at its end.
  pub sync_decided :
      (decision : Decision) (e : Option Error) (w w₁ w₂ w₃ w₄ : W)
      → load env.clients (get_helm_version hr env.config.default_helm_version) ≡ some client
      → prepare_chart env client hr w ≡ (returned (ok (chart, export)), w₁)
      → compose_values src hr chart.chart_path (fetched env src hr chart w₁) ≡ (ok values, w₂)
      → determine_sync_action env client hr chart w₂ ≡ (decision, w₃)
      → run_decided env src hr client chart values (decision, w₃) ≡ (returned e, w₄)
      → sync env src hr w
        ≡ (returned e, after_sync env src hr (returned e) (clean env src hr export w₄))
  unfolding sync sync_with run_prepared run_composed
  sync_decided decision e w w₁ w₂ w₃ w₄ l p c d r =
      ap (λ o. sync_with env src hr o w) l
      ∙ ap (λ x. ended (prepared x)) p
      ∙ ap (λ x. ended (cleaned (run_composed env src hr client chart x))) c
      ∙ ap (λ x. ended (cleaned (run_decided env src hr client chart values x))) d
      ∙ ap (λ x. ended (cleaned x)) r
    where
      prepared : Outcome Prepared × W → Outcome (Option Error) × W
      prepared x = ((λ _. x) >>= run_prepared env src hr client) w

      cleaned : Outcome (Option Error) × W → Outcome (Option Error) × W
      cleaned x = (x.0, clean env src hr export x.1)

      ended : Outcome (Option Error) × W → Outcome (Option Error) × W
      ended x = (x.0, after_sync env src hr x.0 x.1)
