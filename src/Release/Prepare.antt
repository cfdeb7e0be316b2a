-- ===== src/Release/Prepare.antt =====
-- The chart of a release, and the sync and the uninstallation of a HelmRelease
-- (pkg/release/release.go). The result of `prepareChart` holds the export to clean up, if any.
use helm_operator.Base.{
  Bool, Option, String, [], false, if◌then◌else◌, ltb, none, not, some, str_eq, true, ◌&&◌, ◌++s◌,
}
use helm_operator.Release.Context.{Env, Chart, Action, Export, load}
use helm_operator.Api.{
  GitChartSource, RepoChartSource, HelmRelease, Oss, get_target_namespace, HelmReleasePhase,
  get_release_name, get_helm_version, Customize,
}
use helm_operator.Effects.{
  panicked, Result, Call, Outcome, M, err, returned, ok, with_defer, ◌>>=◌, pure, call,
}
use helm_operator.Helm.{Client}
use helm_operator.Values.{Sources, compose_values}
use helm_operator.Errors.{Error, ErrCollection, plain, append, collected, wrapped, empty}
use helm_operator.Status.{set_status_phase, set_observed_generation}
use helm_operator.Release.Decide.{Decision, determine_sync_action}
use helm_operator.Chartsync.{
  new_provider, ensure_chart_fetched, provider_download_file, download_file, Provider,
}
use helm_operator.Release.Run.{run}
use helm_operator.Release.Operations.{phase}
use helm_operator.Release.Observing.{observe_all, release_observations}

-- A source that is set and passes its guard.
abbrev pub when {ℓ} : {A : Type ℓ} → (A → Bool) → Option A → Option A
when guard none = none
when guard (some a) = if guard a then some a else none

abbrev pub git_ready : GitChartSource → Bool
git_ready g = not (str_eq g.git_url "") && not (str_eq g.path "")

abbrev pub repo_ready : RepoChartSource → Bool
repo_ready r = not (str_eq r.repo_url "") && (not (str_eq r.name "") && not (str_eq r.version ""))

abbrev pub Prepared : Type 0
Prepared = Result (Chart × Option Export)

module _ {W : Type 0} (env : Env W) (client : Client W) (hr : HelmRelease) where
  abbrev pub updated : Chart → Export → Option Error × W → Prepared × W
  updated chart export (some e, w) = (err e, w)
  updated chart export (none, w) = (ok (chart, some export), w)

  unfoldable pub export_chart : GitChartSource → Result (Export × String) × W → Prepared × W
  export_chart g (err e, w) = (err e, w)
  export_chart g (ok (export, revision), w) =
      let path = env.os.join export.dir g.path in
      let (n, w₁) = env.changed_files export hr.status.last_attempted_revision g.path w in
      let chart : Chart = record { chart_path = path; revision = revision; changed = ltb 0 n } in
      if env.config.update_deps && not g.skip_dep_update
      then updated chart export (client.dependency_update path w₁)
      else (ok (chart, some export), w₁)

  abbrev pub revised : String → Result String → Prepared
  revised path (err e) = err e
  revised path (ok revision) = ok (
    record {
      chart_path = path;
      revision = revision;
      changed = not (str_eq hr.status.last_attempted_revision revision);
    },
    none,
  )

  -- The end of the other cases: the revision of the chart that was fetched.
  unfoldable pub with_revision : Result String × W → Outcome Prepared × W
  with_revision (err e, w) = (returned (err e), w)
  with_revision (ok path, w) = (client.get_chart_revision path >>= λ r. pure (revised path r)) w

  abbrev pub path_of : Result (String × Bool) × W → Result String × W
  path_of (err e, w) = (err e, w)
  path_of (ok (path, _), w) = (ok path, w)

  abbrev pub from_new_provider : Bool → Result Provider → Call W (Result String)
  from_new_provider use_cache (err e) w = (err e, w)
  from_new_provider use_cache (ok p) w = provider_download_file env.os p use_cache w

  -- The `switch`: the first source that is set and passes its guard.
  abbrev pub prepare_from :
      Option GitChartSource → Option RepoChartSource → Option Customize → Option Oss → M W Prepared
  prepare_from (some g) r c o w = call (λ v. export_chart g (env.get_mirror_copy hr v)) w
  prepare_from none (some r) c o w =
      with_revision (path_of (ensure_chart_fetched env.os client env.config.chart_cache r w))
  prepare_from none none (some c) o w =
      with_revision (download_file env.os c.key env.config.chart_cache c.use_cache w)
  prepare_from none none none (some oss) w =
      with_revision (from_new_provider oss.use_cache (new_provider oss env.config.chart_cache) w)
  prepare_from none none none none w =
      (returned (err (plain "could not find valid chart source configuration for release")), w)

  -- `prepareChart`
  unfoldable pub prepare_chart : M W Prepared
  unfolding export_chart with_revision
  prepare_chart =
      let source = hr.spec.chart_source in
      prepare_from (when git_ready source.git_chart_source)
        (when repo_ready source.repo_chart_source)
        (when (λ c. not (str_eq c.key "")) source.customize) source.oss

module _ {W : Type 0} (env : Env W) (src : Sources W) (hr : HelmRelease) where
  no_client : Error
  no_client = plain ("no client found for Helm '" ++s (env.config.default_helm_version ++s "'"))

  -- A failure that is recorded in the namespace of the target.
  unfoldable pub fail_in_target : W → W
  fail_in_target w =
      (set_status_phase env.kube (get_target_namespace hr) hr HelmReleasePhase.failed [] w).1

  -- What `run` returns as an error; an empty collection is nil.
  abbrev pub run_error : Option ErrCollection → Option Error
  run_error none = none
  run_error (some empty) = none
  run_error (some (append es e)) = some (collected (append es e))

  unfoldable pub run_decided : Client W → Chart → String → Decision × W → Outcome (Option Error) × W
  unfolding fail_in_target
  run_decided client chart values (err e, w) =
      (returned (some (wrapped "failed to determine sync action for release" e)), fail_in_target w)
  run_decided client chart values (ok (action, cur), w) =
      (run env client hr cur chart values action >>= λ r. pure (run_error r)) w

  unfoldable pub run_composed : Client W → Chart → Result String × W → Outcome (Option Error) × W
  unfolding fail_in_target run_decided
  run_composed client chart (err e, w) =
      (returned (some (wrapped "failed to compose values for release" e)), fail_in_target w)
  run_composed client chart (ok values, w) =
      run_decided client chart values (determine_sync_action env client hr chart w)

  abbrev pub clean : Option Export → W → W
  clean none w = w
  clean (some export) w = env.clean_export export w

  abbrev pub fetched : Chart → W → W
  fetched chart w = if chart.changed then phase env hr HelmReleasePhase.chart_fetched w else w

  unfoldable pub run_prepared : Client W → Prepared → M W (Option Error)
  unfolding run_composed
  run_prepared client (err e) w = (
    returned (some (wrapped "failed to prepare chart for release" e)),
    phase env hr HelmReleasePhase.chart_fetch_failed w,
  )
  run_prepared client (ok (chart, export)) w =
      with_defer (λ v. run_composed client chart (compose_values src hr chart.chart_path v))
        (λ _ v. clean export v) (fetched chart w)

  abbrev pub succeeded_outcome : Outcome (Option Error) → Bool
  succeeded_outcome (returned none) = true
  succeeded_outcome (returned (some _)) = false
  succeeded_outcome panicked = true

  -- The two deferred calls of `Sync`, the last that was deferred first.
  unfoldable pub after_sync : Outcome (Option Error) → W → W
  after_sync r w =
      observe_all env.observe
        (release_observations (succeeded_outcome r) (get_target_namespace hr) (get_release_name hr))
        (set_observed_generation env.kube hr.namespace hr hr.generation w).1

  unfoldable pub sync_with : Option (Client W) → M W (Option Error)
  unfolding no_client fail_in_target run_prepared after_sync
  sync_with none w = (returned (some no_client), fail_in_target w)
  sync_with (some client) w =
      with_defer (prepare_chart env client hr >>= run_prepared client) after_sync w

  -- `Sync`
  unfoldable pub sync : M W (Option Error)
  unfolding sync_with
  sync = sync_with (load env.clients (get_helm_version hr env.config.default_helm_version))

  -- `Uninstall`
  unfoldable pub uninstall_release : M W (Option Error)
  unfolding no_client
  uninstall_release w =
      elim (load env.clients (get_helm_version hr env.config.default_helm_version)) [
        | none ↦ (returned (some no_client), w)
        | some client ↦
            (run env client hr none (record { chart_path = ""; revision = ""; changed = false }) ""
                  Action.uninstall
                >>= λ r. pure (run_error r))
              w
      ]
