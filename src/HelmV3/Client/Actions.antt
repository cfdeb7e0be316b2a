-- ===== src/HelmV3/Client/Actions.antt =====
-- The actions on releases (pkg/helm/v3: helm.go, get.go, history.go, upgrade.go, rollback.go,
-- uninstall.go, test.go). The logger is left out.
use helm_operator.Base.{
  List, Option, String, if◌then◌else◌, map, none, pos_part, some, str_eq, take, ℤ, ◌++s◌, ◌||◌,
}
use helm_operator.Errors.{Error, plain, release_not_found}
use helm_operator.Effects.{ok, err, Result, Call}
use helm_operator.Helm.{
  Status, Release, GetOptions, UpgradeOptions, RollbackOptions, UninstallOptions, TestOptions,
  HistoryOptions,
}
use helm_operator.HelmV3.Calls.{
  Library, RestConfig, ConfigFlags, Storage, Configuration, InstallAction, UpgradeAction,
  RollbackAction, UninstallAction,
}
use helm_operator.HelmV3.Client.Generic.{release_to_generic_release, look_up_generic_status}

-- `newConfigFlags`
abbrev pub new_config_flags : RestConfig → String → ConfigFlags
new_config_flags config namespace = record {
  namespace = namespace;
  api_server = config.host;
  ca_file = config.ca_file;
  bearer_token = config.bearer_token;
}

-- `newStorageDriver`
unfoldable pub new_storage_driver : String → String → Result Storage
new_storage_driver namespace d =
    if str_eq d "secret" || (str_eq d "secrets" || str_eq d "")
    then ok (Storage.secrets namespace)
    else if str_eq d "configmap" || str_eq d "configmaps"
    then ok (Storage.config_maps namespace)
    else if str_eq d "memory"
    then ok Storage.memory
    else err (plain ("unsupported storage driver '" ++s (d ++s "'")))

abbrev pub configure_install : UpgradeOptions → String → InstallAction
configure_install opts release_name = record {
  namespace = opts.namespace;
  release_name = release_name;
  atomic = opts.atomic;
  disable_hooks = opts.disable_hooks;
  dry_run = opts.dry_run;
  client_only = opts.client_only;
  timeout = opts.timeout;
  wait = opts.wait;
  skip_crds = opts.skip_crds;
  disable_open_api_validation = opts.disable_validation;
  post_renderer = opts.post_renderer;
}

abbrev pub configure_upgrade : UpgradeOptions → UpgradeAction
configure_upgrade opts = record {
  namespace = opts.namespace;
  atomic = opts.atomic;
  disable_hooks = opts.disable_hooks;
  dry_run = opts.dry_run;
  force = opts.force;
  max_history = opts.max_history;
  reset_values = opts.reset_values;
  reuse_values = opts.reuse_values;
  timeout = opts.timeout;
  wait = opts.wait;
  post_renderer = opts.post_renderer;
}

abbrev pub configure_rollback : RollbackOptions → RollbackAction → RollbackAction
configure_rollback opts action = record action {
  timeout = opts.timeout;
  version = opts.version;
  wait = opts.wait;
  disable_hooks = opts.disable_hooks;
  dry_run = opts.dry_run;
  recreate = opts.recreate;
}

abbrev pub configure_uninstall : UninstallOptions → UninstallAction
configure_uninstall opts = record {
  disable_hooks = opts.disable_hooks;
  dry_run = opts.dry_run;
  keep_history = opts.keep_history;
  timeout = opts.timeout;
}

-- A call that goes on with what the one before it returned, or fails with its error.
abbrev pub and_then : {W A B : Type 0} → Result A × W → (A → Call W (Result B)) → Result B × W
and_then (err e, w) k = (err e, w)
and_then (ok a, w) k = k a w

-- The same, where the last call returns only an error.
abbrev pub and_check :
    {W A : Type 0} → Result A × W → (A → Call W (Option Error)) → Option Error × W
and_check (err e, w) k = (some e, w)
and_check (ok a, w) k = k a w

module _ {W R C V : Type 0} (lib : Library W R C V) (kube_config : RestConfig) where
  abbrev pub stored_in : ConfigFlags → Result Storage → Result Configuration
  stored_in flags (err e) = err e
  stored_in flags (ok store) = ok (record { flags = flags; releases = store })

  abbrev pub connected : ConfigFlags → String → Option Error × W → Result Configuration × W
  connected flags driver (some e, w) = (err e, w)
  connected flags driver (none, w) =
      (stored_in flags (new_storage_driver flags.namespace driver), w)

  -- `newActionConfig`
  unfoldable pub new_action_config : String → String → Call W (Result Configuration)
  new_action_config namespace driver w =
      let flags = new_config_flags kube_config namespace in
      connected flags driver (lib.kubernetes_client_set flags w)

  abbrev pub found : Result R × W → Result (Option Release) × W
  found (ok r, w) = (ok (some (release_to_generic_release lib r)), w)
  found (err release_not_found, w) = (ok none, w)
  found (err e, w) = (err e, w)

  -- `Get`
  unfoldable pub get : String → GetOptions → Call W (Result (Option Release))
  get name opts w =
      and_then (new_action_config opts.namespace "" w)
        (λ cfg v. found (lib.run_get cfg opts.version name v))

  -- `Status`
  unfoldable pub status : String → GetOptions → Call W (Result Status)
  status name opts w = and_then (new_action_config opts.namespace "" w) (λ cfg v.
      and_then (lib.run_status cfg opts.version name v)
        (λ r u. (ok (look_up_generic_status lib (lib.status r)), u)))

  -- The loop over the sorted history: the first `max` of it, or none where that is negative.
  abbrev pub newest : ℤ → List R → List Release
  newest max hist =
      map (release_to_generic_release lib) (take (pos_part max) (lib.reverse_by_revision hist))

  -- `History`
  unfoldable pub history : String → HistoryOptions → Call W (Result (List Release))
  history name opts w = and_then (new_action_config opts.namespace "" w) (λ cfg v.
      and_then (lib.run_history cfg opts.max name v) (λ hist u. (ok (newest opts.max hist), u)))

  abbrev pub run_upgrade_action :
      Configuration → String → UpgradeOptions → C → V → Call W (Result R)
  run_upgrade_action cfg name opts c val w =
      if opts.install
      then lib.run_install cfg (configure_install opts name) c (lib.as_map val) w
      else lib.run_upgrade cfg (configure_upgrade opts) name c (lib.as_map val) w

  abbrev pub upgraded : Result R × W → Result (Option Release) × W
  upgraded (err e, w) = (err e, w)
  upgraded (ok r, w) = (ok (some (release_to_generic_release lib r)), w)

  abbrev pub with_values :
      Configuration → String → UpgradeOptions → C → Result V → Call W (Result (Option Release))
  with_values cfg name opts c (err e) w = (err e, w)
  with_values cfg name opts c (ok val) w = upgraded (run_upgrade_action cfg name opts c val w)

  abbrev pub with_chart :
      Configuration → String → String → UpgradeOptions → Result C × W → Result (Option Release) × W
  with_chart cfg name values opts (err e, w) = (err e, w)
  with_chart cfg name values opts (ok c, w) = with_values cfg name opts c (lib.read_values values) w

  abbrev pub with_config :
      String
      → String
      → String
      → UpgradeOptions
      → Result Configuration × W
      → Result (Option Release) × W
  with_config chart_path name values opts (err e, w) = (err e, w)
  with_config chart_path name values opts (ok cfg, w) =
      with_chart cfg name values opts (lib.load chart_path w)

  -- `UpgradeFromPath`
  unfoldable pub upgrade_from_path :
      String → String → String → UpgradeOptions → Call W (Result (Option Release))
  upgrade_from_path chart_path name values opts w =
      with_config chart_path name values opts (new_action_config opts.namespace "" w)

  abbrev pub after_rollback : String → String → Option Error × W → Result (Option Release) × W
  after_rollback name namespace (some e, w) = (err e, w)
  after_rollback name namespace (none, w) =
      get name (record { namespace = namespace; version = 0 }) w

  -- `Rollback`
  unfoldable pub rollback : String → RollbackOptions → Call W (Result (Option Release))
  unfolding get
  rollback name opts w = and_then (new_action_config opts.namespace "" w) (λ cfg v.
      after_rollback name opts.namespace
        (lib.run_rollback cfg (configure_rollback opts lib.new_rollback) name v))

  -- `Uninstall`
  unfoldable pub uninstall : String → UninstallOptions → Call W (Option Error)
  uninstall name opts w =
      and_check (new_action_config opts.namespace "" w)
        (λ cfg v. lib.run_uninstall cfg (configure_uninstall opts) name v)

  -- `Test`
  unfoldable pub test : String → TestOptions → Call W (Option Error)
  test name opts w =
      and_check (new_action_config opts.namespace "" w)
        (λ cfg v. lib.run_test cfg opts.timeout name v)
