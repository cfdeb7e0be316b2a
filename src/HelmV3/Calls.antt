-- ===== src/HelmV3/Calls.antt =====
-- What the client of Helm 3 (pkg/helm/v3) calls of the library of Helm: its actions, the releases,
-- charts and values that they take and return, downloads, and the files of the cache.
use helm_operator.Base.{Bool, List, Option, String, ℕ, ℤ}
use helm_operator.Api.{Fields}
use helm_operator.Errors.{Error}
use helm_operator.Effects.{Result, Call}
use helm_operator.Helm.{Status}
use helm_operator.HelmV3.Repositories.{Entry}

-- The part of a `rest.Config` that is copied, and the flags it is copied to.
pub record RestConfig : Type 0 where
  pub host : String
  pub ca_file : String
  pub bearer_token : String

pub record ConfigFlags : Type 0 where
  pub namespace : String
  pub api_server : String
  pub ca_file : String
  pub bearer_token : String

-- A store of releases, with the namespace that it is in.
pub data Storage : Type 0 where
  secrets : String → Storage
  config_maps : String → Storage
  memory : Storage

-- `action.Configuration`
pub record Configuration : Type 0 where
  pub flags : ConfigFlags
  pub releases : Storage

-- The actions, by the fields that the client sets, and the one of a rollback that it does not set.
pub record InstallAction : Type 0 where
  pub namespace : String
  pub release_name : String
  pub atomic : Bool
  pub disable_hooks : Bool
  pub dry_run : Bool
  pub client_only : Bool
  pub timeout : ℤ
  pub wait : Bool
  pub skip_crds : Bool
  pub disable_open_api_validation : Bool
  pub post_renderer : Bool

pub record UpgradeAction : Type 0 where
  pub namespace : String
  pub atomic : Bool
  pub disable_hooks : Bool
  pub dry_run : Bool
  pub force : Bool
  pub max_history : ℤ
  pub reset_values : Bool
  pub reuse_values : Bool
  pub timeout : ℤ
  pub wait : Bool
  pub post_renderer : Bool

pub record RollbackAction : Type 0 where
  pub timeout : ℤ
  pub version : ℕ
  pub wait : Bool
  pub disable_hooks : Bool
  pub dry_run : Bool
  pub recreate : Bool
  pub force : Bool

pub record UninstallAction : Type 0 where
  pub disable_hooks : Bool
  pub dry_run : Bool
  pub keep_history : Bool
  pub timeout : ℤ

-- A file that `filepath.Walk` comes to, or an error in its place.
pub record Walked : Type 0 where
  pub path : String
  pub failed : Bool
  pub is_dir : Bool
  pub name : String
  pub mod_time : ℕ

-- `R`, `C` and `V` are the library's releases, charts and values. A release has a chart and an info.
pub record Library (W R C V : Type 0) : Type 0 where
  pub name : R → String
  pub namespace : R → String
  pub chart : R → C
  pub last_deployed : R → ℕ
  pub description : R → String
  pub status : R → String
  pub config : R → V
  pub manifest : R → String
  pub version : R → ℕ
  pub chart_name : C → String
  -- the version of the metadata, which may be nil
  pub metadata_version : C → Option String
  pub app_version : C → String
  pub chart_values : C → Fields
  pub templates : C → List (String × List ℕ)
  -- the constant of the library that is named like a generic status
  pub status_constant : Status → String
  -- `seq.Compare`
  pub compare : String × List ℕ → String × List ℕ → ℤ
  pub yaml : V → Result String
  pub as_map : V → Fields
  pub read_values : String → Result V
  pub kubernetes_client_set : ConfigFlags → Call W (Option Error)
  -- `action.NewRollback`
  pub new_rollback : RollbackAction
  pub run_get : Configuration → ℕ → String → Call W (Result R)
  pub run_status : Configuration → ℕ → String → Call W (Result R)
  pub run_history : Configuration → ℤ → String → Call W (Result (List R))
  -- `releaseutil.Reverse(hist, releaseutil.SortByRevision)`
  pub reverse_by_revision : List R → List R
  pub load : String → Call W (Result C)
  pub run_install : Configuration → InstallAction → C → Fields → Call W (Result R)
  pub run_upgrade : Configuration → UpgradeAction → String → C → Fields → Call W (Result R)
  pub run_rollback : Configuration → RollbackAction → String → Call W (Option Error)
  pub run_uninstall : Configuration → UninstallAction → String → Call W (Option Error)
  pub run_test : Configuration → ℤ → String → Call W (Option Error)
  -- `downloader.Manager.Update` and `ChartDownloader.DownloadTo`
  pub update_dependencies : String → Call W (Option Error)
  pub download_to : String → String → String → Call W (Result String)
  -- `urlutil.Equal`, `repo.FindChartInRepoURL`
  pub url_equal : String → String → Bool
  pub find_chart_in_repo_url : String → String → String → Call W (Result String)
  -- whether the index file of a repository is missing from the cache
  pub index_missing : Entry → Call W Bool
  -- the order in which goroutines run that are waited for, and those that run before the code
  -- returns without waiting
  pub scheduled : List Entry → List Entry
  pub scheduled_early : List Entry → List Entry
  -- `time.Now`, the files below a path as they are walked, `os.Remove`
  pub now : W → ℕ
  pub walk : String → W → List Walked
  pub remove : String → Call W (Option Error)
