-- ===== src/Helm.antt =====
-- Releases and the client of Helm (pkg/helm). The client is an interface; `client` of the
-- sections below is any implementation of it.
use helm_operator.Base.{ℕ, Bool, true, false, String, Option, List, ℤ, ◌++s◌}
use helm_operator.Api.{Fields}
use helm_operator.Errors.{Error}
use helm_operator.Effects.{Result, Call, M}

pub data Status : Type 0 where
  unknown deployed uninstalled superseded failed : Status
  uninstalling pending_install pending_upgrade pending_rollback : Status

unfoldable pub allows_upgrade : Status → Bool
allows_upgrade Status.deployed = true
allows_upgrade _ = false

abbrev pub status_string : Status → String
status_string Status.unknown = "unknown"
status_string Status.deployed = "deployed"
status_string Status.uninstalled = "uninstalled"
status_string Status.superseded = "superseded"
status_string Status.failed = "failed"
status_string Status.uninstalling = "uninstalling"
status_string Status.pending_install = "pending-install"
status_string Status.pending_upgrade = "pending-upgrade"
status_string Status.pending_rollback = "pending-rollback"

pub record Info : Type 0 where
  pub last_deployed : ℕ
  pub description : String
  pub status : Status

pub record File : Type 0 where
  pub name : String
  pub contents : List ℕ

pub record Chart : Type 0 where
  pub name : String
  pub version : String
  pub app_version : String
  pub values : Fields
  pub templates : List File

pub record Release : Type 0 where
  pub name : String
  pub namespace : String
  pub chart : Chart
  pub info : Info
  pub values : Fields
  pub manifest : String
  pub version : ℕ

-- `Diff`, by the two calls of `cmp.Diff` under the option that compares numbers as floats.
abbrev pub diff : (Fields → Fields → String) → (Chart → Chart → String) → Release → Release → String
diff diff_values diff_charts j k = diff_values j.values k.values ++s diff_charts j.chart k.chart

-- `Values.YAML` is `yaml.Marshal`; `Values.Checksum` drops its error.
abbrev pub checksum : (Fields → String × Option Error) → (String → String) → Fields → String
checksum marshal sha256 v = sha256 (marshal v).0

pub record GetOptions : Type 0 where
  pub namespace : String
  pub version : ℕ

pub record UpgradeOptions : Type 0 where
  pub namespace : String
  pub timeout : ℤ
  pub wait : Bool
  pub install : Bool
  pub disable_hooks : Bool
  pub dry_run : Bool
  pub client_only : Bool
  pub force : Bool
  pub reset_values : Bool
  pub skip_crds : Bool
  pub reuse_values : Bool
  pub recreate : Bool
  pub max_history : ℤ
  pub atomic : Bool
  pub disable_validation : Bool
  -- whether a post renderer is set
  pub post_renderer : Bool

pub record RollbackOptions : Type 0 where
  pub namespace : String
  pub version : ℕ
  pub timeout : ℤ
  pub wait : Bool
  pub disable_hooks : Bool
  pub dry_run : Bool
  pub recreate : Bool
  pub force : Bool

pub record TestOptions : Type 0 where
  pub namespace : String
  pub cleanup : Bool
  pub timeout : ℤ

pub record UninstallOptions : Type 0 where
  pub namespace : String
  pub disable_hooks : Bool
  pub dry_run : Bool
  pub keep_history : Bool
  pub timeout : ℤ

pub record HistoryOptions : Type 0 where
  pub namespace : String
  pub max : ℤ

-- `helm.Client`; a `*Release` may be nil.
pub record Client (W : Type 0) : Type 0 where
  pub get : String → GetOptions → Call W (Result (Option Release))
  pub status : String → GetOptions → Call W (Result Status)
  pub upgrade_from_path :
      String → String → String → UpgradeOptions → Call W (Result (Option Release))
  pub history : String → HistoryOptions → Call W (Result (List Release))
  pub rollback : String → RollbackOptions → Call W (Result (Option Release))
  pub test : String → TestOptions → Call W (Option Error)
  pub dependency_update : String → Call W (Option Error)
  pub repository_index : Call W (Option Error)
  pub repository_add :
      String → String → String → String → String → String → String → Call W (Option Error)
  pub repository_remove : String → Call W (Option Error)
  pub repository_import : String → Call W (Option Error)
  pub pull : String → String → String → Call W (Result String)
  pub pull_with_repo_url : String → String → String → String → Call W (Result String)
  pub uninstall : String → UninstallOptions → Call W (Option Error)
  pub get_chart_revision : String → M W (Result String)
  pub version : String
