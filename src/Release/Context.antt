-- ===== src/Release/Context.antt =====
-- What a release calls (the fields of `Release` in pkg/release/release.go), its configuration, and
-- the actions. Git mirrors, `kubectl`, YAML and the comparison of releases are parameters.
use helm_operator.Base.{lookup, put, Bool, List, Option, String, if◌then◌else◌, str_eq, ℕ}
use helm_operator.Effects.{Result, Call}
use helm_operator.Helm
use helm_operator.Helm.{Client}
use helm_operator.Kube.{Kube}
use helm_operator.Chartsync.{Os}
use helm_operator.Api.{HelmRelease, Fields}
use helm_operator.Errors.{Error}
use helm_operator.Release.Observing.{Observation}

pub record Config : Type 0 where
  pub chart_cache : String
  pub update_deps : Bool
  pub log_diffs : Bool
  pub default_helm_version : String

unfoldable pub with_defaults : Config → Config
with_defaults c = if str_eq c.chart_cache "" then record c { chart_cache = "/tmp" } else c

pub data Action : Type 0 where
  install upgrade migrate skip rollback uninstall dry_run_compare annotate test : Action

abbrev pub action_string : Action → String
action_string Action.install = "install"
action_string Action.upgrade = "upgrade"
action_string Action.migrate = "migrate"
action_string Action.skip = "skip"
action_string Action.rollback = "rollback"
action_string Action.uninstall = "uninstall"
action_string Action.dry_run_compare = "dry-run-compare"
action_string Action.annotate = "annotate"
action_string Action.test = "test"

-- An object of a manifest: its labels and annotations, those of the selector and of the template of a
-- workload, and all else. A map that is missing is empty.
pub record Object : Type 0 where
  pub namespace : String
  pub kind : String
  pub name : String
  pub labels : List (String × String)
  pub annotations : List (String × String)
  pub match_labels : List (String × String)
  pub template_labels : List (String × String)
  pub rest : String

-- A list kind has items, or fails to list them.
pub record Unstructured : Type 0 where
  pub object : Object
  pub items : Option (Result (List Object))

-- The copy of a git mirror.
pub record Export : Type 0 where
  pub dir : String

pub record Chart : Type 0 where
  pub chart_path : String
  pub revision : String
  pub changed : Bool

-- `helm.Clients`, a map from versions to clients (pkg/helm/helm.go).
abbrev pub Clients : Type 0 → Type 0
Clients W = List (String × Client W)

module _ {W : Type 0} where
  unfoldable pub load : Clients W → String → Option (Client W)
  unfolding lookup
  load cs version = lookup version cs

  unfoldable pub add : Clients W → String → Client W → Clients W
  unfolding put
  add cs version client = put version client cs

pub record Env (W : Type 0) : Type 0 where
  pub kube : Kube W
  pub os : Os W
  pub clients : Clients W
  pub config : Config
  -- `gitChartSync.GetMirrorCopy`, the count of `export.ChangedFiles`, `export.Clean`,
  -- `gitChartSync.Delete`
  pub get_mirror_copy : HelmRelease → Call W (Result (Export × String))
  pub changed_files : Export → String → String → Call W ℕ
  pub clean_export : Export → W → W
  pub delete_mirror : HelmRelease → W → W
  -- `converter`
  pub v2_release_exists : String → Call W (Result Bool)
  pub convert : String → Bool → Call W (Option Error)
  -- the two `kubectl` commands: namespace, resource or resources, annotation
  pub kubectl_get : String → String → Call W (String × Option Error)
  pub kubectl_annotate : String → List String → String → Call W (String × Option Error)
  -- `releaseutil.SplitManifests` and `yaml.Unmarshal` of an object
  pub split_manifests : String → List String
  pub unmarshal_object : String → Result Unstructured
  -- the order in which a map is walked
  pub map_order : List (String × List String) → List (String × List String)
  pub resource_id : HelmRelease → String
  -- `cmp.Diff` of the values and of the charts of two releases
  pub diff_values : Fields → Fields → String
  pub diff_charts : Helm.Chart → Helm.Chart → String
  -- a histogram of the metrics registry
  pub observe : Observation → W → W
