-- ===== src/Program/Startup.antt =====
-- The start of the operator (`main`, cmd/helm-operator/main.go), up to the release that it makes.
-- The clients of the cluster and the client of Helm 3 are parameters; logging is left out.
use helm_operator.Base.{
  List, Option, String, [], get_or, if◌then◌else◌, none, some, str_eq, ℕ, ◌∷◌, Bool, true, false,
}
use helm_operator.Effects.{Call, Outcome, returned, panicked}
use helm_operator.Errors.{Error}
use helm_operator.Helm.{Client}
use helm_operator.HelmV3.{version_v3}
use helm_operator.Release.{Clients, load, add, Config}
use helm_operator.Program.Options.{Flags, enabled_versions, split}

-- What `main` calls before the clients of Helm: the configuration and the two clients of the
-- cluster; and the client of Helm 3.
pub record System (W : Type 0) : Type 0 where
  pub lookup_env : String → Option String
  pub build_config : String → String → Call W (Option Error)
  pub new_kube_client : Call W (Option Error)
  pub new_if_client : Call W (Option Error)
  pub helm_v3_client : Client W

-- The operator with what `release.New` and `status.New` take.
pub record Services (W : Type 0) : Type 0 where
  pub clients : Clients W
  pub config : Config
  pub default_helm_version : String

pub data Started (W : Type 0) : Type 0 where
  exited : ℕ → Started W
  running : Services W → Started W

module _ {W : Type 0} (sys : System W) where
  -- One version: a client of Helm 3, which may become the default, or none.
  abbrev pub make_client : Bool → String → Clients W × Option String → Clients W × Option String
  make_client true v (cs, default) = (add cs version_v3 sys.helm_v3_client, some (get_or default v))
  make_client false v s = s

  -- The loop over the enabled versions, on the clients and the default version.
  unfoldable pub make_clients : List String → Clients W × Option String → Clients W × Option String
  unfolding add
  make_clients [] s = s
  make_clients (v ∷ vs) s = make_clients vs (make_client (str_eq v version_v3) v s)

  abbrev pub import_with : Option (Client W) → String → W → W
  import_with none path w = w
  import_with (some client) path w = (client.repository_import path w).1

  -- One pair of a version and a path.
  abbrev pub import_parts : Clients W → List String → W → W
  import_parts cs (v ∷ p ∷ []) w = import_with (load cs v) p w
  import_parts cs _ w = w

  -- The loop over the indexes that are imported.
  unfoldable pub import_indexes : Clients W → List String → W → W
  unfolding split load
  import_indexes cs [] w = w
  import_indexes cs (i ∷ is') w = import_indexes cs is' (import_parts cs (split 58 i) w)

  -- A nil default version is dereferenced.
  abbrev pub with_default : Flags → Clients W → Option String → Outcome (Started W)
  with_default fs cs none = panicked
  with_default fs cs (some v) = returned (
      running (record {
        clients = cs;
        config = record {
          chart_cache = "";
          update_deps = fs.update_dependencies;
          log_diffs = fs.log_release_diffs;
          default_helm_version = v;
        };
        default_helm_version = v;
      }))

  unfoldable pub start_helm : Flags → W → Outcome (Started W) × W
  unfolding make_clients import_indexes enabled_versions
  start_helm fs w =
      let (cs, default) = make_clients (enabled_versions fs sys.lookup_env) ([], none) in
      (with_default fs cs default, import_indexes cs fs.versioned_helm_repository_indexes w)

  -- An error ends the program with the status 1.
  abbrev pub or_exit : Option Error × W → (W → Outcome (Started W) × W) → Outcome (Started W) × W
  or_exit (some e, w) rest = (returned (exited 1), w)
  or_exit (none, w) rest = rest w

  -- `main`
  unfoldable pub start : Flags → W → Outcome (Started W) × W
  unfolding start_helm
  start fs w =
      if fs.print_version
      then (returned (exited 0), w)
      else or_exit (sys.build_config fs.master fs.kubeconfig w) (λ v.
        or_exit (sys.new_kube_client v) (λ u. or_exit (sys.new_if_client u) (start_helm fs)))
