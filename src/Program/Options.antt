-- ===== src/Program/Options.antt =====
-- The flags and their defaults, and the environment (cmd/helm-operator/main.go). Durations are in
-- nanoseconds; texts of usage are left out.
use Prim.Native.Char.{code}
use helm_operator.Base.{
  Bool, List, Option, String, [], false, get_or, if◌then◌else◌, not, pos, str_eq, true, ℕ, ℤ, ◌&&◌,
  ◌++s◌, ◌==◌, ◌∷◌,
}

pub record Flags : Type 0 where
  pub print_version : Bool
  pub log_format : String
  pub kubeconfig : String
  pub master : String
  pub namespace : String
  pub workers : ℤ
  pub listen_addr : String
  pub tiller_ip : String
  pub tiller_port : String
  pub tiller_namespace : String
  pub tiller_tls_verify : Bool
  pub tiller_tls_enable : Bool
  pub tiller_tls_key : String
  pub tiller_tls_cert : String
  pub tiller_tls_ca_cert : String
  pub tiller_tls_hostname : String
  pub convert_tiller_out_cluster : Bool
  pub convert_release_storage : String
  pub charts_sync_interval : ℤ
  pub status_update_interval : ℤ
  pub log_release_diffs : Bool
  pub update_dependencies : Bool
  pub git_timeout : ℤ
  pub git_poll_interval : ℤ
  pub git_default_ref : String
  pub versioned_helm_repository_indexes : List String
  pub enabled_helm_versions : List String
  -- `fs.Changed("enabled-helm-versions")`
  pub enabled_changed : Bool

abbrev pub default_flags : Flags
default_flags = record {
  print_version = false;
  log_format = "fmt";
  kubeconfig = "";
  master = "";
  namespace = "";
  workers = pos 2;
  listen_addr = ":3030";
  tiller_ip = "";
  tiller_port = "";
  tiller_namespace = "kube-system";
  tiller_tls_verify = false;
  tiller_tls_enable = false;
  tiller_tls_key = "/etc/fluxd/helm/tls.key";
  tiller_tls_cert = "/etc/fluxd/helm/tls.crt";
  tiller_tls_ca_cert = "";
  tiller_tls_hostname = "";
  convert_tiller_out_cluster = false;
  convert_release_storage = "secrets";
  charts_sync_interval = pos 180000000000;
  status_update_interval = pos 10000000000;
  log_release_diffs = false;
  update_dependencies = true;
  git_timeout = pos 20000000000;
  git_poll_interval = pos 300000000000;
  git_default_ref = "master";
  versioned_helm_repository_indexes = [];
  enabled_helm_versions = "v3" ∷ [];
  enabled_changed = false;
}

-- `strings.Split`, by the code of a character.
abbrev pub prepend : String → List String → List String
prepend c [] = c ∷ []
prepend c (x ∷ xs) = (c ++s x) ∷ xs

unfoldable pub split : ℕ → String → List String
split sep String.[] = "" ∷ []
split sep (String.◌∷◌ c s) =
    let rest = split sep s in if code c == sep then "" ∷ rest else prepend (String.◌∷◌ c "") rest

-- `getEnv`
abbrev pub get_env : (String → Option String) → String → String → String
get_env lookup_env key default_value = get_or (lookup_env key) default_value

-- `getEnvAsSlice`
unfoldable pub get_env_as_slice : (String → Option String) → String → List String → List String
unfolding split
get_env_as_slice lookup_env name default_value =
    let v = get_env lookup_env name "" in if str_eq v "" then default_value else split 44 v

abbrev pub is_empty_list : List String → Bool
is_empty_list [] = true
is_empty_list (x ∷ xs) = false

-- The versions that are enabled: the environment counts where the flag is not given.
unfoldable pub enabled_versions : Flags → (String → Option String) → List String
unfolding get_env_as_slice
enabled_versions fs lookup_env =
    let from_env = get_env_as_slice lookup_env "HELM_VERSION" [] in
    if not (is_empty_list from_env) && not fs.enabled_changed
    then from_env
    else fs.enabled_helm_versions
