-- ===== src/Tests/Cluster.antt =====
-- A small cluster, in which the world counts the calls, and a HelmRelease in it.
use helm_operator.Base.{
  Option, [], false, if◌then◌else◌, ltb, none, pos, some, true, ℕ, ◌++s◌, ◌+◌, ◌∷◌, String,
}
use helm_operator.Api.{
  HelmRelease, HelmReleaseSpec, HelmReleaseStatus, HelmReleasePhase, Rollback, Test,
  RepoChartSource, end,
}
use helm_operator.Effects.{Result, ok, err, returned}
use helm_operator.Errors.{plain}
use helm_operator.Helm.{Client, Release, Status}
use helm_operator.Kube.{Kube}
use helm_operator.Chartsync.{Os, FileStat}
use helm_operator.Release.{Env, Chart, Object}
use helm_operator.Status.Retry.{retries}

abbrev pub rollback_spec : Rollback
rollback_spec = record {
  enable = true;
  retry = true;
  max_retries = some (pos 2);
  force = false;
  recreate = false;
  disable_hooks = false;
  timeout = none;
  wait = false;
}

abbrev pub test_spec : Test
test_spec = record { enable = false; ignore_failures = none; timeout = none; cleanup = none }

abbrev pub repo_source : RepoChartSource
repo_source = record {
  repo_url = "https://charts.example/";
  name = "web";
  version = "1.0.0";
  chart_pull_secret = none;
}

abbrev pub web_spec : HelmReleaseSpec
web_spec = record {
  app_info = record { app_id = ""; component_id = ""; log_collect = false; istio_enabled = false };
  helm_version = "v3";
  chart_source = record {
    git_chart_source = none;
    repo_chart_source = some repo_source;
    oss = none;
    customize = none;
  };
  release_name = "";
  max_history = none;
  value_file_secrets = none;
  values_from = [];
  target_namespace = "";
  timeout = none;
  reset_values = none;
  skip_crds = false;
  wait = none;
  force_upgrade = false;
  rollback = rollback_spec;
  test = test_spec;
  values = end;
  disable_open_api_validation = false;
}

abbrev pub new_status : HelmReleaseStatus
new_status = record {
  observed_generation = pos 1;
  phase = HelmReleasePhase.other "";
  release_name = "";
  release_status = "";
  revision = "";
  last_attempted_revision = "";
  rollback_count = pos 0;
  conditions = [];
}

abbrev pub web : HelmRelease
web = record {
  name = "web";
  namespace = "apps";
  generation = pos 1;
  annotations = ("helm.fluxcd.io/migrate", "true") ∷ [];
  spec = web_spec;
  status = new_status;
}

abbrev pub web_chart : Chart
web_chart = record { chart_path = "/tmp/web"; revision = "1.0.0"; changed = false }

abbrev pub release_of : ℕ → Release
release_of version = record {
  name = "apps-web";
  namespace = "apps";
  chart = record {
    name = "web";
    version = "1.0.0";
    app_version = "1";
    values = end;
    templates = [];
  };
  info = record { last_deployed = 0; description = ""; status = Status.deployed };
  values = end;
  manifest = "kind: Deployment";
  version = version;
}

abbrev pub kube : Kube ℕ
kube = record {
  get = λ ns name w. (ok web, w + 1);
  update_status = λ ns hr w. (ok hr, w + 1);
  retry_on_conflict = retries 4;
  now = λ w. w;
  gauge = λ op w. w;
}

-- A client that answers every deployment and every question with `answer`.
abbrev pub client_of : Result (Option Release) → Result (Option Release) → Client ℕ
client_of found deployed = record {
  get = λ name o w. (found, w + 1);
  status = λ name o w. (ok Status.deployed, w + 1);
  upgrade_from_path = λ path name values o w. (deployed, w + 1);
  history = λ name o w. (ok [], w + 1);
  rollback = λ name o w. (ok (some (release_of 2)), w + 1);
  test = λ name o w. (none, w + 1);
  dependency_update = λ path w. (none, w + 1);
  pull_with_repo_url = λ url name version dest w. (ok (dest ++s "/web-1.0.0.tgz"), w + 1);
  uninstall = λ name o w. (none, w + 1);
  get_chart_revision = λ path w. (returned (ok "1.0.0"), w + 1);
  repository_index = λ w. (none, w + 1);
  repository_add = λ name url user pass cert key ca w. (none, w + 1);
  repository_remove = λ name w. (none, w + 1);
  repository_import = λ path w. (none, w + 1);
  pull = λ ref version dest w. (ok "/tmp/web", w + 1);
  version = "v3";
}

-- Files that are there from the fourth call on.
abbrev pub os : Os ℕ
os = record {
  stat = λ path w. ((if ltb w 3 then FileStat.not_exist else FileStat.regular), w + 1);
  mkdir_all = λ path w. (none, w + 1);
  create = λ path w. (none, w + 1);
  copy = λ path body w. (none, w + 1);
  http_get = λ url w. (err (plain "no route to host"), w + 1);
  join = λ a b. a ++s ("/" ++s b);
  encode = λ s. s;
  decode = λ s. ok (1 ∷ 2 ∷ []);
  of_bytes = λ bs. "";
  parse_url = λ s. err (plain "not a URL");
  url_string = λ u. u.path;
  decrypt_block = λ b. b;
  oss_new = λ endpoint id secret w. (none, w + 1);
  oss_bucket = λ bucket w. (none, w + 1);
  oss_get_to_file = λ bucket key path w. (none, w + 1);
  obs_new = λ id secret endpoint w. (none, w + 1);
  obs_download = λ bucket key path w. (none, w + 1);
  obs_close = λ w. w;
}

abbrev pub object_of : String → String → Object
object_of namespace kind = record {
  namespace = namespace;
  kind = kind;
  name = "web";
  labels = [];
  annotations = [];
  match_labels = ("app", "web") ∷ [];
  template_labels = ("app", "web") ∷ ("tier", "front") ∷ [];
  rest = "";
}

abbrev pub env : Env ℕ
env = record {
  kube = kube;
  os = os;
  clients = [];
  config = record {
    chart_cache = "/tmp";
    update_deps = true;
    log_diffs = false;
    default_helm_version = "v3";
  };
  get_mirror_copy = λ hr w. (err (plain "no mirror"), w + 1);
  changed_files = λ e r p w. (0, w + 1);
  clean_export = λ e w. w + 1;
  delete_mirror = λ hr w. w + 1;
  v2_release_exists = λ name w. (ok true, w + 1);
  convert = λ name dry w. (none, w + 1);
  kubectl_get = λ ns r w. (("apps:helmrelease/other", none), w + 1);
  kubectl_annotate = λ ns rs id w. (("", none), w + 1);
  split_manifests = λ m. m ∷ [];
  unmarshal_object = λ m. ok (record { object = object_of "" "Deployment"; items = none });
  map_order = λ m. m;
  resource_id = λ hr. "apps:helmrelease/web";
  diff_values = λ a b. "";
  diff_charts = λ a b. "";
  observe = λ o w. w;
}
