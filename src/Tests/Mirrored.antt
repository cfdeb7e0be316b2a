-- ===== src/Tests/Mirrored.antt =====
-- A cluster whose world is the number of copies of git mirrors, and a HelmRelease from git in it.
use helm_operator.Base.{[], ap, arith, false, none, refl, some, sym, ℕ, ◌+◌, ◌-◌, ◌∙◌, ◌∷◌, ◌≡◌}
use helm_operator.Api.{HelmRelease, get_helm_version}
use helm_operator.Effects.{ok, err, returned}
use helm_operator.Errors.{plain}
use helm_operator.Helm.{Client, Status}
use helm_operator.Kube.{Kube}
use helm_operator.Chartsync.{Os}
use helm_operator.Values.{Sources}
use helm_operator.Release.{Env, load, sync, prepare_chart, export_chart}
use helm_operator.Frame.Laws.{KubeKeeps, OsKeeps}
use helm_operator.Frame.Copies.{CountsExports}
use helm_operator.Frame.Exports.{Kept, sync-Kept}
use helm_operator.Tests.Cluster.{os, env, web, web_spec, client_of, release_of}
use helm_operator.Tests.ValueMaps.{sources}

abbrev still_kube : Kube ℕ
still_kube = record {
  get = λ ns name w. (ok web, w);
  update_status = λ ns hr w. (ok hr, w);
  retry_on_conflict = λ f a. f a;
  now = λ w. 0;
  gauge = λ op w. w;
}

abbrev still_os : Os ℕ
still_os = record os {
  stat = λ path w. ((os.stat path 5).0, w);
  mkdir_all = λ path w. (none, w);
  create = λ path w. (none, w);
  copy = λ path body w. (none, w);
  http_get = λ url w. (err (plain "no route to host"), w);
  oss_new = λ endpoint id secret w. (none, w);
  oss_bucket = λ bucket w. (none, w);
  oss_get_to_file = λ bucket key path w. (none, w);
  obs_new = λ id secret endpoint w. (none, w);
  obs_download = λ bucket key path w. (none, w);
}

abbrev still_sources : Sources ℕ
still_sources = record sources {
  config_map = λ ns name w. (ok (("values.yaml", name) ∷ []), w);
  secret = λ ns name w. (ok (("values.yaml", name) ∷ []), w);
  http_get = λ url w. (err (plain "no route to host"), w);
  read_file = λ path w. (err (plain "no such file"), w);
}

-- The dependencies cannot be updated.
abbrev still_client : Client ℕ
still_client = record (client_of (ok none) (ok none)) {
  get = λ name o w. (ok none, w);
  status = λ name o w. (ok Status.deployed, w);
  upgrade_from_path = λ path name values o w. (ok (some (release_of 1)), w);
  history = λ name o w. (ok [], w);
  rollback = λ name o w. (ok (some (release_of 2)), w);
  test = λ name o w. (none, w);
  dependency_update = λ path w. (some (plain "no repository"), w);
  pull_with_repo_url = λ url name version dest w. (ok dest, w);
  uninstall = λ name o w. (none, w);
  get_chart_revision = λ path w. (returned (ok "1.0.0"), w);
}

abbrev mirrored : Env ℕ
mirrored = record env {
  kube = still_kube;
  os = still_os;
  clients = ("v3", still_client) ∷ [];
  get_mirror_copy = λ hr w. (ok (record { dir = "/tmp/export" }, "abc123"), w + 1);
  changed_files = λ e r p w. (1, w);
  clean_export = λ e w. w - 1;
  delete_mirror = λ hr w. w;
  v2_release_exists = λ name w. (ok false, w);
  convert = λ name dry w. (none, w);
  kubectl_get = λ ns r w. (("", none), w);
  kubectl_annotate = λ ns rs id w. (("", none), w);
}

still_kube-Keeps : (n : ℕ) → KubeKeeps (λ w. w ≡ n) still_kube
still_kube-Keeps n = record {
  get = λ ns name. record { at = λ w p. p };
  update_status = λ ns hr. record { at = λ w p. p };
  gauge = λ op w p. p;
  retry = λ f a h p. h a p;
}

still_os-Keeps : (n : ℕ) → OsKeeps (λ w. w ≡ n) still_os
still_os-Keeps n = record {
  stat = λ path. record { at = λ w p. p };
  mkdir_all = λ path. record { at = λ w p. p };
  create = λ path. record { at = λ w p. p };
  copy = λ path body. record { at = λ w p. p };
  http_get = λ url. record { at = λ w p. p };
  oss_new = λ endpoint id secret. record { at = λ w p. p };
  oss_bucket = λ bucket. record { at = λ w p. p };
  oss_get_to_file = λ bucket key path. record { at = λ w p. p };
  obs_new = λ id secret endpoint. record { at = λ w p. p };
  obs_download = λ bucket key path. record { at = λ w p. p };
  obs_close = λ w p. p;
}

mirrored-Counts : CountsExports mirrored still_client still_sources
mirrored-Counts = record {
  exports = λ w. w;
  env_keeps = λ n. record {
    kube = still_kube-Keeps n;
    os = still_os-Keeps n;
    changed_files = λ e r p. record { at = λ w p. p };
    delete_mirror = λ hr w p. p;
    v2_release_exists = λ name. record { at = λ w p. p };
    convert = λ name dry. record { at = λ w p. p };
    kubectl_get = λ ns r. record { at = λ w p. p };
    kubectl_annotate = λ ns rs id. record { at = λ w p. p };
    observe = λ o w p. p;
  };
  client_keeps = λ n. record {
    get = λ name o. record { at = λ w p. p };
    upgrade_from_path = λ path name values o. record { at = λ w p. p };
    history = λ name o. record { at = λ w p. p };
    rollback = λ name o. record { at = λ w p. p };
    test = λ name o. record { at = λ w p. p };
    dependency_update = λ path. record { at = λ w p. p };
    pull_with_repo_url = λ url name version dest. record { at = λ w p. p };
    uninstall = λ name o. record { at = λ w p. p };
    get_chart_revision = λ path w p. p;
  };
  src_keeps = λ n. record {
    config_map = λ ns name. record { at = λ w p. p };
    secret = λ ns name. record { at = λ w p. p };
    http_get = λ url. record { at = λ w p. p };
    read_file = λ path. record { at = λ w p. p };
  };
  copied = λ hr w w₁ x m. sym (ap (λ y. y.1) m) ∙ (omega arith);
  not_copied = λ hr w w₁ e m. absurd cc;
  cleaned = λ e w. refl;
}

abbrev from_git : HelmRelease
from_git = record web {
  spec = record web_spec {
    chart_source = record (web_spec.chart_source) {
      git_chart_source = some (record {
        git_url = "https://git.example/charts";
        ref = "";
        path = "web";
        secret_ref = none;
        skip_dep_update = false;
      });
    };
  };
}

sync-Kept_example :
    Kept mirrored still_client still_sources mirrored-Counts from_git 3
      (sync mirrored still_sources from_git 3).1
unfolding mirrored-Counts load get_helm_version
sync-Kept_example = sync-Kept mirrored still_client still_sources mirrored-Counts from_git 3 refl

-- The export is left where the dependencies cannot be updated.
export_left :
    prepare_chart mirrored still_client from_git 3 ≡ (returned (err (plain "no repository")), 4)
unfolding prepare_chart export_chart
export_left = refl
