-- ===== src/HelmV3/Client/Instance.antt =====
-- The client of Helm 3 as an implementation of the interface (pkg/helm/v3/helm.go, `New`).
use helm_operator.Base.{String}
use helm_operator.Helm.{Client}
use helm_operator.HelmV3.Calls.{Library, RestConfig}
use helm_operator.HelmV3.Repositories.{Repo, repository_add, repository_remove, repository_import}
use helm_operator.HelmV3.Client.Actions.{
  get, status, upgrade_from_path, history, rollback, test, uninstall,
}
use helm_operator.HelmV3.Client.Downloads.{
  dependency_update, repository_index, pull, pull_with_repo_url, get_chart_revision,
}

abbrev pub version_v3 : String
version_v3 = "v3"

abbrev pub helm_v3 : {W R C V F : Type 0} → Library W R C V → Repo W F → RestConfig → Client W
helm_v3 lib repo config = record {
  get = get lib config;
  status = status lib config;
  upgrade_from_path = upgrade_from_path lib config;
  history = history lib config;
  rollback = rollback lib config;
  test = test lib config;
  dependency_update = dependency_update lib repo;
  repository_index = repository_index lib repo;
  repository_add = λ name url username password cert_file key_file ca_file.
      repository_add repo (record {
        name = name;
        url = url;
        username = username;
        password = password;
        cert_file = cert_file;
        key_file = key_file;
        ca_file = ca_file;
      });
  repository_remove = repository_remove repo;
  repository_import = repository_import repo;
  pull = pull lib repo;
  pull_with_repo_url = pull_with_repo_url lib repo;
  uninstall = uninstall lib config;
  get_chart_revision = get_chart_revision lib repo;
  version = version_v3;
}
