-- ===== src/Tests/Helms.antt =====
-- Conversions and repositories, in small stores.
use helm_operator.Base.{
  List, String, [], false, if◌then◌else◌, none, refl, some, ℕ, ◌++◌, ◌+◌, ◌==◌, ◌∷◌, ◌≡◌, All,
}
use helm_operator.Errors.{plain}
use helm_operator.Effects.{ok}
use helm_operator.HelmV3.{
  Plugin, Converter, convert, Repo, Entry, import_all, repository_add, load_repository_config,
}
use helm_operator.HelmV3.Conversions.{Converts, convert-Converts}
use helm_operator.HelmV3.Imports.{
  Keeps, Grows, Imported, named, import_all-Grows, repository_add_refused,
}

-- The world is the versions that are stored for Helm 3; the third cannot be stored.
abbrev plugin : Plugin (List ℕ) ℕ ℕ
plugin = record {
  get_release_versions = λ opts file w. ((1 ∷ 2 ∷ 3 ∷ [], none), w);
  create_release = λ v. ok v;
  store_release =
      λ v file w. if v == 3 then (some (plain "too large"), w) else (none, w ++ (v ∷ []));
  delete_all_release_versions = λ opts file dry w. (none, []);
}

abbrev converter : Converter
converter = record {
  tiller_namespace = "kube-system";
  kube_config = "";
  tiller_out_cluster = false;
  storage_type = "secrets";
}

convert-Converts_example :
    Converts plugin converter "web" [] (convert plugin converter "web" false [])
convert-Converts_example = convert-Converts plugin converter "web" []

abbrev pub entry : String → Entry
entry name = record {
  name = name;
  url = "https://charts.example/";
  username = "";
  password = "";
  cert_file = "";
  key_file = "";
  ca_file = "";
}

-- A file is its entries, and the world counts the downloads.
abbrev pub repo : Repo ℕ (List Entry)
repo = record {
  load_file = λ path w. ((entry "stable" ∷ [], none), w);
  write_file = λ path f w. (none, w);
  is_not_exist = λ e. false;
  repositories = λ f. f;
  has = named;
  add = λ e f. f ++ (e ∷ []);
  remove = λ n f. f;
  new_chart_repository = λ e. none;
  download_index_file = λ e w. (none, w + 1);
}

repo-Keeps : Keeps repo
repo-Keeps = record { added = λ e f. refl; found = λ n f. refl }

abbrev imported : List Entry
imported =
    (import_all repo (entry "stable" ∷ entry "edge" ∷ entry "edge" ∷ []) (entry "stable" ∷ []) 0).0

import_all-Grows_example :
    Grows repo repo-Keeps (entry "stable" ∷ []) imported
    × All (Imported repo repo-Keeps imported) (entry "stable" ∷ entry "edge" ∷ entry "edge" ∷ [])
import_all-Grows_example =
    import_all-Grows repo repo-Keeps (entry "stable" ∷ entry "edge" ∷ entry "edge" ∷ [])
      (entry "stable" ∷ []) 0 (refl, tt)

repository_add_refused_example :
    repository_add repo (entry "edge") 0
    ≡ (some (plain "chart repository with name '%s' already exists"), 0)
unfolding load_repository_config
repository_add_refused_example = repository_add_refused repo repo-Keeps (entry "edge") 0
