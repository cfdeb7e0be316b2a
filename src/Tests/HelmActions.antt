-- ===== src/Tests/HelmActions.antt =====
-- The client of Helm 3 over a small library, in which a release is its version and the world counts
-- the calls.
use mathlib.Core.Path.{fun_ext}
use mathlib.Core.List.{Permᴰ}
use mathlib.Core.List.Permᴰ
use helm_operator.Base.{
  All, Bool, Bool-cases, List, String, [], arith, false, if◌then◌else◌, inl, inr, ltb, map, negsuc,
  none, not, pos, refl, some, str_eq, str_eq_iff, subst, true, ℕ, ℤ, ◌++s◌, ◌++◌, ◌+◌, ◌||◌, ◌∷◌,
  ◌≡◌,
}
use helm_operator.Api.{end}
use helm_operator.Effects.{ok}
use helm_operator.Helm.{Release, HistoryOptions, status_string}
use helm_operator.HelmV3.{
  Library, RestConfig, Entry, Repo, Configuration, Storage, Walked, history, new_action_config,
  new_storage_driver, files_to_generic_files, precedes_file, to_file, garbage_collect,
  pull_with_repo_url, load_repository_config, find_entry,
}
use helm_operator.HelmV3.Sorting.{IsLinear, files_to_generic_files-perm, slice_stable-Permᴰ}
use helm_operator.HelmV3.Histories.{Reverses, AreNewest, history-AreNewest}
use helm_operator.HelmV3.Garbage.{Files, garbage_collect-kept}
use helm_operator.HelmV3.Indexes.{Cache, pull_with_repo_url-has_index}
use helm_operator.Tests.Helms.{entry, repo}
use helm_operator.Tests.Orders.{after_file, slice_stable-IsDescending, later, after_file-IsLinear}
use helm_operator.HelmV3.{slice_stable}
use helm_operator.HelmV3.Imports.{named}

abbrev compare_files : String × List ℕ → String × List ℕ → ℤ
compare_files x y = if after_file x y then pos 1 else negsuc 0

abbrev cached : String → ℕ → Walked
cached name mod_time = record {
  path = "repository/" ++s name;
  failed = false;
  is_dir = false;
  name = name;
  mod_time = mod_time;
}

-- `tick` is what a call does to the world.
abbrev library_of :
    {W : Type 0} → (W → W) → (W → Bool) → (String → W → W) → Library W ℕ String String
library_of tick missing remove = record {
  name = λ r. "web";
  namespace = λ r. "apps";
  chart = λ r. "web";
  last_deployed = λ r. r;
  description = λ r. "";
  status = λ r. "deployed";
  config = λ r. "";
  manifest = λ r. "";
  version = λ r. r;
  chart_name = λ c. c;
  metadata_version = λ c. some "1.0.0";
  app_version = λ c. "1";
  chart_values = λ c. end;
  templates = λ c. [];
  status_constant = status_string;
  compare = compare_files;
  yaml = λ v. ok v;
  as_map = λ v. end;
  read_values = λ s. ok s;
  kubernetes_client_set = λ flags w. (none, tick w);
  new_rollback = record {
    timeout = pos 0;
    version = 0;
    wait = false;
    disable_hooks = false;
    dry_run = false;
    recreate = false;
    force = false;
  };
  run_get = λ cfg version name w. (ok 1, tick w);
  run_status = λ cfg version name w. (ok 1, tick w);
  run_history = λ cfg max name w. (ok (1 ∷ 2 ∷ 3 ∷ []), tick w);
  reverse_by_revision = λ rs. slice_stable later rs;
  load = λ path w. (ok path, tick w);
  run_install = λ cfg action c vals w. (ok 1, tick w);
  run_upgrade = λ cfg action name c vals w. (ok 2, tick w);
  run_rollback = λ cfg action name w. (none, tick w);
  run_uninstall = λ cfg action name w. (none, tick w);
  run_test = λ cfg timeout name w. (none, tick w);
  update_dependencies = λ path w. (none, tick w);
  download_to = λ ref version dest w. (ok dest, tick w);
  url_equal = str_eq;
  find_chart_in_repo_url = λ url name version w. (ok "https://charts.example/web.tgz", tick w);
  index_missing = λ c w. (missing w, w);
  scheduled = λ cs. cs;
  scheduled_early = λ cs. [];
  now = λ w. 1000;
  walk = λ path w. cached "abc=-index.yaml" 100 ∷ cached "abd=-index.yaml" 900 ∷ [];
  remove = λ path w. (none, remove path w);
}

abbrev pub library : Library ℕ ℕ String String
library = library_of (λ w. w + 1) (λ w. not (ltb 0 w)) (λ path w. w + 1)

abbrev pub config : RestConfig
config = record { host = "https://10.0.0.1"; ca_file = ""; bearer_token = "" }

library_precedes-IsLinear : IsLinear (precedes_file library)
library_precedes-IsLinear = subst IsLinear (fun_ext λ x. fun_ext λ y. same x y) after_file-IsLinear
  where
    same : (x y : String × List ℕ) → after_file x y ≡ precedes_file library x y
    same x y = elim (Bool-cases (after_file x y)) [ inl e ↦ simp (e) refl | inr e ↦ simp (e) refl ]

abbrev service : String × List ℕ
service = ("service.yaml", 1 ∷ [])

abbrev deployment : String × List ℕ
deployment = ("deployment.yaml", 2 ∷ [])

files_to_generic_files-perm_example :
    (files_to_generic_files library (service ∷ deployment ∷ [])
      ≡ files_to_generic_files library (deployment ∷ service ∷ []))
    × Permᴰ
        (files_to_generic_files library (service ∷ deployment ∷ []))
        (map to_file (service ∷ deployment ∷ []))
files_to_generic_files-perm_example =
    files_to_generic_files-perm library (service ∷ deployment ∷ []) (deployment ∷ service ∷ [])
      library_precedes-IsLinear (Permᴰ.swap refl refl)

library-Reverses : Reverses library
library-Reverses = record {
  descending = slice_stable-IsDescending;
  permutes = slice_stable-Permᴰ later;
}

abbrev apps_config : Configuration
apps_config = record {
  flags = record {
    namespace = "apps";
    api_server = "https://10.0.0.1";
    ca_file = "";
    bearer_token = "";
  };
  releases = Storage.secrets "apps";
}

abbrev last_two : HistoryOptions
last_two = record { namespace = "apps"; max = pos 2 }

history-AreNewest_example :
    (rels : List Release) × ((history library config "web" last_two 0 ≡ (ok rels, 2))
      × AreNewest library config (1 ∷ 2 ∷ 3 ∷ []) (pos 2) rels)
unfolding new_action_config new_storage_driver
history-AreNewest_example =
    history-AreNewest library config "web" last_two 0 1 2 apps_config (1 ∷ 2 ∷ 3 ∷ [])
      library-Reverses refl refl

-- The world is the files that have been removed.
abbrev removed_in : String → List String → Bool
removed_in p [] = false
removed_in p (q ∷ qs) = str_eq p q || removed_in p qs

abbrev removing : Library (List String) ℕ String String
removing = library_of (λ w. w) (λ w. false) (λ path w. path ∷ w)

abbrev no_repo : Repo (List String) (List Entry)
no_repo = record {
  load_file = λ path w. (([], none), w);
  write_file = λ path f w. (none, w);
  is_not_exist = λ e. false;
  repositories = λ f. f;
  has = named;
  add = λ e f. f ++ (e ∷ []);
  remove = λ n f. f;
  new_chart_repository = λ e. none;
  download_index_file = λ e w. (none, w);
}

removing-Files : Files removing
removing-Files = record {
  present = λ p w. not (removed_in p w);
  kept = λ p q w h. ground (arith, str_eq_iff p q);
}

garbage_collect-kept_example :
    not (
      removed_in "repository/abd=-index.yaml"
        (garbage_collect removing no_repo "repository" 300 []))
    ≡ not (removed_in "repository/abd=-index.yaml" [])
unfolding removing-Files
garbage_collect-kept_example =
    garbage_collect-kept removing no_repo removing-Files "repository/abd=-index.yaml" "repository"
      300 []
      (
        (λ e.
            absurd (
              ground
                (arith, str_eq_iff "repository/abd=-index.yaml" "repository/abc=-index.yaml"))),
        ((λ e. inr (inr (omega arith))), tt),
      )

-- The world is positive once an index has been downloaded.
cache : Cache library repo
cache = record {
  has_index = λ c w. ltb 0 w;
  missing = λ c w. refl;
  kept = λ c d w h. ground arith;
  reached = λ c w. ground arith;
}

pull_with_repo_url-has_index_example :
    (w : ℕ) × ((pull_with_repo_url library repo "https://other.example" "web" "1.0.0" "/tmp" 0
        ≡ library.download_to "https://charts.example/web.tgz" "1.0.0" "/tmp" w)
      × All (λ c. ltb 0 w ≡ true) (entry "stable" ∷ []))
unfolding load_repository_config find_entry cache
pull_with_repo_url-has_index_example =
    pull_with_repo_url-has_index library repo cache "https://other.example" "web" "1.0.0" "/tmp"
      "https://charts.example/web.tgz" (entry "stable" ∷ []) 0 0 1 refl refl refl (refl, tt)
      (Permᴰ.refl (entry "stable" ∷ []))
