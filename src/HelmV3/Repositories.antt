-- ===== src/HelmV3/Repositories.antt =====
-- The file of repositories (pkg/helm/v3/repository.go). The file and the download of an index are of
-- other code, and parameters; the lock is left out, as a step here is one critical section.
use helm_operator.Base.{Bool, List, Option, String, [], if◌then◌else◌, none, some, ◌∷◌}
use helm_operator.Errors.{Error, plain}
use helm_operator.Effects.{Result, ok, err, Call}

pub record Entry : Type 0 where
  pub name : String
  pub url : String
  pub username : String
  pub password : String
  pub cert_file : String
  pub key_file : String
  pub ca_file : String

-- The package `repo` of Helm; `F` is its `File`, and `is_not_exist` looks at the cause of an error.
pub record Repo (W F : Type 0) : Type 0 where
  pub load_file : String → Call W (F × Option Error)
  pub write_file : String → F → Call W (Option Error)
  pub is_not_exist : Error → Bool
  pub repositories : F → List Entry
  pub has : String → F → Bool
  pub add : Entry → F → F
  pub remove : String → F → F
  pub new_chart_repository : Entry → Option Error
  pub download_index_file : Entry → Call W (Option Error)

abbrev pub repository_config : String
repository_config = "repositories.yaml"

module _ {W F : Type 0} (repo : Repo W F) where
  abbrev pub loaded : F × Option Error → Result F
  loaded (f, none) = ok f
  loaded (f, some e) = if repo.is_not_exist e then ok f else err e

  -- `loadRepositoryConfig`
  unfoldable pub load_repository_config : Call W (Result F)
  load_repository_config w = let (r, w₁) = repo.load_file repository_config w in (loaded r, w₁)

  -- A repository whose index can be downloaded.
  abbrev pub index_of : Entry → Call W (Option Error)
  index_of c w = elim (repo.new_chart_repository c) [
    | some e ↦ (some e, w)
    | none ↦ repo.download_index_file c w
  ]

  abbrev pub write_if : F → Option Error × W → Option Error × W
  write_if f (some e, w) = (some e, w)
  write_if f (none, w) = repo.write_file repository_config f w

  abbrev pub add_to : Entry → Result F × W → Option Error × W
  add_to c (err e, w) = (some e, w)
  add_to c (ok f, w) =
      let f' = repo.add c f in
      if repo.has c.name f'
      then (some (plain "chart repository with name '%s' already exists"), w)
      else write_if f' (index_of c w)

  -- `RepositoryAdd`
  unfoldable pub repository_add : Entry → Call W (Option Error)
  repository_add c w = add_to c (load_repository_config w)

  abbrev pub remove_from : String → (F × Option Error) × W → Option Error × W
  remove_from name ((_, some e), w) = (some e, w)
  remove_from name ((f, none), w) = repo.write_file repository_config (repo.remove name f) w

  -- `RepositoryRemove`
  unfoldable pub repository_remove : String → Call W (Option Error)
  repository_remove name w = remove_from name (repo.load_file repository_config w)

  abbrev pub add_indexed : Entry → F → Option Error × W → F × W
  add_indexed c t (some e, w) = (t, w)
  add_indexed c t (none, w) = (repo.add c t, w)

  -- The loop over the entries that are imported.
  unfoldable pub import_all : List Entry → F → Call W F
  import_all [] t w = (t, w)
  import_all (c ∷ cs) t w =
      let next = (if repo.has c.name t then (t, w) else add_indexed c t (index_of c w)) in
      import_all cs next.0 next.1

  abbrev pub import_into : List Entry → Result F × W → Option Error × W
  import_into cs (err e, w) = (some e, w)
  import_into cs (ok t, w) =
      let (t', w₁) = import_all cs t w in repo.write_file repository_config t' w₁

  abbrev pub import_from : (F × Option Error) × W → Option Error × W
  import_from ((_, some e), w) = (some e, w)
  import_from ((s, none), w) = import_into (repo.repositories s) (load_repository_config w)

  -- `RepositoryImport`
  unfoldable pub repository_import : String → Call W (Option Error)
  repository_import path w = import_from (repo.load_file path w)
