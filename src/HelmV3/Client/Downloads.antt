-- ===== src/HelmV3/Client/Downloads.antt =====
-- Charts, indexes and the cache (pkg/helm/v3: pull.go, chart.go, dependency.go, and `RepositoryIndex`
-- of repository.go). Goroutines that the code waits for run one after the other, in an order that is
-- a parameter: each looks at an index file of its own and downloads it.
use helm_operator.Base.{
  Bool, List, Option, String, [], if◌then◌else◌, ltb, none, not, some, str_eq, ℕ, ◌&&◌, ◌++s◌, ◌-◌,
  ◌||◌, ◌∷◌,
}
use helm_operator.Errors.{Error, wrapped}
use helm_operator.Effects.{ok, err, Result, Call, Outcome, M, panicked, returned}
use helm_operator.HelmV3.Repositories.{Entry, Repo, load_repository_config, index_of}
use helm_operator.HelmV3.Calls.{Library, Walked}
use helm_operator.HelmV3.Client.Actions.{and_check}

abbrev pub repository_cache : String
repository_cache = "repository"

-- `strings.HasSuffix(s, t)`
unfoldable pub is_suffix : String → String → Bool
is_suffix String.[] t = str_eq "" t
is_suffix (String.◌∷◌ c s) t = str_eq (String.◌∷◌ c s) t || is_suffix s t

-- The anonymous files of the cache that `garbageCollect` removes.
unfoldable pub is_anonymous : String → Bool
unfolding is_suffix
is_anonymous name = is_suffix name "=-index.yaml" || is_suffix name "=-charts.txt"

unfoldable pub is_garbage : ℕ → ℕ → Walked → Bool
is_garbage now older_than f =
    not f.failed && (not f.is_dir && (is_anonymous f.name && ltb older_than (now - f.mod_time)))

module _ {W R C V F : Type 0} (lib : Library W R C V) (repo : Repo W F) where
  -- `Pull`
  unfoldable pub pull : String → String → String → Call W (Result String)
  pull ref version dest = lib.download_to ref version dest

  abbrev pub next_started :
      Entry → Option Error → List Entry × Option Error → List Entry × Option Error
  next_started c (some e) rest = ([], some e)
  next_started c none (cs, e) = (c ∷ cs, e)

  -- The entries whose goroutines are started, and the error that ends the loop.
  unfoldable pub started : List Entry → List Entry × Option Error
  started [] = ([], none)
  started (c ∷ cs) = next_started c (repo.new_chart_repository c) (started cs)

  -- One goroutine for each entry.
  unfoldable pub run_each : (Entry → W → W) → List Entry → W → W
  run_each body [] w = w
  run_each body (c ∷ cs) w = run_each body cs (body c w)

  abbrev pub spawned : (Entry → W → W) → List Entry × Option Error → W → Option Error × W
  spawned body (cs, some e) w = (some e, run_each body (lib.scheduled_early cs) w)
  spawned body (cs, none) w = (none, run_each body (lib.scheduled cs) w)

  -- A download whose result is dropped, of an index, and of one that is missing.
  abbrev pub download : Entry → W → W
  download c w = (repo.download_index_file c w).1

  abbrev pub download_missing : Entry → W → W
  download_missing c w =
      let (missing, w₁) = lib.index_missing c w in if missing then download c w₁ else w₁

  -- `downloadMissingRepositoryIndexes`
  unfoldable pub download_missing_repository_indexes : List Entry → Call W (Option Error)
  unfolding started run_each
  download_missing_repository_indexes cs w = spawned download_missing (started cs) w

  -- `RepositoryIndex`
  unfoldable pub repository_index : Call W (Option Error)
  unfolding started run_each
  repository_index w =
      and_check (load_repository_config repo w)
        (λ f v. spawned download (started (repo.repositories f)) v)

  -- The first entry with the URL.
  unfoldable pub find_entry : String → List Entry → Option Entry
  find_entry url [] = none
  find_entry url (c ∷ cs) = if lib.url_equal url c.url then some c else find_entry url cs

  abbrev pub pull_after : String → String → String → Option Error × W → Result String × W
  pull_after ref version dest (some e, w) = (err e, w)
  pull_after ref version dest (none, w) = pull ref version dest w

  abbrev pub pull_resolved : List Entry → String → String → Result String × W → Result String × W
  pull_resolved cs version dest (err e, w) = (err e, w)
  pull_resolved cs version dest (ok ref, w) =
      pull_after ref version dest (download_missing_repository_indexes cs w)

  abbrev pub pull_from :
      List Entry → String → String → String → String → Option Entry → Call W (Result String)
  pull_from cs url name version dest (some c) w =
      pull (c.name ++s ("/" ++s name)) version dest (index_of repo c w).1
  pull_from cs url name version dest none w =
      pull_resolved cs version dest (lib.find_chart_in_repo_url url name version w)

  abbrev pub pull_known : String → String → String → String → Result F × W → Result String × W
  pull_known url name version dest (err e, w) = (err e, w)
  pull_known url name version dest (ok f, w) =
      let cs = repo.repositories f in pull_from cs url name version dest (find_entry url cs) w

  -- `PullWithRepoURL`
  unfoldable pub pull_with_repo_url : String → String → String → String → Call W (Result String)
  unfolding pull find_entry download_missing_repository_indexes
  pull_with_repo_url url name version dest w =
      pull_known url name version dest (load_repository_config repo w)

  abbrev pub after_remove : Option Error × W → (W → W) → W
  after_remove (some e, w) rest = w
  after_remove (none, w) rest = rest w

  -- The walk over the files ends at the first that cannot be removed.
  unfoldable pub collect : ℕ → ℕ → List Walked → W → W
  collect now older_than [] w = w
  collect now older_than (f ∷ fs) w =
      after_remove (if is_garbage now older_than f then lib.remove f.path w else (none, w))
        (collect now older_than fs)

  -- `garbageCollect`
  unfoldable pub garbage_collect : String → ℕ → W → W
  garbage_collect path older_than w = collect (lib.now w) older_than (lib.walk path w) w

  -- `DependencyUpdate`, with an offset of 300 seconds in nanoseconds
  unfoldable pub dependency_update : String → Call W (Option Error)
  unfolding garbage_collect
  dependency_update chart_path w =
      lib.update_dependencies chart_path (garbage_collect repository_cache 300000000000 w)

  abbrev pub revision_of : Result C × W → Outcome (Result String) × W
  revision_of (err e, w) =
      (returned (err (wrapped "failed to load chart to determine revision" e)), w)
  revision_of (ok c, w) = elim (lib.metadata_version c) [
    | none ↦ (panicked, w)
    | some v ↦ (returned (ok v), w)
  ]

  -- `GetChartRevision`
  unfoldable pub get_chart_revision : String → M W (Result String)
  get_chart_revision chart_path w = revision_of (lib.load chart_path w)
