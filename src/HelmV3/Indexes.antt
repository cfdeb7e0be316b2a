-- ===== src/HelmV3/Indexes.antt =====
-- The indexes that are there when a chart is pulled from a URL (pkg/helm/v3/pull.go).
use mathlib.Core.List.{Permᴰ}
use helm_operator.Base.{
  All, Bool, List, String, [], ap, false, if◌then◌else◌, none, not, refl, subst, true, ◌∙◌, ◌∷◌,
  ◌≡◌,
}
use helm_operator.Effects.{ok}
use helm_operator.HelmV3.Calls.{Library}
use helm_operator.HelmV3.Repositories.{Repo, Entry, load_repository_config}
use helm_operator.HelmV3.Client.{
  started, run_each, download, download_missing, download_missing_repository_indexes, find_entry,
  pull_with_repo_url, pull, pull_from, pull_resolved, pull_known, pull_after, spawned,
}

All-Permᴰ : {A : Type 0} (P : A → Type 0) {xs ys : List A} → Permᴰ xs ys → All P xs → All P ys
All-Permᴰ P Permᴰ.nil a = tt
All-Permᴰ P (Permᴰ.cons e p) (a, as') = (subst P e a, All-Permᴰ P p as')
All-Permᴰ P (Permᴰ.swap d e) (a, (b, rest)) = (subst P e b, (subst P d a, rest))
All-Permᴰ P (Permᴰ.trans p q) a = All-Permᴰ P q (All-Permᴰ P p a)

-- Where an index is in the cache: it is missing where it is not there, a download removes none, and
-- that of a repository that can be reached puts its index there.
pub record Cache {W R C V F : Type 0} (lib : Library W R C V) (repo : Repo W F) : Type 0 where
  pub has_index : Entry → W → Bool
  pub missing : (c : Entry) (w : W) → lib.index_missing c w ≡ (not (has_index c w), w)
  pub kept :
      (c d : Entry) (w : W)
      → has_index d w ≡ true
      → has_index d (repo.download_index_file c w).1 ≡ true
  pub reached : (c : Entry) (w : W) → has_index c (repo.download_index_file c w).1 ≡ true

module _ {W R C V F : Type 0} (lib : Library W R C V) (repo : Repo W F)
    (cache : Cache lib repo) where
  missing-kept :
      (c d : Entry) (w : W)
      → cache.has_index d w ≡ true
      → cache.has_index d (download_missing lib repo c w) ≡ true
  missing-kept c d w h = rw (cache.missing c w) (either (cache.has_index c w))
    where
      either : (b : Bool) → cache.has_index d (if not b then download lib repo c w else w) ≡ true
      either true = h
      either false = cache.kept c d w h

  missing-has : (c : Entry) (w : W) → cache.has_index c (download_missing lib repo c w) ≡ true
  missing-has c w = rw (cache.missing c w) (either (cache.has_index c w) refl)
    where
      either :
          (b : Bool)
          → cache.has_index c w ≡ b
          → cache.has_index c (if not b then download lib repo c w else w) ≡ true
      either true h = h
      either false h = cache.reached c w

  run_each-kept :
      (cs : List Entry) (d : Entry) (w : W)
      → cache.has_index d w ≡ true
      → cache.has_index d (run_each lib repo (download_missing lib repo) cs w) ≡ true
  unfolding run_each
  run_each-kept [] d w h = h
  run_each-kept (c ∷ cs) d w h =
      run_each-kept cs d (download_missing lib repo c w) (missing-kept c d w h)

  run_each-has :
      (cs : List Entry) (w : W)
      → All (λ d. cache.has_index d (run_each lib repo (download_missing lib repo) cs w) ≡ true) cs
  unfolding run_each
  run_each-has [] w = tt
  run_each-has (c ∷ cs) w = (
    run_each-kept cs c (download_missing lib repo c w) (missing-has c w),
    run_each-has cs (download_missing lib repo c w),
  )

  started-All :
      (cs : List Entry)
      → All (λ c. repo.new_chart_repository c ≡ none) cs
      → started lib repo cs ≡ (cs, none)
  unfolding started
  started-All [] a = refl
  started-All (c ∷ cs) (a, as') = rw (a, started-All cs as') refl

  -- Where a chart is pulled from a URL that is not among the repositories, every repository has its
  -- index in the cache by then, in whatever order the goroutines run that look for them: each can be
  -- set up and be reached.
  pub pull_with_repo_url-has_index :
      (url name version dest ref : String) (f : F) (w w₁ w₂ : W)
      → load_repository_config repo w ≡ (ok f, w₁)
      → find_entry lib repo url (repo.repositories f) ≡ none
      → lib.find_chart_in_repo_url url name version w₁ ≡ (ok ref, w₂)
      → All (λ c. repo.new_chart_repository c ≡ none) (repo.repositories f)
      → Permᴰ (lib.scheduled (repo.repositories f)) (repo.repositories f)
      → (w₃ : W) × ((pull_with_repo_url lib repo url name version dest w
            ≡ lib.download_to ref version dest w₃)
          × All (λ c. cache.has_index c w₃ ≡ true) (repo.repositories f))
  unfolding pull_with_repo_url download_missing_repository_indexes pull
  pull_with_repo_url-has_index url name version dest ref f w w₁ w₂ l n r s p = (
    w₃,
    (
      ap (pull_known lib repo url name version dest) l
          ∙ ap (λ o. pull_from lib repo cs url name version dest o w₁) n
          ∙ ap (pull_resolved lib repo cs version dest) r
          ∙ ap
              (λ x.
                pull_after lib repo ref version dest
                  (spawned lib repo (download_missing lib repo) x w₂))
              (started-All cs s),
      All-Permᴰ (λ c. cache.has_index c w₃ ≡ true) p (run_each-has (lib.scheduled cs) w₂),
    ),
  )
    where
      cs : List Entry
      cs = repo.repositories f

      w₃ : W
      w₃ = run_each lib repo (download_missing lib repo) (lib.scheduled cs) w₂
