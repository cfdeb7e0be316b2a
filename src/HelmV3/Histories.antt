-- ===== src/HelmV3/Histories.antt =====
-- The history of a release (pkg/helm/v3/history.go).
use mathlib.Core.List.{Permᴰ}
use helm_operator.Base.{
  All, List, String, [], ap, arith, drop, if◌then◌else◌, length, ltb, map, pos_part, refl, subst,
  suc, sym, take, zero, ℕ, ℤ, ◌++◌, ◌∙◌, ◌∷◌, ◌≡◌, ◌≤◌,
}
use helm_operator.Effects.{ok, Result}
use helm_operator.Helm.{Release, HistoryOptions}
use helm_operator.HelmV3.Calls.{Library, RestConfig, Configuration}
use helm_operator.HelmV3.Client.{
  history, newest, new_action_config, release_to_generic_release, and_then,
}
use helm_operator.HelmV3.Sorting.{map-Permᴰ}

abbrev pub min : ℕ → ℕ → ℕ
min a b = if ltb a b then a else b

module _ {A : Type 0} (version : A → ℕ) where
  -- No element is newer than one before it.
  abbrev pub IsDescending : List A → Type 0
  IsDescending [] = Unit
  IsDescending (x ∷ xs) = All (λ y. version y ≤ version x) xs × IsDescending xs

-- What `releaseutil.Reverse` does with an order by revision.
pub record Reverses {W R C V : Type 0} (lib : Library W R C V) : Type 0 where
  pub descending : (rs : List R) → IsDescending lib.version (lib.reverse_by_revision rs)
  pub permutes : (rs : List R) → Permᴰ (lib.reverse_by_revision rs) rs

length-Permᴰ : {A : Type 0} {xs ys : List A} → Permᴰ xs ys → length xs ≡ length ys
length-Permᴰ Permᴰ.nil = refl
length-Permᴰ (Permᴰ.cons e p) = ap suc (length-Permᴰ p)
length-Permᴰ (Permᴰ.swap d e) = refl
length-Permᴰ (Permᴰ.trans p q) = length-Permᴰ p ∙ length-Permᴰ q

module _ {A : Type 0} where
  take-append-drop : (n : ℕ) (xs : List A) → take n xs ++ drop n xs ≡ xs
  take-append-drop zero xs = refl
  take-append-drop (suc n) [] = refl
  take-append-drop (suc n) (x ∷ xs) = ap (◌∷◌ x) (take-append-drop n xs)

  length-take : (n : ℕ) (xs : List A) → length (take n xs) ≡ min (length xs) n
  length-take zero xs = ground arith
  length-take (suc n) [] = ground arith
  length-take (suc n) (x ∷ xs) = ground (arith, length-take n xs)

module _ {A B : Type 0} (f : A → B) where
  map-append : (xs ys : List A) → map f (xs ++ ys) ≡ map f xs ++ map f ys
  map-append [] ys = refl
  map-append (x ∷ xs) ys = ap (◌∷◌ (f x)) (map-append xs ys)

  length-map : (xs : List A) → length (map f xs) ≡ length xs
  length-map [] = refl
  length-map (x ∷ xs) = ap suc (length-map xs)

  map-IsDescending :
      (va : A → ℕ) (vb : B → ℕ)
      → ((x : A) → vb (f x) ≡ va x)
      → (xs : List A) → IsDescending va xs
      → IsDescending vb (map f xs)
  map-IsDescending va vb h [] d = tt
  map-IsDescending va vb h (x ∷ xs) (a, d) = (above xs a, map-IsDescending va vb h xs d)
    where
      above : (ys : List A) → All (λ y. va y ≤ va x) ys → All (λ y. vb y ≤ vb (f x)) (map f ys)
      above [] a = tt
      above (y ∷ ys) (a, as') = (omega (arith, h x, h y), above ys as')

module _ {W R C V : Type 0} (lib : Library W R C V) (config : RestConfig) where
  -- The newest of the releases, as many as there may be.
  abbrev pub AreNewest : List R → ℤ → List Release → Type 0
  AreNewest hist max rels =
      (length rels ≡ min (length hist) (pos_part max))
      × ((older : List Release) × (Permᴰ (rels ++ older) (map (release_to_generic_release lib) hist)
            × IsDescending (λ r. r.version) (rels ++ older)))

  newest-AreNewest :
      (max : ℤ) (hist : List R) → Reverses lib → AreNewest hist max (newest lib config max hist)
  unfolding release_to_generic_release
  newest-AreNewest max hist reverses = (
    length-map generic (take n sorted)
        ∙ length-take n sorted
        ∙ ap (λ k. min k n) (length-Permᴰ (reverses.permutes hist)),
    (
      map generic (drop n sorted),
      (
        subst (λ rs. Permᴰ rs (map generic hist)) (sym whole)
            (map-Permᴰ generic (reverses.permutes hist)),
        subst (IsDescending (λ r. r.version)) (sym whole) (
            map-IsDescending generic lib.version (λ r. r.version) (λ r. refl) sorted
              (reverses.descending hist)),
      ),
    ),
  )
    where
      n : ℕ
      n = pos_part max

      generic : R → Release
      generic = release_to_generic_release lib

      sorted : List R
      sorted = lib.reverse_by_revision hist

      whole : map generic (take n sorted) ++ map generic (drop n sorted) ≡ map generic sorted
      whole =
          sym (map-append generic (take n sorted) (drop n sorted))
          ∙ ap (map generic) (take-append-drop n sorted)

  -- The history of a release is the releases that Helm has of it, the newest first, cut to the
  -- maximum: those that are cut are no newer. Where the maximum is negative there are none.
  pub history-AreNewest :
      (name : String) (opts : HistoryOptions) (w w₁ w₂ : W) (cfg : Configuration) (hist : List R)
      → Reverses lib
      → new_action_config lib config opts.namespace "" w ≡ (ok cfg, w₁)
      → lib.run_history cfg opts.max name w₁ ≡ (ok hist, w₂)
      → (rels : List Release) × ((history lib config name opts w ≡ (ok rels, w₂))
          × AreNewest hist opts.max rels)
  unfolding history
  history-AreNewest name opts w w₁ w₂ cfg hist reverses c h =
      (newest lib config opts.max hist, (answered, newest-AreNewest opts.max hist reverses))
    where
      listed : Result (List R) × W → Result (List Release) × W
      listed x = and_then x (λ rs u. (ok (newest lib config opts.max rs), u))

      answered : history lib config name opts w ≡ (ok (newest lib config opts.max hist), w₂)
      answered =
          ap (λ x. and_then x (λ cfg' v. listed (lib.run_history cfg' opts.max name v))) c
          ∙ ap listed h
