-- ===== src/HelmV3/Garbage.antt =====
-- The files of the cache that a garbage collection keeps (pkg/helm/v3/dependency.go).
use text.Mathlib.TextLemmas.{cons-append, nil-append}
use helm_operator.Base.{
  All, Bool, List, Option, String, [], arith, false, if◌then◌else◌, none, refl, some, true, ℕ, ◌-◌,
  ◌∙◌, ◌∷◌, ◌≡◌, ◌≢◌, ◌≤◌, ◌⊎◌, ◌++s◌, Bool-cases, inl, sym, inr, str_eq_iff, str_eq, ap,
}
use helm_operator.Errors.{Error}
use helm_operator.HelmV3.Calls.{Library, Walked}
use helm_operator.HelmV3.Repositories.{Repo}
use helm_operator.HelmV3.Client.{
  is_anonymous, is_garbage, collect, garbage_collect, after_remove, is_suffix,
}

-- A text that ends in another.
abbrev pub EndsIn : String → String → Type 0
EndsIn ending name = (stem : String) × (stem ++s ending ≡ name)

-- The names of the indexes and lists of charts of repositories that have no name.
abbrev pub IsAnonymous : String → Type 0
IsAnonymous name = EndsIn "=-index.yaml" name ⊎ EndsIn "=-charts.txt" name

-- A file that is in use: a directory, one with another name, or one that is not older.
abbrev pub InUse : ℕ → ℕ → Walked → Type 0
InUse now older_than f =
    (f.is_dir ≡ true) ⊎ ((¬ IsAnonymous f.name) ⊎ (now - f.mod_time ≤ older_than))

is_suffix-EndsIn : (name ending : String) → is_suffix name ending ≡ true → EndsIn ending name
unfolding is_suffix
is_suffix-EndsIn String.[] t h = ("", nil-append t ∙ sym ((str_eq_iff "" t).0 h))
is_suffix-EndsIn (String.◌∷◌ c s) t h = elim (Bool-cases (str_eq (String.◌∷◌ c s) t)) [
  | inl e ↦ ("", nil-append t ∙ sym ((str_eq_iff (String.◌∷◌ c s) t).0 e))
  | inr e ↦
      let (stem, g) = is_suffix-EndsIn s t (ground arith) in
      (String.◌∷◌ c stem, cons-append c stem t ∙ ap (String.◌∷◌ c) g)
]

is_anonymous-IsAnonymous : (name : String) → is_anonymous name ≡ true → IsAnonymous name
unfolding is_anonymous
is_anonymous-IsAnonymous name h = elim (Bool-cases (is_suffix name "=-index.yaml")) [
  | inl e ↦ inl (is_suffix-EndsIn name "=-index.yaml" e)
  | inr e ↦ inr (is_suffix-EndsIn name "=-charts.txt" (ground arith))
]

InUse-garbage :
    (now older_than : ℕ) (f : Walked) → InUse now older_than f → is_garbage now older_than f ≡ false
unfolding is_garbage
InUse-garbage now older_than f (inl d) = ground arith
InUse-garbage now older_than f (inr (inl n)) = elim (Bool-cases (is_anonymous f.name)) [
  | inl e ↦ absurd (n (is_anonymous-IsAnonymous f.name e))
  | inr e ↦ ground arith
]
InUse-garbage now older_than f (inr (inr t)) = ground arith

-- Where a file is, and that removing one leaves the others there.
pub record Files {W R C V : Type 0} (lib : Library W R C V) : Type 0 where
  pub present : String → W → Bool
  pub kept : (p q : String) (w : W) → p ≢ q → present p (lib.remove q w).1 ≡ present p w

module _ {W R C V F : Type 0} (lib : Library W R C V) (repo : Repo W F) (files : Files lib)
    (path : String) where
  after-kept :
      (x : Option Error × W) (rest : W → W)
      → ((v : W) → files.present path (rest v) ≡ files.present path v)
      → files.present path (after_remove lib repo x rest) ≡ files.present path x.1
  after-kept (some e, w) rest r = refl
  after-kept (none, w) rest r = r w

  removed-kept :
      (b : Bool) (q : String) (w : W) (rest : W → W)
      → (path ≡ q → b ≡ false)
      → ((v : W) → files.present path (rest v) ≡ files.present path v)
      → files.present path (after_remove lib repo (if b then lib.remove q w else (none, w)) rest)
        ≡ files.present path w
  removed-kept true q w rest n r =
      after-kept (lib.remove q w) rest r ∙ files.kept path q w (λ e. let t = n e in cc)
  removed-kept false q w rest n r = r w

  collect-kept :
      (now older_than : ℕ) (fs : List Walked) (w : W)
      → All (λ f. path ≡ f.path → InUse now older_than f) fs
      → files.present path (collect lib repo now older_than fs w) ≡ files.present path w
  unfolding collect
  collect-kept now older_than [] w u = refl
  collect-kept now older_than (f ∷ fs) w (u, us) =
      removed-kept (is_garbage now older_than f) f.path w (collect lib repo now older_than fs)
        (λ e. InUse-garbage now older_than f (u e)) (λ v. collect-kept now older_than fs v us)

  -- A garbage collection keeps each file of the cache that is in use: a directory, a file whose name
  -- does not end in that of an anonymous index or list of charts, and one that is not older than the
  -- given duration.
  pub garbage_collect-kept :
      (cache : String) (older_than : ℕ) (w : W)
      → All (λ f. path ≡ f.path → InUse (lib.now w) older_than f) (lib.walk cache w)
      → files.present path (garbage_collect lib repo cache older_than w) ≡ files.present path w
  unfolding garbage_collect
  garbage_collect-kept cache older_than w u =
      collect-kept (lib.now w) older_than (lib.walk cache w) w u
