-- ===== src/HelmV3/Sorting.antt =====
-- The order of a chart's files (`filesToGenericFiles`, pkg/helm/v3/release.go).
use mathlib.Core.List.Permᴰ
use mathlib.Core.List.{Permᴰ}
use helm_operator.Base.{
  Bool, Bool-cases, List, String, [], ap, arith, false, inl, inr, map, refl, subst, true, ℕ, ◌∙◌,
  ◌∷◌, ◌≡◌,
}
use helm_operator.HelmV3.Calls.{Library}
use helm_operator.HelmV3.Client.{
  insert_sorted, slice_stable, files_to_generic_files, to_file, precedes_file,
}

-- A strict order in which two elements that do not precede each other are equal.
pub record IsLinear {A : Type 0} (precedes : A → A → Bool) : Type 0 where
  pub asym : (x y : A) → precedes x y ≡ true → precedes y x ≡ false
  pub through : (x y z : A) → precedes x y ≡ true → precedes y z ≡ true → precedes x z ≡ true
  pub same : (x y : A) → precedes x y ≡ false → precedes y x ≡ false → x ≡ y

module _ {A : Type 0} (precedes : A → A → Bool) (linear : IsLinear precedes) where
  -- What stands before something that follows `z`, where `z` does not stand before it.
  before : (z x y : A) → precedes z x ≡ true → precedes z y ≡ false → precedes y x ≡ true
  before z x y h k = elim (Bool-cases (precedes y z)) [
    | inl e ↦ linear.through y z x e h
    | inr e ↦ subst (λ u. precedes u x ≡ true) (linear.same z y k e) h
  ]

  insert_swap :
      (x y : A) (l : List A)
      → insert_sorted precedes x (insert_sorted precedes y l)
        ≡ insert_sorted precedes y (insert_sorted precedes x l)
  unfolding insert_sorted
  insert_swap x y [] = ground (arith, linear.asym x y, linear.same x y)
  insert_swap x y (z ∷ l) = ground (
    arith,
    insert_swap x y l,
    linear.asym x y,
    linear.same x y,
    before z x y,
    before z y x,
    linear.asym z x,
    linear.asym z y,
  )

  -- The sorted list does not depend on the order of the elements.
  slice_stable-perm :
      {xs ys : List A} → Permᴰ xs ys → slice_stable precedes xs ≡ slice_stable precedes ys
  unfolding slice_stable
  slice_stable-perm Permᴰ.nil = refl
  slice_stable-perm (Permᴰ.cons e p) = cc (slice_stable-perm p)
  slice_stable-perm (Permᴰ.swap {a = a} {b = b} {l = l} d e) =
      cc (insert_swap a b (slice_stable precedes l))
  slice_stable-perm (Permᴰ.trans p q) = slice_stable-perm p ∙ slice_stable-perm q

module _ {A : Type 0} (precedes : A → A → Bool) where
  insert_sorted-Permᴰ : (x : A) (l : List A) → Permᴰ (insert_sorted precedes x l) (x ∷ l)
  unfolding insert_sorted
  insert_sorted-Permᴰ x [] = Permᴰ.refl (x ∷ [])
  insert_sorted-Permᴰ x (y ∷ ys) = elim (Bool-cases (precedes y x)) [
    | inl e ↦ rw e (Permᴰ.trans (Permᴰ.cons refl (insert_sorted-Permᴰ x ys)) (Permᴰ.swap refl refl))
    | inr e ↦ rw e (Permᴰ.refl (x ∷ y ∷ ys))
  ]

  pub slice_stable-Permᴰ : (l : List A) → Permᴰ (slice_stable precedes l) l
  unfolding slice_stable
  slice_stable-Permᴰ [] = Permᴰ.nil
  slice_stable-Permᴰ (x ∷ xs) =
      Permᴰ.trans (insert_sorted-Permᴰ x (slice_stable precedes xs))
        (Permᴰ.cons refl (slice_stable-Permᴰ xs))

pub map-Permᴰ :
    {A B : Type 0} (f : A → B) {xs ys : List A} → Permᴰ xs ys → Permᴰ (map f xs) (map f ys)
map-Permᴰ f Permᴰ.nil = Permᴰ.nil
map-Permᴰ f (Permᴰ.cons e p) = Permᴰ.cons (ap f e) (map-Permᴰ f p)
map-Permᴰ f (Permᴰ.swap d e) = Permᴰ.swap (ap f d) (ap f e)
map-Permᴰ f (Permᴰ.trans p q) = Permᴰ.trans (map-Permᴰ f p) (map-Permᴰ f q)

module _ {W R C V : Type 0} (lib : Library W R C V) where
  -- The files of a generic chart do not depend on the order in which the chart lists them: they are
  -- its files, each as often as there, in one order.
  pub files_to_generic_files-perm :
      (fs gs : List (String × List ℕ))
      → IsLinear (precedes_file lib)
      → Permᴰ fs gs
      → (files_to_generic_files lib fs ≡ files_to_generic_files lib gs)
        × Permᴰ (files_to_generic_files lib fs) (map to_file fs)
  unfolding files_to_generic_files
  files_to_generic_files-perm fs gs linear p = (
    ap (map to_file) (slice_stable-perm (precedes_file lib) linear p),
    map-Permᴰ to_file (slice_stable-Permᴰ (precedes_file lib) fs),
  )
