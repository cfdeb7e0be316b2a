-- ===== src/Tests/Orders.antt =====
-- A linear order of files, by their names and then by their bytes, and a sort of numbers.
use Prim.Native.Char.{code}
use text.Mathlib.TextEquality.{Char-path}
use helm_operator.Base.{
  All, Bool, Bool-cases, List, String, [], arith, false, if◌then◌else◌, inl, inr, ltb, refl, str_eq,
  str_eq_iff, true, ℕ, ◌==◌, ◌∷◌, ◌≡◌, ◌≤◌,
}
use helm_operator.HelmV3.{slice_stable, insert_sorted}
use helm_operator.HelmV3.Sorting.{IsLinear}
use helm_operator.HelmV3.Histories.{IsDescending}

abbrev after_text : String → String → Bool
after_text String.[] t = false
after_text (String.◌∷◌ c s) String.[] = true
after_text (String.◌∷◌ c s) (String.◌∷◌ d t) =
    if code c == code d then after_text s t else ltb (code d) (code c)

abbrev after_bytes : List ℕ → List ℕ → Bool
after_bytes [] ys = false
after_bytes (x ∷ xs) [] = true
after_bytes (x ∷ xs) (y ∷ ys) = if x == y then after_bytes xs ys else ltb y x

abbrev pub after_file : String × List ℕ → String × List ℕ → Bool
after_file (s, xs) (t, ys) = if str_eq s t then after_bytes xs ys else after_text s t

after_text-asym : (s t : String) → after_text s t ≡ true → after_text t s ≡ false
after_text-asym String.[] t h = absurd cc
after_text-asym (String.◌∷◌ c s) String.[] h = refl
after_text-asym (String.◌∷◌ c s) (String.◌∷◌ d t) h = ground (arith, after_text-asym s t)

after_text-through :
    (s t u : String) → after_text s t ≡ true → after_text t u ≡ true → after_text s u ≡ true
after_text-through String.[] t u h k = absurd cc
after_text-through (String.◌∷◌ c s) String.[] u h k = absurd cc
after_text-through (String.◌∷◌ c s) (String.◌∷◌ d t) String.[] h k = refl
after_text-through (String.◌∷◌ c s) (String.◌∷◌ d t) (String.◌∷◌ e u) h k =
    ground (arith, after_text-through s t u)

after_text-same : (s t : String) → after_text s t ≡ false → after_text t s ≡ false → s ≡ t
after_text-same String.[] String.[] h k = refl
after_text-same String.[] (String.◌∷◌ d t) h k = absurd cc
after_text-same (String.◌∷◌ c s) String.[] h k = absurd cc
after_text-same (String.◌∷◌ c s) (String.◌∷◌ d t) h k =
    let e : code c ≡ code d = ground (arith) in
    let r : s ≡ t = ground (arith, after_text-same s t) in λ i. String.◌∷◌ (Char-path c d e i) (r i)

after_bytes-asym : (s t : List ℕ) → after_bytes s t ≡ true → after_bytes t s ≡ false
after_bytes-asym [] t h = absurd cc
after_bytes-asym (c ∷ s) [] h = refl
after_bytes-asym (c ∷ s) (d ∷ t) h = ground (arith, after_bytes-asym s t)

after_bytes-through :
    (s t u : List ℕ) → after_bytes s t ≡ true → after_bytes t u ≡ true → after_bytes s u ≡ true
after_bytes-through [] t u h k = absurd cc
after_bytes-through (c ∷ s) [] u h k = absurd cc
after_bytes-through (c ∷ s) (d ∷ t) [] h k = refl
after_bytes-through (c ∷ s) (d ∷ t) (e ∷ u) h k = ground (arith, after_bytes-through s t u)

after_bytes-same : (s t : List ℕ) → after_bytes s t ≡ false → after_bytes t s ≡ false → s ≡ t
after_bytes-same [] [] h k = refl
after_bytes-same [] (d ∷ t) h k = absurd cc
after_bytes-same (c ∷ s) [] h k = absurd cc
after_bytes-same (c ∷ s) (d ∷ t) h k = ground (arith, after_bytes-same s t)

after_file-same : (a b : String × List ℕ) → after_file a b ≡ false → after_file b a ≡ false → a ≡ b
after_file-same (s, xs) (t, ys) h k =
    ground (arith, str_eq_iff s t, str_eq_iff t s, after_text-same s t, after_bytes-same xs ys)

pub after_file-IsLinear : IsLinear after_file
after_file-IsLinear = record {
  asym = λ a b h. ground (
    arith,
    str_eq_iff a.0 b.0,
    str_eq_iff b.0 a.0,
    after_text-asym a.0 b.0,
    after_bytes-asym a.1 b.1,
  );
  through = λ a b c h k. ground (
    arith,
    str_eq_iff a.0 b.0,
    str_eq_iff b.0 c.0,
    str_eq_iff a.0 c.0,
    after_text-through a.0 b.0 c.0,
    after_bytes-through a.1 b.1 c.1,
    after_text-asym a.0 b.0,
  );
  same = after_file-same;
}

abbrev pub later : ℕ → ℕ → Bool
later x y = ltb y x

insert_sorted-below :
    (b x : ℕ) (ys : List ℕ)
    → x ≤ b
    → All (λ y. y ≤ b) ys
    → All (λ y. y ≤ b) (insert_sorted later x ys)
unfolding insert_sorted
insert_sorted-below b x [] h a = (h, tt)
insert_sorted-below b x (y ∷ ys) h (k, a) = elim (Bool-cases (later y x)) [
  | inl e ↦ rw e (k, insert_sorted-below b x ys h a)
  | inr e ↦ rw e (h, (k, a))
]

All-≤ : (b c : ℕ) (ys : List ℕ) → b ≤ c → All (λ y. y ≤ b) ys → All (λ y. y ≤ c) ys
All-≤ b c [] h a = tt
All-≤ b c (y ∷ ys) h (k, a) = (omega arith, All-≤ b c ys h a)

insert_sorted-IsDescending :
    (x : ℕ) (ys : List ℕ)
    → IsDescending (λ y. y) ys
    → IsDescending (λ y. y) (insert_sorted later x ys)
unfolding insert_sorted
insert_sorted-IsDescending x [] d = (tt, tt)
insert_sorted-IsDescending x (y ∷ ys) (a, d) = elim (Bool-cases (later y x)) [
  | inl e ↦ rw e (insert_sorted-below y x ys (ground arith) a, insert_sorted-IsDescending x ys d)
  | inr e ↦ let h : y ≤ x = ground arith in rw e ((h, All-≤ y x ys h a), (a, d))
]

pub slice_stable-IsDescending : (xs : List ℕ) → IsDescending (λ y. y) (slice_stable later xs)
unfolding slice_stable
slice_stable-IsDescending [] = tt
slice_stable-IsDescending (x ∷ xs) =
    insert_sorted-IsDescending x (slice_stable later xs) (slice_stable-IsDescending xs)
