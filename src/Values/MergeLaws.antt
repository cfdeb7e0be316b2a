-- ===== src/Values/MergeLaws.antt =====
-- What a merge of values contains (`mergeValues`, pkg/release/values.go).
use helm_operator.Base.{
  Bool, Bool-cases, Option, String, ap, arith, false, if◌then◌else◌, inl, inr, none, refl, some,
  str_eq, str_eq_iff, subst, sym, true, ◌∙◌, ◌≡◌, ◌⊎◌,
}
use helm_operator.Api.{Fields, Value, field, end, object, null, boolean, number, text, array}
use helm_operator.Values.Merge.{get, set, merge_value, merge_into, merge_values}

-- A Go map has a key once.
abbrev pub Distinct : Fields → Type 0
Distinct end = Unit
Distinct (field k v fs) = (get k fs ≡ none) × Distinct fs

unfoldable mutual
  -- The maps in a value, at every depth, have each key once.
  pub WellFormed : Value → Type 0
  WellFormed (object fs) = AllWellFormed fs
  WellFormed _ = Unit

  pub AllWellFormed : Fields → Type 0
  AllWellFormed end = Unit
  AllWellFormed (field k v fs) = (get k fs ≡ none) × (WellFormed v × AllWellFormed fs)

-- Whether there is something else than a map, or nothing.
abbrev pub is_leaf : Option Value → Bool
is_leaf (some (object _)) = false
is_leaf _ = true

-- What a merge leaves of a value of the source, the first, and one of the destination, the second: a
-- missing value leaves that of the destination, two maps are merged key by key, and otherwise the
-- source wins.
pub data Merges : Option Value → Option Value → Option Value → Type 0 where
  missing : {d : Option Value} → Merges none d d
  wins :
      {v : Value} {d : Option Value}
      → (is_leaf (some v) ≡ true) ⊎ (is_leaf d ≡ true)
      → Merges (some v) d (some v)
  nested :
      {a b c : Fields}
      → ((k : String) → Merges (get k a) (get k b) (get k c))
      → Merges (some (object a)) (some (object b)) (some (object c))

-- What the code stores, or leaves, under a key.
abbrev merged : Option Value → Option Value → Option Value
merged none d = d
merged (some v) d = some (merge_value v d)

get-set :
    (k j : String) (v : Value) (fs : Fields)
    → get k (set j v fs) ≡ (if str_eq j k then some v else get k fs)
unfolding get set
get-set k j v end = ground arith
get-set k j v (field i u fs) =
    ground (arith, str_eq_iff i j, str_eq_iff i k, str_eq_iff j k, get-set k j v fs)

merged-field :
    (k j : String) (v : Value) (src dest : Fields)
    → get j src ≡ none
    → merged (get k src) (if str_eq j k then some (merge_value v (get j dest)) else get k dest)
      ≡ merged (if str_eq j k then some v else get k src) (get k dest)
merged-field k j v src dest fresh = elim (Bool-cases (str_eq j k)) [
  | inl e ↦ rw (e, sym ((str_eq_iff j k).0 e), fresh) refl
  | inr e ↦ rw e refl
]

-- The code merges each key of the source once, with what the destination had there.
get-merge_into :
    (k : String) (src dest : Fields)
    → Distinct src
    → get k (merge_into src dest) ≡ merged (get k src) (get k dest)
unfolding merge_into get
get-merge_into k end dest d = refl
get-merge_into k (field j v src) dest (fresh, d) =
    get-merge_into k src (set j (merge_value v (get j dest)) dest) d
    ∙ ap (merged (get k src)) (get-set k j (merge_value v (get j dest)) dest)
    ∙ merged-field k j v src dest fresh

AllWellFormed-Distinct : (fs : Fields) → AllWellFormed fs → Distinct fs
unfolding AllWellFormed
AllWellFormed-Distinct end w = tt
AllWellFormed-Distinct (field k v fs) (fresh, w) = (fresh, AllWellFormed-Distinct fs w.1)

mutual
  unfolding merge_value WellFormed AllWellFormed get

  value-Merges :
      (v : Value) (d : Option Value) → WellFormed v → Merges (some v) d (some (merge_value v d))
  value-Merges (object a) (some (object b)) w = Merges.nested λ k.
      subst (Merges (get k a) (get k b)) (sym (get-merge_into k a b (AllWellFormed-Distinct a w)))
        (key-Merges k a (get k b) w)
  value-Merges (object a) none w = Merges.wins (inr refl)
  value-Merges (object a) (some null) w = Merges.wins (inr refl)
  value-Merges (object a) (some (boolean _)) w = Merges.wins (inr refl)
  value-Merges (object a) (some (number _)) w = Merges.wins (inr refl)
  value-Merges (object a) (some (text _)) w = Merges.wins (inr refl)
  value-Merges (object a) (some (array _)) w = Merges.wins (inr refl)
  value-Merges null d w = Merges.wins (inl refl)
  value-Merges (boolean _) d w = Merges.wins (inl refl)
  value-Merges (number _) d w = Merges.wins (inl refl)
  value-Merges (text _) d w = Merges.wins (inl refl)
  value-Merges (array _) d w = Merges.wins (inl refl)

  key-Merges :
      (k : String) (src : Fields) (d : Option Value)
      → AllWellFormed src
      → Merges (get k src) d (merged (get k src) d)
  key-Merges k end d w = Merges.missing
  key-Merges k (field j v src) d (fresh, (w, ws)) = elim (Bool-cases (str_eq j k)) [
    | inl e ↦ rw e (value-Merges v d w)
    | inr e ↦ rw e (key-Merges k src d ws)
  ]

-- The merge of a source in which no map, at any depth, repeats a key has under each key: the value of
-- the destination where the source has none, that of the source where the two are not both maps,
-- and, where they are, a map that is merged from the two in the same way.
pub get-merge_values :
    (k : String) (src dest : Fields)
    → AllWellFormed src
    → Merges (get k src) (get k dest) (get k (merge_values dest src))
unfolding merge_values
get-merge_values k src dest w =
    subst (Merges (get k src) (get k dest))
      (sym (get-merge_into k src dest (AllWellFormed-Distinct src w)))
      (key-Merges k src (get k dest) w)

-- Go walks a map in any order: two sources with the same entries, no key of them repeated, give
-- the same values.
merge_values_order :
    (src src' dest : Fields)
    → Distinct src
    → Distinct src'
    → ((k : String) → get k src ≡ get k src')
    → (k : String) → get k (merge_values dest src) ≡ get k (merge_values dest src')
unfolding merge_values
merge_values_order src src' dest d d' same k =
    get-merge_into k src dest d
    ∙ ap (λ x. merged x (get k dest)) (same k)
    ∙ sym (get-merge_into k src' dest d')

set-get_none :
    (k j : String) (v : Value) (fs : Fields)
    → str_eq j k ≡ false
    → get k fs ≡ none
    → get k (set j v fs) ≡ none
set-get_none k j v fs e h = rw (get-set k j v fs, e) h

set-Distinct : (j : String) (v : Value) (fs : Fields) → Distinct fs → Distinct (set j v fs)
unfolding set get
set-Distinct j v end d = (refl, tt)
set-Distinct j v (field i u fs) (fresh, d) = elim (Bool-cases (str_eq i j)) [
  | inl e ↦ rw e (fresh, d)
  | inr e ↦ rw e (
    set-get_none i j v fs (ground (arith, str_eq_iff i j, str_eq_iff j i)) fresh,
    set-Distinct j v fs d,
  )
]

-- A merge repeats no key either.
pub merge_values-Distinct : (src dest : Fields) → Distinct dest → Distinct (merge_values dest src)
unfolding merge_values merge_into
merge_values-Distinct end dest d = d
merge_values-Distinct (field j v src) dest d =
    merge_values-Distinct src (set j (merge_value v (get j dest)) dest)
      (set-Distinct j (merge_value v (get j dest)) dest d)
