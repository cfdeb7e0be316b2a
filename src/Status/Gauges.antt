-- ===== src/Status/Gauges.antt =====
-- What the gauge of conditions shows (`ObserveReleaseConditions`, pkg/status/metrics.go).

use helm_operator.Base.{
  All, [], refl, some, ◌∷◌, ◌≡◌, ℤ, List, pos, Bool-cases, ◌++◌, negsuc, inl, inr, Option, ap, ◌⊎◌,
  ℕ, ◌∙◌, sym, none,
}
use helm_operator.Api.{
  HelmRelease, HelmReleaseCondition, ConditionStatus, condition_true, condition_false,
  condition_unknown, type_eq, HelmReleaseConditionType, get_target_namespace, get_release_name,
  type_eq_iff,
}
use helm_operator.Kube.{GaugeOp}
use helm_operator.Status.Metrics.{
  Memory, Cell, CellMap, gauge_value, gauge_ops, put_cell, put_old, put_new, condition_address,
  set_gauge, type_string, observe_release_conditions,
}

-- The values of the help text of the gauge.
abbrev pub shown_value : ConditionStatus → ℤ
shown_value condition_true = pos 1
shown_value condition_unknown = pos 0
shown_value condition_false = negsuc 0

-- An operation that sets the gauge sets it to this status.
abbrev pub Shows : ConditionStatus → GaugeOp → Type 0
Shows s (GaugeOp.set _ _ _ v) = v ≡ shown_value s
Shows s (GaugeOp.delete _ _ _) = Unit

gauge_value-shown_value : (s : ConditionStatus) → gauge_value s ≡ shown_value s
unfolding gauge_value
gauge_value-shown_value condition_true = refl
gauge_value-shown_value condition_unknown = refl
gauge_value-shown_value condition_false = refl

-- Each pointer of a map is to the variable of the loop.
abbrev IsShared : HelmReleaseConditionType × Cell → Type 0
IsShared (t, Cell.nil) = Unit
IsShared (t, Cell.pointer a) = a ≡ condition_address

put_cell-IsShared :
    (t : HelmReleaseConditionType) (v : Cell) (m : CellMap)
    → IsShared (t, v)
    → All IsShared m
    → All IsShared (put_cell t v m)
unfolding put_cell
put_cell-IsShared t v [] h a = (h, tt)
put_cell-IsShared t v ((u, w) ∷ m) h (b, a) = elim (Bool-cases (type_eq u t)) [
  | inl e ↦ rw e (h, a)
  | inr e ↦ rw e (b, put_cell-IsShared t v m h a)
]

put_old-IsShared :
    (cs : List HelmReleaseCondition) (m : CellMap) → All IsShared m → All IsShared (put_old cs m)
unfolding put_old
put_old-IsShared [] m a = a
put_old-IsShared (c ∷ cs) m a =
    put_old-IsShared cs (put_cell c.type Cell.nil m) (put_cell-IsShared c.type Cell.nil m tt a)

put_new-IsShared :
    (cs : List HelmReleaseCondition) (m : CellMap) (memory : Memory)
    → All IsShared m
    → All IsShared (put_new cs (m, memory)).0
unfolding put_new
put_new-IsShared [] m memory a = a
put_new-IsShared (c ∷ cs) m memory a =
    put_new-IsShared cs _ _ (put_cell-IsShared c.type (Cell.pointer condition_address) m refl a)

put_new-last :
    (cs : List HelmReleaseCondition) (c : HelmReleaseCondition) (m : CellMap) (memory : Memory)
    → (put_new (cs ++ (c ∷ [])) (m, memory)).1 condition_address ≡ some c.status
unfolding put_new
put_new-last [] c m memory = refl
put_new-last (d ∷ cs) c m memory = put_new-last cs c _ _

set_gauge-Shows :
    (new : HelmRelease) (t : HelmReleaseConditionType) (s : ConditionStatus)
    (o : Option ConditionStatus) (ops : List GaugeOp)
    → o ≡ some s
    → All (Shows s) ops
    → All (Shows s) (set_gauge new t o ops)
set_gauge-Shows new t s none ops e a = absurd cc
set_gauge-Shows new t s (some u) ops e a =
    let same : u ≡ s = cc in (ap gauge_value same ∙ gauge_value-shown_value s, a)

gauge_ops-Shows :
    (old new : HelmRelease) (s : ConditionStatus) (memory : Memory) (m : CellMap)
    → memory condition_address ≡ some s
    → All IsShared m
    → All (Shows s) (gauge_ops old new memory m)
unfolding gauge_ops
gauge_ops-Shows old new s memory [] h a = tt
gauge_ops-Shows old new s memory ((t, Cell.nil) ∷ m) h (b, a) =
    (tt, gauge_ops-Shows old new s memory m h a)
gauge_ops-Shows old new s memory ((t, Cell.pointer p) ∷ m) h (b, a) =
    set_gauge-Shows new t s (memory p) _ (ap memory b ∙ h) (gauge_ops-Shows old new s memory m h a)

-- The map has a pointer for a type.
abbrev Points : HelmReleaseConditionType → CellMap → Type 0
Points t [] = ⊥
Points t ((u, Cell.nil) ∷ m) = Points t m
Points t ((u, Cell.pointer a) ∷ m) = (u ≡ t) ⊎ Points t m

Points-later :
    (t u : HelmReleaseConditionType) (w : Cell) (m : CellMap) → Points t m → Points t ((u, w) ∷ m)
Points-later t u Cell.nil m p = p
Points-later t u (Cell.pointer _) m p = inr p

Points-rest :
    (t u : HelmReleaseConditionType) (w : Cell) (m m' : CellMap)
    → Points t ((u, w) ∷ m)
    → (Points t m → Points t m')
    → Points t ((u, w) ∷ m')
Points-rest t u Cell.nil m m' p f = f p
Points-rest t u (Cell.pointer _) m m' (inl q) f = inl q
Points-rest t u (Cell.pointer _) m m' (inr p) f = inr (f p)

Points-replaced :
    (t u v : HelmReleaseConditionType) (w : Cell) (a : ℕ) (m : CellMap)
    → u ≡ v
    → Points t ((u, w) ∷ m)
    → Points t ((v, Cell.pointer a) ∷ m)
Points-replaced t u v Cell.nil a m e p = inr p
Points-replaced t u v (Cell.pointer _) a m e (inl q) = inl (sym e ∙ q)
Points-replaced t u v (Cell.pointer _) a m e (inr p) = inr p

put_cell-Points :
    (t : HelmReleaseConditionType) (a : ℕ) (m : CellMap) → Points t (put_cell t (Cell.pointer a) m)
unfolding put_cell
put_cell-Points t a [] = inl refl
put_cell-Points t a ((u, w) ∷ m) = elim (Bool-cases (type_eq u t)) [
  | inl e ↦ rw e (inl refl)
  | inr e ↦ rw e (Points-later t u w _ (put_cell-Points t a m))
]

put_cell-kept :
    (t v : HelmReleaseConditionType) (a : ℕ) (m : CellMap)
    → Points t m
    → Points t (put_cell v (Cell.pointer a) m)
unfolding put_cell
put_cell-kept t v a [] p = absurd p
put_cell-kept t v a ((u, w) ∷ m) p = elim (Bool-cases (type_eq u v)) [
  | inl e ↦ rw e (Points-replaced t u v w a m ((type_eq_iff u v).0 e) p)
  | inr e ↦ rw e (Points-rest t u w m _ p (put_cell-kept t v a m))
]

put_new-kept :
    (t : HelmReleaseConditionType) (cs : List HelmReleaseCondition) (m : CellMap) (memory : Memory)
    → Points t m
    → Points t (put_new cs (m, memory)).0
unfolding put_new
put_new-kept t [] m memory p = p
put_new-kept t (c ∷ cs) m memory p =
    put_new-kept t cs _ _ (put_cell-kept t c.type condition_address m p)

put_new-Points :
    (cs : List HelmReleaseCondition) (m : CellMap) (memory : Memory)
    → All (λ c. Points c.type (put_new cs (m, memory)).0) cs
unfolding put_new
put_new-Points [] m memory = tt
put_new-Points (c ∷ cs) m memory =
    (put_new-kept c.type cs _ _ (put_cell-Points c.type condition_address m), put_new-Points cs _ _)

-- The gauge of a type is set among the operations.
abbrev pub Sets : HelmRelease → HelmReleaseConditionType → List GaugeOp → Type 0
Sets new t [] = ⊥
Sets new t (op ∷ ops) =
    ((v : ℤ) × (op
        ≡ GaugeOp.set (get_target_namespace new) (get_release_name new) (type_string t) v))
    ⊎ Sets new t ops

set_gauge-Sets :
    (new : HelmRelease) (t u : HelmReleaseConditionType) (s : ConditionStatus)
    (o : Option ConditionStatus) (ops : List GaugeOp)
    → o ≡ some s
    → (u ≡ t) ⊎ Sets new t ops
    → Sets new t (set_gauge new u o ops)
set_gauge-Sets new t u s none ops e p = absurd cc
set_gauge-Sets new t u s (some v) ops e (inl q) = inl (
  gauge_value v,
  ap
      (λ x.
        GaugeOp.set (get_target_namespace new) (get_release_name new) (type_string x)
          (gauge_value v))
      q,
)
set_gauge-Sets new t u s (some v) ops e (inr p) = inr p

gauge_ops-Sets :
    (old new : HelmRelease) (t : HelmReleaseConditionType) (s : ConditionStatus) (memory : Memory)
    (m : CellMap)
    → memory condition_address ≡ some s
    → All IsShared m
    → Points t m
    → Sets new t (gauge_ops old new memory m)
unfolding gauge_ops
gauge_ops-Sets old new t s memory [] h a p = absurd p
gauge_ops-Sets old new t s memory ((u, Cell.nil) ∷ m) h (b, a) p =
    inr (gauge_ops-Sets old new t s memory m h a p)
gauge_ops-Sets old new t s memory ((u, Cell.pointer q) ∷ m) h (b, a) (inl e) =
    set_gauge-Sets new t u s (memory q) _ (ap memory b ∙ h) (inl e)
gauge_ops-Sets old new t s memory ((u, Cell.pointer q) ∷ m) h (b, a) (inr p) =
    set_gauge-Sets new t u s (memory q) _ (ap memory b ∙ h)
      (inr (gauge_ops-Sets old new t s memory m h a p))

Sets-All :
    (old new : HelmRelease) (s : ConditionStatus) (memory : Memory) (m : CellMap)
    (cs : List HelmReleaseCondition)
    → memory condition_address ≡ some s
    → All IsShared m
    → All (λ d. Points d.type m) cs
    → All (λ d. Sets new d.type (gauge_ops old new memory m)) cs
Sets-All old new s memory m [] h a p = tt
Sets-All old new s memory m (d ∷ cs) h a (p, ps) =
    (gauge_ops-Sets old new d.type s memory m h a p, Sets-All old new s memory m cs h a ps)

-- An update sets the gauge of every condition of the new resource, and every gauge that it sets gets
-- the value of the status of the last condition, whatever the status of its own condition is.
pub observe_release_conditions-Shows :
    (old new : HelmRelease) (before : List HelmReleaseCondition) (last : HelmReleaseCondition)
    → new.status.conditions ≡ before ++ (last ∷ [])
    → let ops = observe_release_conditions old (some new) in
      All (Shows last.status) ops × All (λ d. Sets new d.type ops) new.status.conditions
unfolding observe_release_conditions
observe_release_conditions-Shows old new before last h =
    let start = put_old old.status.conditions [] in
    let after = put_new new.status.conditions (start, λ _. none) in
    let shared =
      put_new-IsShared new.status.conditions start (λ _. none)
        (put_old-IsShared old.status.conditions [] tt) in
    let read : after.1 condition_address ≡ some last.status =
      ap (λ cs. (put_new cs (start, λ _. none)).1 condition_address) h
      ∙ put_new-last before last start (λ _. none) in
    (
      gauge_ops-Shows old new last.status after.1 after.0 read shared,
      Sets-All old new last.status after.1 after.0 new.status.conditions read shared
          (put_new-Points new.status.conditions start (λ _. none)),
    )
