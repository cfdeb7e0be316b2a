-- ===== src/Status/Laws.antt =====
-- What the updates of the conditions do (pkg/status/conditions.go).
use helm_operator.Base.{
  ◌≡◌, refl, Bool, true, false, none, some, List, [], ◌∷◌, ◌++◌, if◌then◌else◌, arith, Option,
}
use helm_operator.Api.{
  HelmReleaseStatus, HelmReleaseConditionType, HelmReleaseCondition, ConditionStatus,
  condition_true, type_eq, type_eq_iff,
}
use helm_operator.Status.Conditions.{
  get_condition, filter_out_condition, keep_transition, set_condition, set_all,
}

get_condition-append :
    (cs ds : List HelmReleaseCondition) (t : HelmReleaseConditionType)
    → get_condition (cs ++ ds) t
      ≡ elim (get_condition cs t) [ none ↦ get_condition ds t | some c ↦ some c ]
unfolding get_condition
get_condition-append [] ds t = refl
get_condition-append (c ∷ cs) ds t = ground (arith, get_condition-append cs ds t)

get_condition-filter_out :
    (cs : List HelmReleaseCondition) (t u : HelmReleaseConditionType)
    → get_condition (filter_out_condition cs t) u
      ≡ (if type_eq t u then none else get_condition cs u)
unfolding get_condition filter_out_condition
get_condition-filter_out [] t u = ground arith
get_condition-filter_out (c ∷ cs) t u = ground (
  arith,
  type_eq_iff c.type t,
  type_eq_iff c.type u,
  type_eq_iff t u,
  get_condition-filter_out cs t u,
)

-- Whether setting a condition settles a release, which drops the condition of a rollback.
abbrev pub settles : HelmReleaseConditionType → ConditionStatus → HelmReleaseConditionType → Bool
settles HelmReleaseConditionType.released condition_true HelmReleaseConditionType.rolled_back = true
settles _ _ _ = false

-- Once a condition is set it is the one of its type, with the transition time of the old one if its
-- status is the same; that of a rollback is gone if it settles the release; any other is as before.
pub get_condition-set_condition :
    (old s : HelmReleaseStatus) (c : HelmReleaseCondition) (t : HelmReleaseConditionType)
    → get_condition (set_condition old s c).conditions t ≡ (
        if type_eq c.type t
        then some (keep_transition (get_condition old.conditions c.type) c)
        else if settles c.type c.status t
        then none
        else get_condition s.conditions t)
unfolding set_condition get_condition
get_condition-set_condition old s c t =
    let current = keep_transition (get_condition old.conditions c.type) c in
    let kept = filter_out_condition s.conditions c.type in
    ground (
      arith,
      type_eq_iff c.type t,
      type_eq_iff HelmReleaseConditionType.rolled_back t,
      get_condition-filter_out s.conditions c.type t,
      get_condition-append kept (current ∷ []) t,
      get_condition-filter_out (kept ++ (current ∷ [])) HelmReleaseConditionType.rolled_back t,
    )

-- Each type of condition stands at most once in the list.
abbrev pub IsDistinct : List HelmReleaseCondition → Type 0
IsDistinct [] = Unit
IsDistinct (c ∷ cs) = (get_condition cs c.type ≡ none) × IsDistinct cs

filter_out_condition-IsDistinct :
    (cs : List HelmReleaseCondition) (t : HelmReleaseConditionType)
    → IsDistinct cs
    → IsDistinct (filter_out_condition cs t)
unfolding filter_out_condition
filter_out_condition-IsDistinct [] t h = tt
filter_out_condition-IsDistinct (c ∷ cs) t h =
    ground (arith, get_condition-filter_out cs t c.type, filter_out_condition-IsDistinct cs t h.1)

append-IsDistinct :
    (cs : List HelmReleaseCondition) (d : HelmReleaseCondition)
    → IsDistinct cs
    → get_condition cs d.type ≡ none
    → IsDistinct (cs ++ (d ∷ []))
unfolding get_condition
append-IsDistinct [] d h e = (refl, tt)
append-IsDistinct (c ∷ cs) d h e = ground (
  arith,
  type_eq_iff c.type d.type,
  type_eq_iff d.type c.type,
  get_condition-append cs (d ∷ []) c.type,
  append-IsDistinct cs d h.1,
)

type_eq_refl : (t : HelmReleaseConditionType) → type_eq t t ≡ true
type_eq_refl t = (type_eq_iff t t).1 refl

keep_transition-type :
    (o : Option HelmReleaseCondition) (c : HelmReleaseCondition)
    → (keep_transition o c).type ≡ c.type
keep_transition-type o c = ground arith

set_condition-IsDistinct :
    (old s : HelmReleaseStatus) (c : HelmReleaseCondition)
    → IsDistinct s.conditions
    → IsDistinct (set_condition old s c).conditions
unfolding set_condition
set_condition-IsDistinct old s c h =
    let current = keep_transition (get_condition old.conditions c.type) c in
    let kept = filter_out_condition s.conditions c.type in
    ground (
      arith,
      type_eq_refl c.type,
      keep_transition-type (get_condition old.conditions c.type) c,
      get_condition-filter_out s.conditions c.type c.type,
      filter_out_condition-IsDistinct s.conditions c.type h,
      append-IsDistinct kept current,
      filter_out_condition-IsDistinct (kept ++ (current ∷ [])) HelmReleaseConditionType.rolled_back,
    )

-- Whatever conditions are set, and whatever the status they are compared with, a list in which
-- each type of condition stands at most once stays such a list.
pub set_all-IsDistinct :
    (old s : HelmReleaseStatus) (cs : List HelmReleaseCondition)
    → IsDistinct s.conditions
    → IsDistinct (set_all old s cs).conditions
unfolding set_all
set_all-IsDistinct old s [] h = h
set_all-IsDistinct old s (c ∷ cs) h =
    set_all-IsDistinct old (set_condition old s c) cs (set_condition-IsDistinct old s c h)
