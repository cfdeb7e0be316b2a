-- ===== src/Release/Ownership.antt =====
-- Who manages a release, and where its resources are (pkg/release/annotator.go).
use helm_operator.Base.{
  Bool, List, Option, String, [], ap, append-nil, append_assoc, arith, false, if◌then◌else◌, none,
  refl, str_eq, str_eq_iff, sym, true, ◌++◌, ◌↔◌, ◌∙◌, ◌∷◌, ◌≡◌, not, ◌++s◌, Bool-cases, ◌&&◌, inl,
  ◌||◌, inr,
}
use helm_operator.Release.Context.{Env, Object}
use helm_operator.Release.Manifest.{
  Resources, object_namespace, add_resource, namespaced_resource_map, managed_by_helm_release,
  object_resource, release_resources, add_objects, ask, ask_first, trim_space,
}
use helm_operator.Api.{HelmRelease}
use helm_operator.Errors.{Error, empty, is_empty}
use helm_operator.Helm.{Release}

-- The resources listed under a namespace.
abbrev pub resources_in : String → Resources → List String
resources_in ns [] = []
resources_in ns ((n, rs) ∷ m) = if str_eq n ns then rs else resources_in ns m

-- Whether an object belongs to a namespace: its own, or that of the release where it names none.
abbrev pub belongs : String → String → Object → Bool
belongs release_namespace ns obj =
    (not (str_eq obj.namespace "") && str_eq obj.namespace ns)
    || (str_eq obj.namespace "" && str_eq release_namespace ns)

-- The kinds and names of the objects of a namespace, in the order of the objects.
abbrev pub objects_in : String → String → List Object → List String
objects_in release_namespace ns [] = []
objects_in release_namespace ns (obj ∷ objs) =
    if belongs release_namespace ns obj
    then (obj.kind ++s ("/" ++s obj.name)) ∷ objects_in release_namespace ns objs
    else objects_in release_namespace ns objs

belongs-object_namespace :
    (rn ns : String) (obj : Object) → str_eq (object_namespace rn obj) ns ≡ belongs rn ns obj
belongs-object_namespace rn ns obj = elim (Bool-cases (str_eq obj.namespace "")) [
  | inl e ↦ rw e refl
  | inr e ↦ rw e (ground arith)
]

resources_in-add_resource :
    (n r ns : String) (m : Resources)
    → resources_in ns (add_resource n r m)
      ≡ (if str_eq n ns then resources_in ns m ++ (r ∷ []) else resources_in ns m)
unfolding add_resource
resources_in-add_resource n r ns [] = ground arith
resources_in-add_resource n r ns ((k, rs) ∷ m) =
    ground
      (arith, str_eq_iff k n, str_eq_iff k ns, str_eq_iff n ns, resources_in-add_resource n r ns m)

appended :
    (b : Bool) (xs : List String) (r : String) (ys : List String)
    → (if b then xs ++ (r ∷ []) else xs) ++ ys ≡ xs ++ (if b then r ∷ ys else ys)
appended true xs r ys = append_assoc xs (r ∷ []) ys
appended false xs r ys = refl

resources_in-add_objects :
    (objs : List Object) (rn ns : String) (m : Resources)
    → resources_in ns (add_objects objs rn m) ≡ resources_in ns m ++ objects_in rn ns objs
unfolding add_objects
resources_in-add_objects [] rn ns m = sym (append-nil _)
resources_in-add_objects (obj ∷ objs) rn ns m =
    let n = object_namespace rn obj in
    let r = object_resource obj in
    resources_in-add_objects objs rn ns (add_resource n r m)
    ∙ ap (λ x. x ++ objects_in rn ns objs) (resources_in-add_resource n r ns m)
    ∙ appended (str_eq n ns) (resources_in ns m) r (objects_in rn ns objs)
    ∙ ap
        (λ b. resources_in ns m ++ (if b then r ∷ objects_in rn ns objs else objects_in rn ns objs))
        (belongs-object_namespace rn ns obj)

-- Each namespace lists exactly the kinds and names of the objects in it, in their order, an object
-- that names no namespace belonging to that of the release.
pub resources_in-namespaced_resource_map :
    (objs : List Object) (release_namespace ns : String)
    → resources_in ns (namespaced_resource_map objs release_namespace)
      ≡ objects_in release_namespace ns objs
unfolding namespaced_resource_map
resources_in-namespaced_resource_map objs rn ns = resources_in-add_objects objs rn ns []

module _ {W : Type 0} (env : Env W) where
  -- The answer that the first resource of a release decides, if it has one.
  abbrev pub Owned : HelmRelease → Bool × String × Option Error → Type 0
  Owned hr (managed, owner, e) = (e ≡ none) × ((managed ≡ true) ↔ (owner ≡ env.resource_id hr))

  reported :
      (hr : HelmRelease) (v : String) (b : Bool)
      → Owned hr
          (if b then (true, env.resource_id hr, none) else (str_eq v (env.resource_id hr), v, none))
  reported hr v true = (refl, (λ _. refl, λ _. refl))
  reported hr v false = (refl, str_eq_iff v (env.resource_id hr))

  ask-Owned : (ns r : String) (hr : HelmRelease) (w : W) → Owned hr (ask env ns r hr empty w).0
  unfolding ask
  ask-Owned ns r hr w =
      let v = trim_space (env.kubectl_get ns r w).0.0 in reported hr v (str_eq v "")

  ask_first-Owned :
      (m : Resources) (hr : HelmRelease) (w : W) → Owned hr (ask_first env m hr empty w).0
  unfolding ask_first is_empty
  ask_first-Owned [] hr w = (refl, (λ _. refl, λ _. refl))
  ask_first-Owned ((ns, []) ∷ m) hr w = ask_first-Owned m hr w
  ask_first-Owned ((ns, r ∷ _) ∷ _) hr w = ask-Owned ns r hr w

  -- Whatever `kubectl` answers, a failure included, the question who manages a release has no
  -- error, and the answer is yes exactly where the owner reported is the resource itself.
  pub managed_by_helm_release-Owned :
      (rel : Release) (hr : HelmRelease) (w : W) → Owned hr (managed_by_helm_release env rel hr w).0
  unfolding managed_by_helm_release
  managed_by_helm_release-Owned rel hr w = ask_first-Owned (release_resources env rel) hr w
