-- ===== src/Release/Manifest.antt =====
-- The resources of a release, and who manages it (pkg/release/annotator.go).
use Prim.Native.Char.{code}
use helm_operator.Base.{
  Bool, List, Option, String, [], false, if◌then◌else◌, is_some, leb, none, not, some, str_eq, true,
  ℕ, ◌&&◌, ◌++s◌, ◌++◌, ◌==◌, ◌||◌, ◌∷◌,
}
use helm_operator.Release.Context.{Object, Env, Unstructured}
use helm_operator.Effects.{Result, Call, err, ok}
use helm_operator.Helm.{Release}
use helm_operator.Api.{HelmRelease}
use helm_operator.Errors.{ErrCollection, Error, append, empty, plain, collected, is_empty}

abbrev pub Resources : Type 0
Resources = List (String × List String)

-- `resources[namespace] = append(resources[namespace], res)`
unfoldable pub add_resource : String → String → Resources → Resources
add_resource namespace res [] = (namespace, res ∷ []) ∷ []
add_resource namespace res ((n, rs) ∷ m) =
    if str_eq n namespace then (n, rs ++ (res ∷ [])) ∷ m else (n, rs) ∷ add_resource namespace res m

abbrev pub object_namespace : String → Object → String
object_namespace release_namespace obj =
    if str_eq obj.namespace "" then release_namespace else obj.namespace

abbrev pub object_resource : Object → String
object_resource obj = obj.kind ++s ("/" ++s obj.name)

unfoldable pub add_objects : List Object → String → Resources → Resources
add_objects [] release_namespace m = m
add_objects (obj ∷ objs) release_namespace m =
    add_objects objs release_namespace
      (add_resource (object_namespace release_namespace obj) (object_resource obj) m)

unfoldable pub namespaced_resource_map : List Object → String → Resources
unfolding add_objects
namespaced_resource_map objs release_namespace = add_objects objs release_namespace []

-- A manifest that does not parse adds nothing, and a list adds its items.
abbrev pub objects_of : Result Unstructured → List Object
objects_of (err _) = []
objects_of (ok u) = elim u.items [
  | none ↦ u.object ∷ []
  | some (ok items) ↦ items
  | some (err _) ↦ []
]

abbrev append_error : ErrCollection → Option Error → ErrCollection
append_error errs none = errs
append_error errs (some e) = append errs e

-- `strings.TrimSpace`; `is_space` is `unicode.IsSpace`.
is_space : ℕ → Bool
is_space c =
    (leb 9 c && leb c 13)
    || (c == 32
        || (c == 0x85
            || (c == 0xa0
                || (c == 0x1680
                    || ((leb 0x2000 c && leb c 0x200a)
                        || (c == 0x2028
                            || (c == 0x2029 || (c == 0x202f || (c == 0x205f || c == 0x3000)))))))))

trim_left : String → String
unfolding is_space
trim_left String.[] = ""
trim_left (String.◌∷◌ c s) =
    let rest = trim_left s in if is_space (code c) then rest else String.◌∷◌ c s

trim_right : String → String
unfolding is_space
trim_right String.[] = ""
trim_right (String.◌∷◌ c s) =
    let rest = trim_right s in if str_eq rest "" && is_space (code c) then "" else String.◌∷◌ c rest

unfoldable pub trim_space : String → String
unfolding trim_left trim_right
trim_space s = trim_right (trim_left s)

module _ {W : Type 0} (env : Env W) where
  parse_all : List String → List Object
  parse_all [] = []
  parse_all (m ∷ ms) = objects_of (env.unmarshal_object m) ++ parse_all ms

  unfoldable pub release_manifest_to_unstructured : String → List Object
  unfolding parse_all
  release_manifest_to_unstructured manifest = parse_all (env.split_manifests manifest)

  -- The resources of a release in the order in which the code walks the map.
  unfoldable pub release_resources : Release → Resources
  release_resources rel =
      env.map_order
        (namespaced_resource_map (release_manifest_to_unstructured rel.manifest) rel.namespace)

  -- What an iteration of the inner loop returns, with the errors so far. The error of the command
  -- is appended to them before the return.
  unfoldable pub ask :
      String → String → HelmRelease → ErrCollection → Call W (Bool × String × Option Error)
  ask ns r hr errs w =
      let (answer, w₁) = env.kubectl_get ns r w in
      let v = trim_space answer.0 in
      let errs' = append_error errs answer.1 in
      (
        (if str_eq v ""
            then (true, env.resource_id hr, none)
            else (str_eq v (env.resource_id hr), v, none)),
        w₁,
      )

  unfoldable pub ask_first :
      Resources → HelmRelease → ErrCollection → Call W (Bool × String × Option Error)
  unfolding ask
  ask_first [] hr errs w = (
    (if is_empty errs
        then (true, env.resource_id hr, none)
        else (false, "", some (collected errs))),
    w,
  )
  ask_first ((ns, []) ∷ m) hr errs w = ask_first m hr errs w
  ask_first ((ns, r ∷ _) ∷ _) hr errs w = ask ns r hr errs w

  -- `managedByHelmRelease`: whether, by whom, and an error.
  unfoldable pub managed_by_helm_release :
      Release → HelmRelease → Call W (Bool × String × Option Error)
  unfolding ask_first
  managed_by_helm_release rel hr = ask_first (release_resources rel) hr empty

  unfoldable pub annotate_all : Resources → String → ErrCollection → Call W ErrCollection
  annotate_all [] id errs w = (errs, w)
  annotate_all ((ns, res) ∷ m) id errs w =
      let (answer, w₁) = env.kubectl_annotate ns res id w in
      let errs' =
        (if is_some answer.1 && not (str_eq answer.0 "")
          then append errs (plain answer.0)
          else errs) in
      annotate_all m id errs' w₁

  abbrev collection_error : ErrCollection → Option Error
  collection_error empty = none
  collection_error (append es e) = some (collected (append es e))

  -- `annotateResources`
  unfoldable pub annotate_resources : Release → String → Call W (Option Error)
  unfolding annotate_all
  annotate_resources rel id w =
      let (errs, w₁) = annotate_all (release_resources rel) id empty w in
      (collection_error errs, w₁)
