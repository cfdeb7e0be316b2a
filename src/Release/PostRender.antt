-- ===== src/Release/PostRender.antt =====
-- The post renderer, which labels the objects of a chart (`getAppManagerPostRenderer`,
-- pkg/release/release.go). The paths of the selector and of the template are those of `Object`.
use helm_operator.Base.{
  lookup, put, Bool, List, Option, String, [], false, if◌then◌else◌, is_some, none, some, str_eq,
  true, ◌++s◌, ◌∷◌,
}
use helm_operator.Release.Context.{Object, Env}
use helm_operator.Api.{HelmRelease}
use helm_operator.Errors.{Error, is_not_found}
use helm_operator.Effects.{Result, ok, err, Call}
use helm_operator.Release.Manifest.{release_manifest_to_unstructured}

abbrev pub Labels : Type 0
Labels = List (String × String)

abbrev pub app_id_label_key : String
app_id_label_key = "oam.runtime.app.id"

abbrev pub component_id_label_key : String
component_id_label_key = "oam.runtime.component.id"

abbrev pub istio_enable_label_key : String
istio_enable_label_key = "istio-injection"

abbrev pub istio_enable_label_value : String
istio_enable_label_value = "enabled"

abbrev pub log_collect_annotate_key : String
log_collect_annotate_key = "logCollect"

-- A label of the selector and of the template.
abbrev pub inject : String → String → Object → Object
inject key value target = record target {
  match_labels = put key value target.match_labels;
  template_labels = put key value target.template_labels;
}

unfoldable pub app_info_inject : HelmRelease → Object → Object
app_info_inject hr target =
    inject component_id_label_key hr.spec.app_info.component_id
      (inject app_id_label_key hr.spec.app_info.app_id target)

unfoldable pub istio_inject : Object → Object
istio_inject target = inject istio_enable_label_key istio_enable_label_value target

-- The dynamic client, by the plural of a kind; `until_with_context` runs a closure every second until
-- it cancels or ten seconds are over.
pub record Dynamic (W : Type 0) : Type 0 where
  pub build_config : Call W (Option Error)
  pub new_for_config : Call W (Option Error)
  pub get : String → String → String → Call W (Result Object)
  pub delete : String → String → String → Call W (Option Error)
  pub until_with_context : Call W Bool → W → W
  pub marshal : Object → String

abbrev pub format_bool : Bool → String
format_bool true = "true"
format_bool false = "false"

abbrev pub gone : Result Object → Bool
gone (err e) = is_not_found e
gone (ok _) = false

-- Whether the deployed workload has the label.
abbrev pub injected : Object → Bool
injected current = elim (lookup istio_enable_label_key current.template_labels) [
  | none ↦ false
  | some value ↦ str_eq value istio_enable_label_value
]

-- The labels of every object, and the annotation of a workload.
unfoldable pub labelled : HelmRelease → Object → Object
labelled hr u = record u {
  labels =
      put component_id_label_key hr.spec.app_info.component_id
        (put app_id_label_key hr.spec.app_info.app_id u.labels);
}

unfoldable pub annotated : HelmRelease → Object → Object
annotated hr u = record u {
  annotations =
      put log_collect_annotate_key (format_bool hr.spec.app_info.log_collect) u.annotations;
}

-- The plural of the kind of a workload.
abbrev pub resource_of : String → Option String
resource_of kind =
    if str_eq kind "StatefulSet"
    then some "statefulsets"
    else if str_eq kind "Deployment"
    then some "deployments"
    else none

module _ {W : Type 0} (client : Dynamic W) where
  -- The wait for the deletion, where it did not fail.
  abbrev pub until_gone : String → String → String → Option Error × W → Option Error × W
  until_gone resource namespace name (some e, w) = (some e, w)
  until_gone resource namespace name (none, w) = (
    none,
    client.until_with_context
        (λ v. let (r, v₁) = client.get resource namespace name v in (gone r, v₁)) w,
  )

  unfoldable pub delete_old_res : String → String → String → Call W (Option Error)
  delete_old_res resource namespace name w =
      until_gone resource namespace name (client.delete resource namespace name w)

  -- The end of the two branches: after a failed deletion the target is not injected.
  abbrev pub after_delete : Bool → Object → Option Error × W → (Object × Option Error) × W
  after_delete wanted target (some e, w) = ((target, some e), w)
  after_delete wanted target (none, w) =
      (((if wanted then istio_inject target else target), none), w)

  abbrev pub against : String → Object → Bool → Result Object × W → (Object × Option Error) × W
  against resource target wanted (err e, w) =
      if is_not_found e
      then (((if wanted then istio_inject target else target), none), w)
      else ((target, some e), w)
  against resource target wanted (ok current, w) = after_delete wanted target (
      if wanted
      then (if injected current
          then (none, w)
          else delete_old_res resource target.namespace target.name w)
      else (if injected current
          then delete_old_res resource target.namespace target.name w
          else (none, w)))

  unfoldable pub istio_inject_handle :
      HelmRelease → String → Object → Bool → Call W (Object × Option Error)
  istio_inject_handle hr resource target wanted w =
      against resource target wanted (client.get resource hr.namespace target.name w)

  abbrev pub render_workload : HelmRelease → Object → Option String → Call W Object
  render_workload hr u none w = (u, w)
  render_workload hr u (some resource) w =
      let (r, w₁) =
        istio_inject_handle hr resource (app_info_inject hr (annotated hr u))
          hr.spec.app_info.istio_enabled w in
      (r.0, w₁)

  -- One round of the loop; an error is only logged.
  unfoldable pub render_object : HelmRelease → Object → Call W Object
  render_object hr u = render_workload hr (labelled hr u) (resource_of u.kind)

  unfoldable pub render_objects : HelmRelease → List Object → Call W String
  render_objects hr [] w = ("", w)
  render_objects hr (u ∷ us) w =
      let (o, w₁) = render_object hr u w in
      let (rest, w₂) = render_objects hr us w₁ in
      ("---\n" ++s (client.marshal o ++s ("\n" ++s rest)), w₂)

  -- The renderer: without a client the manifests are left as they are.
  unfoldable pub post_render : Env W → HelmRelease → String → Call W String
  post_render env hr manifests w =
      let (e, w₁) = client.build_config w in
      if is_some e
      then (manifests, w₁)
      else (let (e', w₂) = client.new_for_config w₁ in
          if is_some e'
          then (manifests, w₂)
          else render_objects hr (release_manifest_to_unstructured env manifests) w₂)
