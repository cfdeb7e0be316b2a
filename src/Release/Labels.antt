-- ===== src/Release/Labels.antt =====
-- What the post renderer labels (pkg/release/release.go).
use helm_operator.Base.{
  lookup, lookup-put, Bool, Bool-cases, Option, String, false, if◌then◌else◌, inl, inr, none, some,
  str_eq, true, ◌≡◌,
}
use helm_operator.Release.Context.{Object}
use helm_operator.Api.{HelmRelease}
use helm_operator.Errors.{Error, is_not_found}
use helm_operator.Effects.{Result, ok, err}
use helm_operator.Release.PostRender.{
  inject, app_info_inject, istio_inject, Dynamic, after_delete, against, istio_inject_handle,
  labelled, annotated, resource_of, render_workload, render_object, app_id_label_key,
  component_id_label_key, istio_enable_label_key, istio_enable_label_value,
}

-- The selector of a workload matches its template.
abbrev pub Selects : Object → Type 0
Selects o = (k v : String) → lookup k o.match_labels ≡ some v → lookup k o.template_labels ≡ some v

inject-Selects : (key value : String) (o : Object) → Selects o → Selects (inject key value o)
inject-Selects key value o s k v =
    rw (lookup-put k key value o.match_labels, lookup-put k key value o.template_labels)
      (both (str_eq key k))
  where
    both :
        (b : Bool)
        → (if b then some value else lookup k o.match_labels) ≡ some v
        → (if b then some value else lookup k o.template_labels) ≡ some v
    both true h = h
    both false h = s k v h

app_info_inject-Selects :
    (hr : HelmRelease) (o : Object) → Selects o → Selects (app_info_inject hr o)
unfolding app_info_inject
app_info_inject-Selects hr o s =
    inject-Selects component_id_label_key hr.spec.app_info.component_id
      (inject app_id_label_key hr.spec.app_info.app_id o)
      (inject-Selects app_id_label_key hr.spec.app_info.app_id o s)

istio_inject-Selects : (o : Object) → Selects o → Selects (istio_inject o)
unfolding istio_inject
istio_inject-Selects o s = inject-Selects istio_enable_label_key istio_enable_label_value o s

module _ {W : Type 0} (client : Dynamic W) (hr : HelmRelease) where
  wanted-Selects :
      (wanted : Bool) (o : Object) → Selects o → Selects (if wanted then istio_inject o else o)
  wanted-Selects true o s = istio_inject-Selects o s
  wanted-Selects false o s = s

  deleted-Selects :
      (wanted : Bool) (o : Object) (x : Option Error × W)
      → Selects o
      → Selects (after_delete client wanted o x).0.0
  deleted-Selects wanted o (some e, w) s = s
  deleted-Selects wanted o (none, w) s = wanted-Selects wanted o s

  against-Selects :
      (resource : String) (o : Object) (wanted : Bool) (x : Result Object × W)
      → Selects o
      → Selects (against client resource o wanted x).0.0
  against-Selects resource o wanted (err e, w) s = elim (Bool-cases (is_not_found e)) [
    | inl h ↦ rw h (wanted-Selects wanted o s)
    | inr h ↦ rw h s
  ]
  against-Selects resource o wanted (ok current, w) s = deleted-Selects wanted o _ s

  workload-Selects :
      (u : Object) (r : Option String) (w : W)
      → Selects u
      → Selects (render_workload client hr u r w).0
  unfolding istio_inject_handle annotated
  workload-Selects u none w s = s
  workload-Selects u (some resource) w s =
      let target = app_info_inject hr (annotated hr u) in
      against-Selects resource target hr.spec.app_info.istio_enabled
        (client.get resource hr.namespace target.name w)
        (app_info_inject-Selects hr (annotated hr u) s)

  -- Whatever is deployed and whatever fails, the post renderer keeps the selector of a workload
  -- matching its template.
  pub render_object-Selects :
      (u : Object) (w : W) → Selects u → Selects (render_object client hr u w).0
  unfolding render_object labelled
  render_object-Selects u w s = workload-Selects (labelled hr u) (resource_of u.kind) w s
