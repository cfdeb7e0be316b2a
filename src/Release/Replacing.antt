-- ===== src/Release/Replacing.antt =====
-- The workloads that the post renderer leaves alone (`istioInjectHandle`, pkg/release/release.go).
use helm_operator.Base.{
  lookup, Bool, Bool-cases, Option, String, false, if◌then◌else◌, inl, inr, none, refl, some,
  str_eq, str_eq_iff, true, ◌↔◌, ◌≡◌, ◌≢◌, ◌⊎◌, ◌∙◌, ap, subst,
}
use helm_operator.Release.Context.{Object}
use helm_operator.Api.{HelmRelease}
use helm_operator.Errors.{Error, is_not_found}
use helm_operator.Effects.{Result, Call, ok, err}
use helm_operator.Release.PostRender.{
  Dynamic, until_gone, delete_old_res, injected, after_delete, against, istio_inject_handle,
}

-- What is in a cluster, by the plural of the kind, the namespace and the name: a query changes nothing,
-- a deletion takes away at most what it names, and waiting for a closure that changes nothing
-- changes nothing.
pub record Cluster {W : Type 0} (client : Dynamic W) : Type 0 where
  pub present : String → String → String → W → Bool
  pub queried :
      (r ns n resource namespace name : String) (w : W)
      → present r ns n (client.get resource namespace name w).1 ≡ present r ns n w
  pub other_deleted :
      (r ns n resource namespace name : String) (w : W)
      → (r ≢ resource) ⊎ ((ns ≢ namespace) ⊎ (n ≢ name))
      → present r ns n (client.delete resource namespace name w).1 ≡ present r ns n w
  pub waited :
      (r ns n : String) (f : Call W Bool) (w : W)
      → ((v : W) → present r ns n (f v).1 ≡ present r ns n v)
      → present r ns n (client.until_with_context f w) ≡ present r ns n w

module _ {W : Type 0} (client : Dynamic W) (cluster : Cluster client) (hr : HelmRelease)
    (resource : String) (target : Object) (wanted : Bool) (r ns n : String) where
  -- A workload other than that of the name and namespace of the target.
  abbrev pub Other : Type 0
  Other = (r ≢ resource) ⊎ ((ns ≢ target.namespace) ⊎ (n ≢ target.name))

  -- A deployed workload whose label says what is wanted.
  abbrev pub Agrees : Object → Type 0
  Agrees current =
      (wanted ≡ true) ↔ (lookup "istio-injection" current.template_labels ≡ some "enabled")

  abbrev Same : W → W → Type 0
  Same v w = cluster.present r ns n v ≡ cluster.present r ns n w

  deleted-Same :
      (x : Option Error × W) (w : W) → Same x.1 w → Same (after_delete client wanted target x).1 w
  deleted-Same (some e, v) w h = h
  deleted-Same (none, v) w h = h

  waiting-Same :
      (x : Option Error × W) (w : W)
      → Same x.1 w
      → Same (until_gone client resource target.namespace target.name x).1 w
  waiting-Same (some e, v) w h = h
  waiting-Same (none, v) w h =
      cluster.waited r ns n _ v
        (λ u. cluster.queried r ns n resource target.namespace target.name u)
      ∙ h

  delete_old_res-Same :
      (w : W) → Other → Same (delete_old_res client resource target.namespace target.name w).1 w
  unfolding delete_old_res
  delete_old_res-Same w o =
      waiting-Same (client.delete resource target.namespace target.name w) w
        (cluster.other_deleted r ns n resource target.namespace target.name w o)

  enabled :
      (value : Option String)
      → ((elim value [ none ↦ false | some v ↦ str_eq v "enabled" ]) ≡ true)
        ↔ (value ≡ some "enabled")
  enabled none = (λ e. cc, λ e. cc)
  enabled (some v) =
      (λ e. ap some ((str_eq_iff v "enabled").0 e), λ e. (str_eq_iff v "enabled").1 cc)

  if-Same :
      (b : Bool) (x y : Option Error × W) (w : W)
      → (b ≡ true → Same x.1 w)
      → (b ≡ false → Same y.1 w)
      → Same (if b then x else y).1 w
  if-Same true x y w p q = p refl
  if-Same false x y w p q = q refl

  -- Where a label does not say what is wanted, only the workload of the target is deleted.
  replaced-Same :
      (current : Object) (w : W)
      → Other ⊎ Agrees current
      → (Agrees current → ⊥)
      → Same (delete_old_res client resource target.namespace target.name w).1 w
  replaced-Same current w (inl o) d = delete_old_res-Same w o
  replaced-Same current w (inr a) d = absurd (d a)

  found-Same :
      (current : Object) (w : W)
      → Other ⊎ Agrees current
      → Same (against client resource target wanted (ok current, w)).1 w
  found-Same current w h =
      let label = enabled (lookup "istio-injection" current.template_labels) in
      deleted-Same _ w (
        if-Same wanted _ _ w
          (λ t.
            if-Same (injected current) _ _ w (λ _. refl)
              (λ f. replaced-Same current w h (λ a. let e = label.1 (a.0 t) in cc)))
          (λ f.
            if-Same (injected current) _ _ w
              (λ t. replaced-Same current w h (λ a. let e = a.1 (label.0 t) in cc)) (λ _. refl)))

  -- What spares a workload: it is not that of the target, or no deployed workload was found under the
  -- name of the target, or the label of that one says what is wanted.
  abbrev pub Spared : Result Object → Type 0
  Spared answer =
      Other
      ⊎ (((e : Error) × (answer ≡ err e))
          ⊎ ((current : Object) × (answer ≡ ok current) × Agrees current))

  against-Same :
      (x : Result Object × W) → Spared x.0 → Same (against client resource target wanted x).1 x.1
  against-Same (err e, w) h = elim (Bool-cases (is_not_found e)) [
    | inl t ↦ rw t refl
    | inr f ↦ rw f refl
  ]
  against-Same (ok c, w) (inl o) = found-Same c w (inl o)
  against-Same (ok c, w) (inr (inl (e, h))) = absurd cc
  against-Same (ok c, w) (inr (inr (current, h, a))) =
      let same : current ≡ c = cc in found-Same c w (inr (subst Agrees same a))

  -- The handling of a workload deletes nothing but the workload with the kind, namespace and name of
  -- the target, and that one only where a deployed workload was found, by the name of the target in
  -- the namespace of the HelmRelease, whose label of Istio does not say what is wanted. In
  -- particular, the one that was found stays where the target has another namespace.
  pub istio_inject_handle-kept :
      (w : W)
      → Spared (client.get resource hr.namespace target.name w).0
      → cluster.present r ns n (istio_inject_handle client hr resource target wanted w).1
        ≡ cluster.present r ns n w
  unfolding istio_inject_handle
  istio_inject_handle-kept w h =
      against-Same (client.get resource hr.namespace target.name w) h
      ∙ cluster.queried r ns n resource hr.namespace target.name w
