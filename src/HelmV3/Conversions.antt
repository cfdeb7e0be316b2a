-- ===== src/HelmV3/Conversions.antt =====
-- What a conversion stores and deletes (`Convert`, pkg/helm/v3/converter.go).
use helm_operator.Base.{List, Option, String, [], false, none, refl, some, subst, ◌∷◌, ◌≡◌}
use helm_operator.Errors.{Error}
use helm_operator.Effects.{Result, ok, err}
use helm_operator.HelmV3.Convert.{
  Plugin, Converter, convert_opts, created, or_next, store_all, converted, convert,
}

module _ {W V2 V3 : Type 0} (p : Plugin W V2 V3) (c : Converter) (name : String) where
  -- The releases are created and stored in order, all of them or up to the first that fails.
  pub data Stores : List V2 → W → Option Error × W → Type 0 where
    all_stored : {w : W} → Stores [] w (none, w)
    stored :
        {r : V2} {rs : List V2} {v : V3} {w w₁ : W} {x : Option Error × W}
        → p.create_release r ≡ ok v
        → p.store_release v c.kube_config w ≡ (none, w₁)
        → Stores rs w₁ x
        → Stores (r ∷ rs) w x
    uncreated :
        {r : V2} {rs : List V2} {e : Error} {w : W}
        → p.create_release r ≡ err e
        → Stores (r ∷ rs) w (some e, w)
    unstored :
        {r : V2} {rs : List V2} {v : V3} {e : Error} {w w₁ : W}
        → p.create_release r ≡ ok v
        → p.store_release v c.kube_config w ≡ (some e, w₁)
        → Stores (r ∷ rs) w (some e, w₁)

  -- A conversion reads the versions, stores them, and only then deletes them.
  pub data Converts (w : W) : Option Error × W → Type 0 where
    unread :
        {rs : List V2} {e : Error} {w₁ : W}
        → p.get_release_versions (convert_opts p c name) c.kube_config w ≡ ((rs, some e), w₁)
        → Converts w (some e, w₁)
    kept :
        {rs : List V2} {e : Error} {w₁ w₂ : W}
        → p.get_release_versions (convert_opts p c name) c.kube_config w ≡ ((rs, none), w₁)
        → Stores rs w₁ (some e, w₂)
        → Converts w (some e, w₂)
    deleted :
        {rs : List V2} {w₁ w₂ : W}
        → p.get_release_versions (convert_opts p c name) c.kube_config w ≡ ((rs, none), w₁)
        → Stores rs w₁ (none, w₂)
        → Converts w (p.delete_all_release_versions (convert_opts p c name) c.kube_config false w₂)

  store_one :
      (r : V2) (rs : List V2) (w : W) (o : Result V3) (x : Option Error × W)
      → p.create_release r ≡ o
      → created p c o w ≡ x
      → ((w₁ : W) → Stores rs w₁ (store_all p c rs w₁))
      → Stores (r ∷ rs) w (or_next p c x (store_all p c rs))
  store_one r rs w (err e) x g s rest =
      subst (λ y. Stores (r ∷ rs) w (or_next p c y (store_all p c rs))) s (uncreated g)
  store_one r rs w (ok v) (none, w₁) g s rest = stored g s (rest w₁)
  store_one r rs w (ok v) (some e, w₁) g s rest = unstored g s

  store_all-Stores : (rs : List V2) (w : W) → Stores rs w (store_all p c rs w)
  unfolding store_all
  store_all-Stores [] w = all_stored
  store_all-Stores (r ∷ rs) w =
      store_one r rs w (p.create_release r) (created p c (p.create_release r) w) refl refl
        (store_all-Stores rs)

  deletes :
      (rs : List V2) (w w₁ : W) (x : Option Error × W)
      → p.get_release_versions (convert_opts p c name) c.kube_config w ≡ ((rs, none), w₁)
      → Stores rs w₁ x
      → Converts w (
          or_next p c x (p.delete_all_release_versions (convert_opts p c name) c.kube_config false))
  deletes rs w w₁ (none, w₂) g s = deleted g s
  deletes rs w w₁ (some e, w₂) g s = kept g s

  read-Converts :
      (w : W) (x : (List V2 × Option Error) × W)
      → p.get_release_versions (convert_opts p c name) c.kube_config w ≡ x
      → Converts w (converted p c name false x)
  read-Converts w ((rs, some e), w₁) g = unread g
  read-Converts w ((rs, none), w₁) g =
      deletes rs w w₁ (store_all p c rs w₁) g (store_all-Stores rs w₁)

  -- A conversion deletes the release of Helm 2 only once every version of it has been stored; where
  -- one cannot be read, created or stored, it returns that error and deletes nothing.
  pub convert-Converts : (w : W) → Converts w (convert p c name false w)
  unfolding convert
  convert-Converts w =
      read-Converts w (p.get_release_versions (convert_opts p c name) c.kube_config w) refl
