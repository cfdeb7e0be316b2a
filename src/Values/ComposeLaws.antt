-- ===== src/Values/ComposeLaws.antt =====
-- What the composition of values gives (`composeValues`, pkg/release/values.go).
use helm_operator.Base.{
  lookup, All, List, Option, String, [], ap, none, refl, some, true, ◌++◌, ◌∙◌, ◌∷◌, ◌≡◌, ◌++s◌,
}
use helm_operator.Api.{
  Fields, Value, ValuesFromSource, HelmRelease, end, get_values_from_sources,
  OptionalConfigMapKeySelector, OptionalSecretKeySelector,
}
use helm_operator.Effects.{ok, err}
use helm_operator.Errors.{Error, plain}
use helm_operator.Values.Merge.{get, merge_values}
use helm_operator.Values.MergeLaws.{AllWellFormed, Merges, get-merge_values}
use helm_operator.Values.Compose.{
  Sources, read_source, compose_sources, compose_values, skipped, failed, found, finish_values,
  from_config_map, from_secret, or_text, read_entry, after_source,
}

-- What a key has after a list of maps, the later over the earlier.
pub data Overlays (k : String) : List Fields → Option Value → Option Value → Type 0 where
  bottom : {d : Option Value} → Overlays k [] d d
  over :
      {fs : Fields} {ls : List Fields} {d e r : Option Value}
      → Merges (get k fs) d e
      → Overlays k ls e r
      → Overlays k (fs ∷ ls) d r

Overlays-append :
    (k : String) (ls : List Fields) (fs : Fields) (d e r : Option Value)
    → Overlays k ls d e
    → Merges (get k fs) e r
    → Overlays k (ls ++ (fs ∷ [])) d r
Overlays-append k [] fs d _ r Overlays.bottom m = Overlays.over m Overlays.bottom
Overlays-append k (l ∷ ls) fs d e r (Overlays.over {e = f} n h) m =
    Overlays.over n (Overlays-append k ls fs f e r h m)

module _ {W : Type 0} (src : Sources W) (namespace chart_path : String) where
  -- The sources are read in order and none fails; the maps are those of the sources that are not
  -- skipped.
  pub data Reads : List ValuesFromSource → W → List Fields → W → Type 0 where
    done : {w : W} → Reads [] w [] w
    skips :
        {v : ValuesFromSource} {vs : List ValuesFromSource} {ls : List Fields} {w w₁ w₂ : W}
        → read_source src namespace chart_path v w ≡ (skipped, w₁)
        → Reads vs w₁ ls w₂
        → Reads (v ∷ vs) w ls w₂
    finds :
        {v : ValuesFromSource} {vs : List ValuesFromSource} {fs : Fields} {ls : List Fields}
        {w w₁ w₂ : W}
        → read_source src namespace chart_path v w ≡ (found fs, w₁)
        → Reads vs w₁ ls w₂
        → Reads (v ∷ vs) w (fs ∷ ls) w₂

  abbrev Layered : List ValuesFromSource → W → List Fields → W → Fields → Type 0
  Layered vs w ls w' start =
      (fs : Fields) × (compose_sources src namespace chart_path vs start w ≡ (ok fs, w'))
      × ((k : String) → Overlays k ls (get k start) (get k fs))

  compose_sources-layers :
      (vs : List ValuesFromSource) (w : W) (ls : List Fields) (w' : W) (start : Fields)
      → Reads vs w ls w'
      → All AllWellFormed ls
      → Layered vs w ls w' start
  unfolding compose_sources
  compose_sources-layers _ _ _ _ start done d = (start, refl, λ k. Overlays.bottom)
  compose_sources-layers (v ∷ vs) w ls w' start (skips {w₁ = w₁} h r) d =
      let rest = compose_sources-layers vs w₁ ls w' start r d in
      (
        rest.0,
        ap (after_source src (compose_sources src namespace chart_path vs) start) h ∙ rest.1,
        rest.2,
      )
  compose_sources-layers (v ∷ vs) w (fs ∷ ls) w' start (finds {w₁ = w₁} h r) (d, ds) =
      let rest = compose_sources-layers vs w₁ ls w' (merge_values start fs) r ds in
      (
        rest.0,
        ap (after_source src (compose_sources src namespace chart_path vs) start) h ∙ rest.1,
        λ k. Overlays.over (get-merge_values k fs start d) (rest.2 k),
      )

-- Where no source fails and no map, at any depth, repeats a key, the values are the text of a map that
-- has under each key what the sources that are not skipped have there, in their order, each merged
-- over those before it, and the values of the HelmRelease merged over all of them.
pub compose_values-layers :
    {W : Type 0} (src : Sources W) (hr : HelmRelease) (chart_path : String) (w w' : W)
    (ls : List Fields)
    → Reads src hr.namespace chart_path (get_values_from_sources hr) w ls w'
    → All AllWellFormed ls
    → AllWellFormed hr.spec.values
    → (fs : Fields) × (compose_values src hr chart_path w ≡ (src.marshal fs, w'))
      × ((k : String) → Overlays k (ls ++ (hr.spec.values ∷ [])) none (get k fs))
unfolding compose_values get
compose_values-layers src hr chart_path w w' ls r ds d =
    let (fs, run, keys) =
      compose_sources-layers src hr.namespace chart_path (get_values_from_sources hr) w ls w' end r
        ds in
    (
      merge_values fs hr.spec.values,
      ap (λ x. (finish_values src hr.spec.values x.0, x.1)) run,
      λ k.
          Overlays-append k ls hr.spec.values none (get k fs) _ (keys k)
            (get-merge_values k hr.spec.values fs d),
    )

-- Of two optional references to a key whose text is not YAML, that to a config map is skipped and
-- that to a secret fails.
pub optional_unparsed :
    {W : Type 0} (src : Sources W) (namespace : String) (cm : OptionalConfigMapKeySelector)
    (s : OptionalSecretKeySelector) (w : W) (m m' : List (String × String)) (text text' : String)
    (e e' : Error)
    → cm.optional ≡ true
    → s.optional ≡ true
    → (src.config_map (or_text cm.namespace namespace) cm.name w).0 ≡ ok m
    → (src.secret (or_text s.namespace namespace) s.name w).0 ≡ ok m'
    → lookup (or_text cm.key "values.yaml") m ≡ some text
    → lookup (or_text s.key "values.yaml") m' ≡ some text'
    → src.unmarshal text ≡ err e
    → src.unmarshal text' ≡ err e'
    → ((from_config_map src namespace cm w).0 ≡ skipped)
      × ((error : Error) × ((from_secret src namespace s w).0 ≡ failed error))
unfolding from_config_map from_secret
optional_unparsed src namespace cm s w m m' text text' e e' o o' h h' k k' u u' =
    let ns = or_text s.namespace namespace in
    let at =
      or_text s.key "values.yaml"
      ++s (" in " ++s ("Secret" ++s (" " ++s (ns ++s ("/" ++s s.name))))) in
    (
      rw (h, k, read_entry, u, o) refl,
      (
        plain ("unable to yaml.Unmarshal " ++s (src.show_bytes text' ++s (" from " ++s at))),
        rw (h', k', read_entry, u') refl,
      ),
    )
