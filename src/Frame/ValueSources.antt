-- ===== src/Frame/ValueSources.antt =====
-- The composition of values (pkg/release/values.go) keeps what its reads keep.
use helm_operator.Base.{List, Option, String, [], arith, none, some, ◌∷◌}
use helm_operator.Effects.{Result, ok, err}
use helm_operator.Api.{
  OptionalConfigMapKeySelector, OptionalSecretKeySelector, ExternalSourceSelector,
  ChartFileSelector, ValuesFromSource, Fields, HelmRelease, end, get_values_from_sources,
}
use helm_operator.Values.{
  Sources, Found, after_source, compose_sources, compose_values, read_source, from_config_map,
  from_secret, from_external, from_chart_file, read_url, or_text, merge_values, skipped, failed,
  found, get_parsed, read_ref,
}
use helm_operator.Frame.Laws.{SourcesKeeps}

module _ {W : Type 0} (P : W → Type 0) (src : Sources W) (keeps : SourcesKeeps P src) where
  read_url-kept : (url : String) (w : W) → P w → P (read_url src url w).1
  unfolding read_url
  read_url-kept url w p = parsed (src.parse_url url)
    where
      parsed : (r : Result (String × String)) → P (get_parsed src r w).1
      parsed (err e) = p
      parsed (ok (scheme, u)) = ground (arith, (keeps.http_get u).at w p)

  read_ref-kept :
      (ns path : String) (cm : Option OptionalConfigMapKeySelector)
      (s : Option OptionalSecretKeySelector) (es : Option ExternalSourceSelector)
      (cf : Option ChartFileSelector) (w : W)
      → P w
      → P (read_ref src ns path cm s es cf w).1
  unfolding from_config_map from_secret from_external from_chart_file
  read_ref-kept ns path (some cm) s es cf w p =
      (keeps.config_map (or_text cm.namespace ns) cm.name).at w p
  read_ref-kept ns path none (some s) es cf w p =
      (keeps.secret (or_text s.namespace ns) s.name).at w p
  read_ref-kept ns path none none (some es) cf w p = read_url-kept es.url w p
  read_ref-kept ns path none none none (some cf) w p =
      (keeps.read_file (src.join path cf.path)).at w p
  read_ref-kept ns path none none none none w p = p

  read_source-kept :
      (ns path : String) (v : ValuesFromSource) (w : W) → P w → P (read_source src ns path v w).1
  unfolding read_source
  read_source-kept ns path v w p =
      read_ref-kept ns path v.config_map_key_ref v.secret_key_ref v.external_source_ref
        v.chart_file_ref w p

  after_source-kept :
      (rest : Fields → W → Result Fields × W) (result : Fields) (x : Found × W)
      → P x.1
      → ((fs : Fields) (w : W) → P w → P (rest fs w).1)
      → P (after_source src rest result x).1
  after_source-kept rest result (skipped, w) p h = h result w p
  after_source-kept rest result (failed e, w) p h = p
  after_source-kept rest result (found fs, w) p h = h (merge_values result fs) w p

  compose_sources-kept :
      (ns path : String) (vs : List ValuesFromSource) (result : Fields) (w : W)
      → P w
      → P (compose_sources src ns path vs result w).1
  unfolding compose_sources
  compose_sources-kept ns path [] result w p = p
  compose_sources-kept ns path (v ∷ vs) result w p =
      after_source-kept (compose_sources src ns path vs) result (read_source src ns path v w)
        (read_source-kept ns path v w p) (compose_sources-kept ns path vs)

  pub compose_values-kept :
      (hr : HelmRelease) (path : String) (w : W) → P w → P (compose_values src hr path w).1
  unfolding compose_values
  compose_values-kept hr path w p =
      compose_sources-kept hr.namespace path (get_values_from_sources hr) end w p
