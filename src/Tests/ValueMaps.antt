-- ===== src/Tests/ValueMaps.antt =====
-- Values that are merged and composed.
use helm_operator.Base.{
  lookup, String, [], if◌then◌else◌, none, refl, some, str_eq, true, ℕ, ◌++s◌, ◌+◌, ◌∷◌, ◌≡◌,
}
use helm_operator.Api.{
  Fields, ValuesFromSource, HelmRelease, OptionalConfigMapKeySelector, OptionalSecretKeySelector,
  end, field, text, object, get_values_from_sources,
}
use helm_operator.Effects.{ok, err}
use helm_operator.Errors.{plain}
use helm_operator.Values.{
  set, Sources, get, merge_values, compose_values, from_config_map, read_source, merge_value,
  merge_into,
}
use helm_operator.Values.MergeLaws.{AllWellFormed, WellFormed, Merges, get-merge_values}
use helm_operator.Values.ComposeLaws.{Reads, Overlays, compose_values-layers}
use helm_operator.Tests.Cluster.{web, web_spec}

abbrev defaults : Fields
defaults =
    field "image" (object (field "tag" (text "1") (field "name" (text "web") end)))
      (field "port" (text "80") end)

abbrev overrides : Fields
overrides =
    field "image" (object (field "tag" (text "2") end)) (field "host" (text "a.example") end)

overrides-AllWellFormed : AllWellFormed overrides
unfolding AllWellFormed WellFormed get
overrides-AllWellFormed = (refl, ((refl, (tt, tt)), (refl, (tt, tt))))

defaults-AllWellFormed : AllWellFormed defaults
unfolding AllWellFormed WellFormed get
defaults-AllWellFormed = (refl, ((refl, (tt, (refl, (tt, tt)))), (refl, (tt, tt))))

get-merge_values_example :
    Merges
      (some (object (field "tag" (text "2") end)))
      (some (object (field "tag" (text "1") (field "name" (text "web") end))))
      (some (object (field "tag" (text "2") (field "name" (text "web") end))))
unfolding get merge_value merge_into merge_values set
get-merge_values_example = get-merge_values "image" overrides defaults overrides-AllWellFormed

-- Config maps and secrets hold one key, whose text is YAML only in the config map `values`.
abbrev pub sources : Sources ℕ
sources = record {
  config_map = λ ns name w. (ok (("values.yaml", name) ∷ []), w + 1);
  secret = λ ns name w. (ok (("values.yaml", name) ∷ []), w + 1);
  parse_url = λ url. err (plain "not a URL");
  http_get = λ url w. (err (plain "no route to host"), w + 1);
  read_file = λ path w. (err (plain "no such file"), w + 1);
  join = λ a b. a ++s ("/" ++s b);
  unmarshal = λ t. (if str_eq t "values" then ok defaults else err (plain "not YAML"));
  marshal = λ fs. ok "YAML";
  show_bytes = λ t. t;
  show_number = λ n. "";
}

abbrev map_ref : String → OptionalConfigMapKeySelector
map_ref name = record {
  selector = record { local = record { name = name }; namespace = ""; key = "" };
  optional = true;
}

abbrev secret_ref : String → OptionalSecretKeySelector
secret_ref name = record {
  selector = record { local = record { name = name }; namespace = ""; key = "" };
  optional = true;
}

abbrev from_map : String → ValuesFromSource
from_map name = record {
  config_map_key_ref = some (map_ref name);
  secret_key_ref = none;
  external_source_ref = none;
  chart_file_ref = none;
}

-- A HelmRelease with values from two config maps, the first of which is not YAML.
abbrev layered : HelmRelease
layered = record web {
  spec = record web_spec {
    values_from = from_map "notes" ∷ from_map "values" ∷ [];
    values = overrides;
  };
}

layered-Reads :
    Reads sources "apps" "/tmp/web" (from_map "notes" ∷ from_map "values" ∷ []) 0 (defaults ∷ []) 2
unfolding read_source from_config_map lookup
layered-Reads = Reads.skips refl (Reads.finds refl Reads.done)

compose_values-layers_example :
    (fs : Fields) × (compose_values sources layered "/tmp/web" 0 ≡ (ok "YAML", 2))
    × ((k : String) → Overlays k (defaults ∷ overrides ∷ []) none (get k fs))
unfolding get get_values_from_sources
compose_values-layers_example =
    compose_values-layers sources layered "/tmp/web" 0 2 (defaults ∷ []) layered-Reads
      (defaults-AllWellFormed, tt) overrides-AllWellFormed
