-- ===== src/Values/Compose.antt =====
-- The composition of values from their sources (`composeValues`, pkg/release/values.go). A source
-- is skipped, fails, or gives a map.
use helm_operator.Base.{
  lookup, Bool, List, Option, String, [], false, if◌then◌else◌, none, some, str_eq, ℕ, ◌&&◌, ◌++s◌,
  ◌==◌, ◌||◌, ◌∷◌,
}
use helm_operator.Effects.{Call, Result, ok, err}
use helm_operator.Errors.{Error, is_not_found, plain}
use helm_operator.Api.{
  OptionalConfigMapKeySelector, OptionalSecretKeySelector, ExternalSourceSelector,
  ChartFileSelector, ValuesFromSource, Fields, HelmRelease, end, get_values_from_sources,
}
use helm_operator.Values.Merge.{merge_values}

-- A response to a GET; reading its body may fail.
pub record Answer : Type 0 where
  pub status : String
  pub status_code : ℕ
  pub body : Result String

-- What the composition reads: config maps and secrets, URLs, files, and YAML. `show_bytes` prints
-- the contents of a secret or a file in an error, and `show_number` a number.
pub record Sources (W : Type 0) : Type 0 where
  pub config_map : String → String → Call W (Result (List (String × String)))
  pub secret : String → String → Call W (Result (List (String × String)))
  pub parse_url : String → Result (String × String)
  pub http_get : String → Call W (Result Answer)
  pub read_file : String → Call W (Result String)
  pub join : String → String → String
  pub unmarshal : String → Result Fields
  pub marshal : Fields → Result String
  pub show_bytes : String → String
  pub show_number : ℕ → String

pub data Found : Type 0 where
  skipped : Found
  failed : Error → Found
  found : Fields → Found

abbrev pub or_text : String → String → String
or_text s d = if str_eq s "" then d else s

abbrev pub flag : Option Bool → Bool
flag none = false
flag (some b) = b

-- An error that an optional source forgives.
abbrev pub forgive : Bool → Error → Found
forgive optional e = if optional then skipped else failed e

module _ {W : Type 0} (src : Sources W) where
  -- The text of a key: whether a parse error of it is forgiven, and the errors of a missing key
  -- and of a parse.
  abbrev pub read_entry : Bool → Bool → Error → (String → Error) → Option String → Found
  read_entry optional forgiving missing unparsed none = forgive optional missing
  read_entry optional forgiving missing unparsed (some d) = elim (src.unmarshal d) [
    | ok fs ↦ found fs
    | err _ ↦ forgive forgiving (unparsed d)
  ]

  abbrev place : String → String → String → String
  place kind ns name = " in " ++s (kind ++s (" " ++s (ns ++s ("/" ++s name))))

  unfoldable pub from_config_map : String → OptionalConfigMapKeySelector → Call W Found
  from_config_map namespace cm w =
      let ns = or_text cm.namespace namespace in
      let key = or_text cm.key "values.yaml" in
      let at = place "ConfigMap" ns cm.name in
      let (r, w₁) = src.config_map ns cm.name w in
      (
        elim r [
          | err e ↦ (if is_not_found e && cm.optional then skipped else failed e)
          | ok m ↦
              read_entry cm.optional cm.optional (plain ("could not find key " ++s (key ++s at)))
                (λ d. plain ("unable to yaml.Unmarshal " ++s (d ++s (" from " ++s (key ++s at)))))
                (lookup key m)
        ],
        w₁,
      )

  unfoldable pub from_secret : String → OptionalSecretKeySelector → Call W Found
  from_secret namespace s w =
      let ns = or_text s.namespace namespace in
      let key = or_text s.key "values.yaml" in
      let at = place "Secret" ns s.name in
      let (r, w₁) = src.secret ns s.name w in
      (
        elim r [
          | err e ↦ (if is_not_found e && s.optional then skipped else failed e)
          | ok m ↦
              read_entry s.optional false (plain ("could not find key " ++s (key ++s at)))
                (λ d. plain (
                  "unable to yaml.Unmarshal "
                  ++s (src.show_bytes d ++s (" from " ++s (key ++s at)))))
                (lookup key m)
        ],
        w₁,
      )

  abbrev pub answer_body : Result Answer → Result String
  answer_body (err e) = err e
  answer_body (ok a) =
      if a.status_code == 200
      then a.body
      else err (
          plain (
            "failed to retrieve file from URL, status '"
            ++s (a.status ++s (" (" ++s (src.show_number a.status_code ++s ")'")))))

  abbrev pub get_parsed : Result (String × String) → Call W (Result String)
  get_parsed (err e) w = (err e, w)
  get_parsed (ok (scheme, u)) w =
      if str_eq scheme "http" || str_eq scheme "https"
      then (let (r, w₁) = src.http_get u w in (answer_body r, w₁))
      else (err (plain ("URL scheme should be HTTP(S), got '" ++s (scheme ++s "'"))), w)

  -- `readURL`: the scheme and the text of the parsed URL, and a GET that must be answered by 200.
  unfoldable pub read_url : String → Call W (Result String)
  read_url url w = get_parsed (src.parse_url url) w

  -- A file that was read from elsewhere: all its errors are forgiven alike.
  abbrev pub read_whole : Bool → String → Result String → Found
  read_whole optional at (err _) =
      forgive optional (plain ("unable to read value file from" ++s at))
  read_whole optional at (ok b) = elim (src.unmarshal b) [
    | ok fs ↦ found fs
    | err _ ↦
        forgive optional
          (plain ("unable to yaml.Unmarshal " ++s (src.show_bytes b ++s (" from" ++s at))))
  ]

  unfoldable pub from_external : ExternalSourceSelector → Call W Found
  unfolding read_url
  from_external es w =
      let (r, w₁) = read_url es.url w in (read_whole (flag es.optional) (" URL " ++s es.url) r, w₁)

  unfoldable pub from_chart_file : String → ChartFileSelector → Call W Found
  from_chart_file chart_path cf w =
      let (r, w₁) = src.read_file (src.join chart_path cf.path) w in
      (read_whole (flag cf.optional) (" path " ++s cf.path) r, w₁)

  -- The `switch`: the first reference that is set. A source with none gives nothing.
  abbrev pub read_ref :
      String
      → String
      → Option OptionalConfigMapKeySelector
      → Option OptionalSecretKeySelector
      → Option ExternalSourceSelector
      → Option ChartFileSelector
      → Call W Found
  read_ref namespace chart_path (some cm) s es cf w = from_config_map namespace cm w
  read_ref namespace chart_path none (some s) es cf w = from_secret namespace s w
  read_ref namespace chart_path none none (some es) cf w = from_external es w
  read_ref namespace chart_path none none none (some cf) w = from_chart_file chart_path cf w
  read_ref namespace chart_path none none none none w = (found end, w)

  unfoldable pub read_source : String → String → ValuesFromSource → Call W Found
  unfolding from_config_map from_secret from_external from_chart_file
  read_source namespace chart_path v w =
      read_ref namespace chart_path v.config_map_key_ref v.secret_key_ref v.external_source_ref
        v.chart_file_ref w

  -- The end of a round, before the rest of the sources.
  abbrev pub after_source :
      (Fields → Call W (Result Fields)) → Fields → Found × W → Result Fields × W
  after_source rest result (skipped, w) = rest result w
  after_source rest result (failed e, w) = (err e, w)
  after_source rest result (found fs, w) = rest (merge_values result fs) w

  -- The loop over the sources.
  unfoldable pub compose_sources :
      String → String → List ValuesFromSource → Fields → Call W (Result Fields)
  compose_sources namespace chart_path [] result w = (ok result, w)
  compose_sources namespace chart_path (v ∷ vs) result w =
      after_source (compose_sources namespace chart_path vs) result
        (read_source namespace chart_path v w)

  abbrev pub finish_values : Fields → Result Fields → Result String
  finish_values own (err e) = err e
  finish_values own (ok result) = src.marshal (merge_values result own)

  unfoldable pub compose_values : HelmRelease → String → Call W (Result String)
  compose_values hr chart_path w =
      let (r, w₁) = compose_sources hr.namespace chart_path (get_values_from_sources hr) end w in
      (finish_values hr.spec.values r, w₁)
