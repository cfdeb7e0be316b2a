-- ===== src/HelmV3/Client/Generic.antt =====
-- Releases of the library as generic releases (pkg/helm/v3/release.go).
use helm_operator.Base.{
  Bool, List, String, [], get_or, if◌then◌else◌, ltb_ℤ, map, pos, str_eq, ℕ, ◌∷◌,
}
use helm_operator.Api.{Fields}
use helm_operator.Effects.{ok, err, Result}
use helm_operator.Helm.{Status, Info, File, Chart, Release}
use helm_operator.HelmV3.Calls.{Library}

-- `sort.SliceStable` with the order that `precedes` tests: an element goes behind those that it does
-- not precede.
module _ {A : Type 0} (precedes : A → A → Bool) where
  unfoldable pub insert_sorted : A → List A → List A
  insert_sorted x [] = x ∷ []
  insert_sorted x (y ∷ ys) = if precedes y x then y ∷ insert_sorted x ys else x ∷ y ∷ ys

  unfoldable pub slice_stable : List A → List A
  slice_stable [] = []
  slice_stable (x ∷ xs) = insert_sorted x (slice_stable xs)

abbrev pub to_file : String × List ℕ → File
to_file (name, bytes) = record { name = name; contents = bytes }

abbrev pub statuses : List Status
statuses =
    Status.unknown ∷ Status.deployed ∷ Status.uninstalled ∷ Status.superseded ∷ Status.failed
    ∷ Status.uninstalling ∷ Status.pending_install ∷ Status.pending_upgrade
    ∷ Status.pending_rollback ∷ []

module _ {W R C V : Type 0} (lib : Library W R C V) where
  -- The map of the statuses, by the constants of the library, and what it has for a text.
  unfoldable pub status_in : List Status → String → Status
  status_in [] s = Status.unknown
  status_in (c ∷ cs) s = if str_eq (lib.status_constant c) s then c else status_in cs s

  -- `lookUpGenericStatus`
  unfoldable pub look_up_generic_status : String → Status
  look_up_generic_status = status_in statuses

  -- `formatVersion`
  abbrev pub format_version : C → String
  format_version c = get_or (lib.metadata_version c) ""

  -- `seq.Compare(x, y) > 0`
  abbrev pub precedes_file : String × List ℕ → String × List ℕ → Bool
  precedes_file x y = ltb_ℤ (pos 0) (lib.compare x y)

  -- `filesToGenericFiles`
  unfoldable pub files_to_generic_files : List (String × List ℕ) → List File
  files_to_generic_files fs = map to_file (slice_stable precedes_file fs)

  -- `chartToGenericChart`
  unfoldable pub chart_to_generic_chart : C → Chart
  chart_to_generic_chart c = record {
    name = lib.chart_name c;
    version = format_version c;
    app_version = lib.app_version c;
    values = lib.chart_values c;
    templates = files_to_generic_files (lib.templates c);
  }

  -- `infoToGenericInfo`
  unfoldable pub info_to_generic_info : R → Info
  info_to_generic_info r = record {
    last_deployed = lib.last_deployed r;
    description = lib.description r;
    status = look_up_generic_status (lib.status r);
  }

  abbrev pub as_map_or : V → Result V → Fields
  as_map_or c (ok gv) = lib.as_map gv
  as_map_or c (err _) = lib.as_map c

  abbrev pub reread : V → Result String → Fields
  reread c (ok s) = as_map_or c (lib.read_values s)
  reread c (err _) = lib.as_map c

  -- `configToGenericValues`
  unfoldable pub config_to_generic_values : V → Fields
  config_to_generic_values c = reread c (lib.yaml c)

  -- `releaseToGenericRelease`
  unfoldable pub release_to_generic_release : R → Release
  release_to_generic_release r = record {
    name = lib.name r;
    namespace = lib.namespace r;
    chart = chart_to_generic_chart (lib.chart r);
    info = info_to_generic_info r;
    values = config_to_generic_values (lib.config r);
    manifest = lib.manifest r;
    version = lib.version r;
  }
