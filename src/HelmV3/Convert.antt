-- ===== src/HelmV3/Convert.antt =====
-- The conversion of a release of Helm 2 (pkg/helm/v3/converter.go). The releases of both versions
-- and their storage are of other code, and parameters.
use Prim.Native.Char.{code}
use helm_operator.Base.{
  Bool, List, Option, String, [], false, if◌then◌else◌, length, ltb, none, some, true, ◌&&◌, ◌==◌,
  ◌||◌, ◌∷◌,
}
use helm_operator.Errors.{Error, error}
use helm_operator.Effects.{Result, ok, err, Call}

pub record Converter : Type 0 where
  pub tiller_namespace : String
  pub kube_config : String
  pub tiller_out_cluster : Bool
  pub storage_type : String

-- Where the plugin looks for a release of Helm 2.
pub record RetrieveOptions : Type 0 where
  pub release_name : String
  pub tiller_namespace : String
  pub tiller_out_cluster : Bool
  pub storage_type : String

-- The functions of the 2to3 plugin, each with the file of the configuration of the cluster.
pub record Plugin (W V2 V3 : Type 0) : Type 0 where
  pub get_release_versions : RetrieveOptions → String → Call W (List V2 × Option Error)
  pub create_release : V2 → Result V3
  pub store_release : V3 → String → Call W (Option Error)
  pub delete_all_release_versions : RetrieveOptions → String → Bool → Call W (Option Error)

-- `strings.Contains(s, t)`
is_prefix : String → String → Bool
is_prefix String.[] s = true
is_prefix (String.◌∷◌ c t) String.[] = false
is_prefix (String.◌∷◌ c t) (String.◌∷◌ d s) = (code c == code d) && is_prefix t s

unfoldable pub contains : String → String → Bool
unfolding is_prefix
contains String.[] t = is_prefix t ""
contains (String.◌∷◌ c s) t = is_prefix t (String.◌∷◌ c s) || contains s t

module _ {W V2 V3 : Type 0} (p : Plugin W V2 V3) (c : Converter) where
  abbrev pub exists_of : List V2 × Option Error → Result Bool
  exists_of (releases, none) = ok (ltb 0 (length releases))
  exists_of (releases, some e) =
      if contains (error e) "has no deployed releases" then ok (ltb 0 (length releases)) else err e

  abbrev pub exists_opts : String → RetrieveOptions
  exists_opts name = record {
    release_name = name;
    tiller_namespace = c.tiller_namespace;
    tiller_out_cluster = c.tiller_out_cluster;
    storage_type = c.storage_type;
  }

  -- The options of `Convert`, where the other two fields have their zero values.
  abbrev pub convert_opts : String → RetrieveOptions
  convert_opts name = record {
    release_name = name;
    tiller_namespace = c.tiller_namespace;
    tiller_out_cluster = false;
    storage_type = "";
  }

  -- `V2ReleaseExists`
  unfoldable pub v2_release_exists : String → Call W (Result Bool)
  v2_release_exists name w =
      let (found, w₁) = p.get_release_versions (exists_opts name) c.kube_config w in
      (exists_of found, w₁)

  abbrev pub created : Result V3 → Call W (Option Error)
  created (err e) w = (some e, w)
  created (ok r) w = p.store_release r c.kube_config w

  -- The end of a round of the loop, before the rest of the releases.
  abbrev pub or_next : Option Error × W → (W → Option Error × W) → Option Error × W
  or_next (some e, w) rest = (some e, w)
  or_next (none, w) rest = rest w

  -- The loop over the releases.
  unfoldable pub store_all : List V2 → Call W (Option Error)
  store_all [] w = (none, w)
  store_all (r ∷ rs) w = or_next (created (p.create_release r) w) (store_all rs)

  abbrev pub converted : String → Bool → (List V2 × Option Error) × W → Option Error × W
  converted name dry_run ((_, some e), w) = (some e, w)
  converted name dry_run ((releases, none), w) =
      or_next (if dry_run then (none, w) else store_all releases w)
        (p.delete_all_release_versions (convert_opts name) c.kube_config dry_run)

  -- `Convert`
  unfoldable pub convert : String → Bool → Call W (Option Error)
  convert name dry_run w =
      converted name dry_run (p.get_release_versions (convert_opts name) c.kube_config w)
