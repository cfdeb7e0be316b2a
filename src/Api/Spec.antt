-- ===== src/Api/Spec.antt =====
-- The specification of a HelmRelease (pkg/apis/helm.fluxcd.io/v1/types_helmrelease.go).
-- `HelmValues` is the decoded JSON object; an int is taken at 64 bits.
use helm_operator.Base.{Bool, String, Option, List, ℤ}
use helm_operator.Api.Refs.{LocalObjectReference, ObjectReference, AppInfo, ValuesFromSource}

pub record GitChartSource : Type 0 where
  pub git_url : String
  pub ref : String
  pub path : String
  pub secret_ref : Option ObjectReference
  pub skip_dep_update : Bool

pub record RepoChartSource : Type 0 where
  pub repo_url : String
  pub name : String
  pub version : String
  pub chart_pull_secret : Option LocalObjectReference

pub record Oss : Type 0 where
  pub cloud_provider : String
  pub region_id : String
  pub ack_id : String
  pub ack_secret : String
  pub bucket : String
  pub key : String
  pub ack_encrypted : Bool
  pub use_cache : Bool

pub record Customize : Type 0 where
  pub key : String
  pub use_cache : Bool

pub record ChartSource : Type 0 where
  pub git_chart_source : Option GitChartSource
  pub repo_chart_source : Option RepoChartSource
  pub oss : Option Oss
  pub customize : Option Customize

pub record Rollback : Type 0 where
  pub enable : Bool
  pub retry : Bool
  pub max_retries : Option ℤ
  pub force : Bool
  pub recreate : Bool
  pub disable_hooks : Bool
  pub timeout : Option ℤ
  pub wait : Bool

pub record Test : Type 0 where
  pub enable : Bool
  pub ignore_failures : Option Bool
  pub timeout : Option ℤ
  pub cleanup : Option Bool

-- A value of the JSON object that `interface{}` holds. A number is kept as its literal.
mutual
  pub data Value : Type 0 where
    null : Value
    boolean : Bool → Value
    number : String → Value
    text : String → Value
    array : Items → Value
    object : Fields → Value

  pub data Items : Type 0 where
    nil : Items
    cons : Value → Items → Items

  -- `map[string]interface{}`, by its entries.
  pub data Fields : Type 0 where
    end : Fields
    field : String → Value → Fields → Fields

pub record HelmReleaseSpec : Type 0 where
  pub app_info : AppInfo
  pub helm_version : String
  pub chart_source : ChartSource
  pub release_name : String
  pub max_history : Option ℤ
  pub value_file_secrets : Option (List LocalObjectReference)
  pub values_from : List ValuesFromSource
  pub target_namespace : String
  pub timeout : Option ℤ
  pub reset_values : Option Bool
  pub skip_crds : Bool
  pub wait : Option Bool
  pub force_upgrade : Bool
  pub rollback : Rollback
  pub test : Test
  pub values : Fields
  pub disable_open_api_validation : Bool
