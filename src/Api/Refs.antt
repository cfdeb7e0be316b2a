-- ===== src/Api/Refs.antt =====
-- References to objects that hold values (pkg/apis/helm.fluxcd.io/v1/types.go, and the sources of
-- values of types_helmrelease.go). A pointer is an `Option`.
use helm_operator.Base.{Bool, String, Option}

pub data ConditionStatus : Type 0 where
  condition_true condition_false condition_unknown : ConditionStatus

pub record LocalObjectReference : Type 0 where
  pub name : String

pub record ObjectReference : Type 0 where
  pub local : LocalObjectReference
  pub open local use *
  pub namespace : String

pub record ConfigMapKeySelector : Type 0 where
  pub local : LocalObjectReference
  pub open local use *
  pub namespace : String
  pub key : String

pub record OptionalConfigMapKeySelector : Type 0 where
  pub selector : ConfigMapKeySelector
  pub open selector use *
  pub optional : Bool

pub record SecretKeySelector : Type 0 where
  pub local : LocalObjectReference
  pub open local use *
  pub namespace : String
  pub key : String

pub record OptionalSecretKeySelector : Type 0 where
  pub selector : SecretKeySelector
  pub open selector use *
  pub optional : Bool

pub record AppInfo : Type 0 where
  pub app_id : String
  pub component_id : String
  pub log_collect : Bool
  pub istio_enabled : Bool

pub record ChartFileSelector : Type 0 where
  pub path : String
  pub optional : Option Bool

pub record ExternalSourceSelector : Type 0 where
  pub url : String
  pub optional : Option Bool

pub record ValuesFromSource : Type 0 where
  pub config_map_key_ref : Option OptionalConfigMapKeySelector
  pub secret_key_ref : Option OptionalSecretKeySelector
  pub external_source_ref : Option ExternalSourceSelector
  pub chart_file_ref : Option ChartFileSelector
