-- ===== src/Api/Getters.antt =====
-- The accessors of a HelmRelease, with their defaults
-- (pkg/apis/helm.fluxcd.io/v1/types_helmrelease.go). A duration is in nanoseconds, an int64.
use helm_operator.Base.{
  ℕ, Bool, true, false, not, ◌||◌, String, ◌++s◌, Option, none, some, List, ◌++◌, map, ℤ, pos,
  scale_i64, str_eq, if◌then◌else◌,
}
use helm_operator.Api.Refs.{LocalObjectReference, ValuesFromSource}
use helm_operator.Api.Spec.{GitChartSource, Rollback, Test}
use helm_operator.Api.Status.{HelmRelease}

unfoldable pub get_defaulted_namespace : HelmRelease → String
get_defaulted_namespace hr = if str_eq hr.namespace "" then "default" else hr.namespace

unfoldable pub get_target_namespace : HelmRelease → String
unfolding get_defaulted_namespace
get_target_namespace hr =
    if str_eq hr.spec.target_namespace ""
    then get_defaulted_namespace hr
    else hr.spec.target_namespace

unfoldable pub get_release_name : HelmRelease → String
unfolding get_defaulted_namespace get_target_namespace
get_release_name hr =
    let namespace = get_defaulted_namespace hr in
    let target = get_target_namespace hr in
    if str_eq hr.spec.release_name ""
    then (if str_eq namespace target
        then target ++s ("-" ++s hr.name)
        else namespace ++s ("-" ++s (target ++s ("-" ++s hr.name))))
    else hr.spec.release_name

unfoldable pub get_helm_version : HelmRelease → String → String
get_helm_version hr default_version =
    if str_eq hr.spec.helm_version ""
    then (if str_eq default_version "" then "v2" else default_version)
    else hr.spec.helm_version

abbrev pub second : ℕ
second = 1000000000

-- The three `GetTimeout` methods read a pointer to a number of seconds alike.
unfoldable pub timeout_or_default : Option ℤ → ℤ
timeout_or_default none = scale_i64 (pos 300) second
timeout_or_default (some t) = scale_i64 t second

unfoldable pub get_timeout : HelmRelease → ℤ
unfolding timeout_or_default
get_timeout hr = timeout_or_default hr.spec.timeout

unfoldable pub rollback_get_timeout : Rollback → ℤ
unfolding timeout_or_default
rollback_get_timeout r = timeout_or_default r.timeout

unfoldable pub test_get_timeout : Test → ℤ
unfolding timeout_or_default
test_get_timeout t = timeout_or_default t.timeout

abbrev or_default {ℓ} : {A : Type ℓ} → A → Option A → A
or_default d none = d
or_default d (some a) = a

unfoldable pub get_max_history : HelmRelease → ℤ
get_max_history hr = or_default (pos 10) hr.spec.max_history

unfoldable pub get_max_retries : Rollback → ℤ
get_max_retries r = or_default (pos 5) r.max_retries

unfoldable pub get_ignore_failures : Test → Bool
get_ignore_failures t = or_default false t.ignore_failures

unfoldable pub get_cleanup : Test → Bool
get_cleanup t = or_default true t.cleanup

abbrev negated_or_false : Option Bool → Bool
negated_or_false none = false
negated_or_false (some b) = not b

unfoldable pub get_reuse_values : HelmRelease → Bool
get_reuse_values hr = negated_or_false hr.spec.reset_values

unfoldable pub get_wait : HelmRelease → Bool
get_wait hr = or_default (hr.spec.rollback.enable || hr.spec.test.enable) hr.spec.wait

-- `&OptionalSecretKeySelector{}` with its name set.
abbrev secret_source : LocalObjectReference → ValuesFromSource
secret_source ref = record {
  config_map_key_ref = none;
  secret_key_ref = some (record {
    selector = record { local = record { name = ref.name }; namespace = ""; key = "" };
    optional = false;
  });
  external_source_ref = none;
  chart_file_ref = none;
}

prepend_secrets : Option (List LocalObjectReference) → List ValuesFromSource → List ValuesFromSource
prepend_secrets none values_from = values_from
prepend_secrets (some refs) values_from = map secret_source refs ++ values_from

unfoldable pub get_values_from_sources : HelmRelease → List ValuesFromSource
unfolding prepend_secrets
get_values_from_sources hr = prepend_secrets hr.spec.value_file_secrets hr.spec.values_from

unfoldable pub ref_or_default : GitChartSource → String → String
ref_or_default s default_git_ref = if str_eq s.ref "" then default_git_ref else s.ref
