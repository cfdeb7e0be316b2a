-- ===== src/Values/Merge.antt =====
-- The merge of two maps of values (`mergeValues`, pkg/release/values.go). Go walks the source in
-- any order; here it is the order of its entries.
use helm_operator.Base.{Option, String, if◌then◌else◌, none, some, str_eq}
use helm_operator.Api.{object, Fields, Value, field, end}

-- `dest[k]`, if the key is there.
unfoldable pub get : String → Fields → Option Value
get k end = none
get k (field j v fs) = if str_eq j k then some v else get k fs

-- `dest[k] = v`
unfoldable pub set : String → Value → Fields → Fields
set k v end = field k v end
set k v (field j u fs) = if str_eq j k then field j v fs else field j u (set k v fs)

unfoldable mutual
  -- What the loop stores for the value `v` of the source, given that of the destination.
  pub merge_value : Value → Option Value → Value
  merge_value (object next) (some (object dest)) = object (merge_into next dest)
  merge_value v _ = v

  -- The loop over the source, the first argument.
  pub merge_into : Fields → Fields → Fields
  merge_into end dest = dest
  merge_into (field k v src) dest = merge_into src (set k (merge_value v (get k dest)) dest)

-- `mergeValues(dest, src)`
unfoldable pub merge_values : Fields → Fields → Fields
merge_values dest src = merge_into src dest
