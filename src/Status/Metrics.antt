-- ===== src/Status/Metrics.antt =====
-- The gauge of the conditions of a release (pkg/status/metrics.go). The map holds pointers, which are
-- read from a memory after the loops. Go 1.17 has one variable `condition` for the whole loop over
-- the new conditions, at one address.
use helm_operator.Base.{
  Option, none, some, String, List, [], ◌∷◌, ℤ, pos, negsuc, if◌then◌else◌, ℕ, ◌==◌,
}
use helm_operator.Api.{
  HelmRelease, HelmReleaseConditionType, HelmReleaseCondition, ConditionStatus, condition_true,
  condition_false, condition_unknown, type_eq, get_release_name, get_target_namespace,
}
use helm_operator.Kube.{GaugeOp}

unfoldable pub gauge_value : ConditionStatus → ℤ
gauge_value condition_false = negsuc 0
gauge_value condition_unknown = pos 0
gauge_value condition_true = pos 1

abbrev pub type_string : HelmReleaseConditionType → String
type_string HelmReleaseConditionType.chart_fetched = "ChartFetched"
type_string HelmReleaseConditionType.deployed = "Deployed"
type_string HelmReleaseConditionType.released = "Released"
type_string HelmReleaseConditionType.rolled_back = "RolledBack"
type_string HelmReleaseConditionType.tested = "Tested"

-- What the addresses hold.
abbrev pub Memory : Type 0
Memory = ℕ → Option ConditionStatus

abbrev pub store : ℕ → ConditionStatus → Memory → Memory
store address status memory a = if a == address then some status else memory a

-- The address of `condition.Status` in the loop over the new conditions.
abbrev pub condition_address : ℕ
condition_address = 0

-- A cell of the map, `*v1.ConditionStatus`.
pub data Cell : Type 0 where
  nil : Cell
  pointer : ℕ → Cell

abbrev pub CellMap : Type 0
CellMap = List (HelmReleaseConditionType × Cell)

-- `conditions[type] = cell`
unfoldable pub put_cell : HelmReleaseConditionType → Cell → CellMap → CellMap
put_cell t v [] = (t, v) ∷ []
put_cell t v ((u, w) ∷ m) = if type_eq u t then (t, v) ∷ m else (u, w) ∷ put_cell t v m

-- The loop over the old conditions.
unfoldable pub put_old : List HelmReleaseCondition → CellMap → CellMap
put_old [] m = m
put_old (c ∷ cs) m = put_old cs (put_cell c.type Cell.nil m)

-- The loop over the new conditions: each is assigned to the variable, whose address is stored.
unfoldable pub put_new : List HelmReleaseCondition → CellMap × Memory → CellMap × Memory
put_new [] s = s
put_new (c ∷ cs) (m, memory) =
    put_new cs
      (put_cell c.type (Cell.pointer condition_address) m, store condition_address c.status memory)

-- The setting of a gauge to the status that was read; every pointer of the map is to something.
abbrev pub set_gauge :
    HelmRelease → HelmReleaseConditionType → Option ConditionStatus → List GaugeOp → List GaugeOp
set_gauge new t none ops = ops
set_gauge new t (some s) ops =
    GaugeOp.set (get_target_namespace new) (get_release_name new) (type_string t) (gauge_value s)
    ∷ ops

-- The last loop.
unfoldable pub gauge_ops : HelmRelease → HelmRelease → Memory → CellMap → List GaugeOp
gauge_ops old new memory [] = []
gauge_ops old new memory ((t, Cell.nil) ∷ m) =
    GaugeOp.delete (get_target_namespace old) (get_release_name old) (type_string t)
    ∷ gauge_ops old new memory m
gauge_ops old new memory ((t, Cell.pointer a) ∷ m) =
    set_gauge new t (memory a) (gauge_ops old new memory m)

-- `ObserveReleaseConditions(old, new)`; the map is walked in the order of its entries.
unfoldable pub observe_release_conditions : HelmRelease → Option HelmRelease → List GaugeOp
observe_release_conditions old none =
    gauge_ops old old (λ _. none) (put_old old.status.conditions [])
observe_release_conditions old (some new) =
    let (m, memory) = put_new new.status.conditions (put_old old.status.conditions [], λ _. none) in
    gauge_ops old new memory m
