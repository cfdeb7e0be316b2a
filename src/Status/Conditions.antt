-- ===== src/Status/Conditions.antt =====
-- The list of conditions of a status (pkg/status/conditions.go).
use helm_operator.Base.{Option, none, some, List, [], ◌∷◌, ◌++◌, pos, inc_i64, if◌then◌else◌}
use helm_operator.Api.{
  HelmReleaseStatus, HelmReleaseConditionType, HelmReleaseCondition, ConditionStatus,
  condition_true, type_eq, status_eq,
}

-- `GetCondition`: the first condition of the type.
unfoldable pub get_condition :
    List HelmReleaseCondition → HelmReleaseConditionType → Option HelmReleaseCondition
get_condition [] type = none
get_condition (c ∷ cs) type = if type_eq c.type type then some c else get_condition cs type

unfoldable pub filter_out_condition :
    List HelmReleaseCondition → HelmReleaseConditionType → List HelmReleaseCondition
filter_out_condition [] type = []
filter_out_condition (c ∷ cs) type =
    if type_eq c.type type then filter_out_condition cs type else c ∷ filter_out_condition cs type

-- A condition whose status has not changed keeps its time of transition.
abbrev pub keep_transition :
    Option HelmReleaseCondition → HelmReleaseCondition → HelmReleaseCondition
keep_transition none condition = condition
keep_transition (some current) condition =
    if status_eq current.status condition.status
    then record condition { last_transition_time = current.last_transition_time }
    else condition

-- The `switch` on what was set: the end of a release, or a rollback.
settle : HelmReleaseConditionType → ConditionStatus → HelmReleaseStatus → HelmReleaseStatus
settle HelmReleaseConditionType.released condition_true s = record s {
  conditions = filter_out_condition s.conditions HelmReleaseConditionType.rolled_back;
  rollback_count = pos 0;
}
settle HelmReleaseConditionType.rolled_back condition_true s = record s {
  rollback_count = inc_i64 s.rollback_count;
}
settle _ _ s = s

-- One round of the loop of `SetConditions`: `old` is the status of `hr`, `s` that of its copy.
unfoldable pub set_condition :
    HelmReleaseStatus → HelmReleaseStatus → HelmReleaseCondition → HelmReleaseStatus
unfolding settle
set_condition old s condition =
    let condition' = keep_transition (get_condition old.conditions condition.type) condition in
    settle condition.type condition.status (record s {
      conditions = filter_out_condition s.conditions condition.type ++ (condition' ∷ []);
    })

unfoldable pub set_all :
    HelmReleaseStatus → HelmReleaseStatus → List HelmReleaseCondition → HelmReleaseStatus
set_all old s [] = s
set_all old s (c ∷ cs) = set_all old (set_condition old s c) cs
