-- ===== src/Errors/Message.antt =====
-- The `Error` methods of engine/errors.go and engine/plan.go.
use pulumi_engine.Prelude.{String, ◌==◌, List, [], ◌∷◌, is_empty, length, if◌then◌else◌}
use pulumi_engine.Text.{concat, join, trim_space, quote, decimal}
use pulumi_engine.Errors.{
  GoError, ResourceOpFailed, PlanViolationResource, Unsupported, kind_name, invalid_spec,
  resource_op_failed, program_failed, concurrent_update, concurrent_update_nil, stack_not_found,
  stack_exists, pending_operations, cancelled, plan_violation, unsupported, unclassified, wrapped,
  joined, foreign,
}

violation_parts : List PlanViolationResource → List String
violation_parts [] = []
violation_parts (r ∷ rs) = concat (r.urn ∷ ": " ∷ trim_space r.message ∷ []) ∷ violation_parts rs

resource_op_text : ResourceOpFailed → String
resource_op_text r =
    let msg = if r.message == "" then "resource operation failed" else r.message in
    concat (r.op ∷ " " ∷ r.type ∷ " (" ∷ r.urn ∷ "): " ∷ trim_space msg ∷ [])

unsupported_text : Unsupported → String
unsupported_text u = concat (
    u.feature
    ∷ " is not supported"
    ∷ (if u.backend == "" then "" else concat (" on " ∷ u.backend ∷ " backends" ∷ []))
    ∷ (if u.message == "" then "" else concat (": " ∷ u.message ∷ []))
    ∷ [])

-- `err.Error()`
unfoldable pub error_text : GoError → String
unfolding violation_parts resource_op_text unsupported_text
error_text (invalid_spec i) = concat ("invalid spec: " ∷ i.field ∷ ": " ∷ i.message ∷ [])
error_text (resource_op_failed r) = resource_op_text r
error_text (program_failed m) =
    if m == "" then "program failed" else concat ("program failed: " ∷ trim_space m ∷ [])
error_text (concurrent_update e) =
    concat ("another update is in progress on this stack: " ∷ error_text e ∷ [])
error_text concurrent_update_nil = "another update is in progress on this stack"
error_text (stack_not_found n) = concat ("stack " ∷ quote n ∷ " not found" ∷ [])
error_text (stack_exists n) = concat ("stack " ∷ quote n ∷ " already exists" ∷ [])
error_text (pending_operations us e) =
    concat ("stack has " ∷ decimal (length us) ∷ " pending operation(s): " ∷ error_text e ∷ [])
error_text (cancelled k) = concat (kind_name k ∷ " cancelled" ∷ [])
error_text (plan_violation rs) =
    if is_empty rs
    then "update violates the plan"
    else concat ("update violates the plan: " ∷ join "; " (violation_parts rs) ∷ [])
error_text (unsupported u) = unsupported_text u
error_text (unclassified e) = error_text e
error_text (wrapped m e) = concat (m ∷ ": " ∷ error_text e ∷ [])
error_text (joined d e) = concat (error_text d ∷ "\n" ∷ error_text e ∷ [])
error_text (foreign c m) = m
