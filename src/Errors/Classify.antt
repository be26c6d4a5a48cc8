-- ===== src/Errors/Classify.antt =====
-- `KindOf`, `classifyBackendError` and `isLockError` of engine/errors.go.
use pulumi_engine.Prelude.{String, Bool, ◌||◌, if◌then◌else◌}
use pulumi_engine.Text.{contains}
use pulumi_engine.Errors.{
  ErrorKind, Foreign, GoError, concurrent_update, stack_not_found, stack_exists, unclassified,
  as_invalid, as_plan, as_resource_op, as_program, as_concurrent, as_not_found, as_exists,
  as_pending, as_cancelled, as_unsupported, has, has_foreign,
}
use pulumi_engine.Errors.Message.{error_text}

unfoldable pub kind_of : GoError → ErrorKind
kind_of e =
    if has as_invalid e
    then ErrorKind.invalid_spec
    else if has as_plan e
    then ErrorKind.plan_violation
    else if has as_resource_op e
    then ErrorKind.resource_op_failed
    else if has as_program e
    then ErrorKind.program_failed
    else if has as_concurrent e
    then ErrorKind.concurrent_update
    else if has as_not_found e
    then ErrorKind.stack_not_found
    else if has as_exists e
    then ErrorKind.stack_exists
    else if has as_pending e
    then ErrorKind.pending_operations
    else if has as_cancelled e
    then ErrorKind.cancelled
    else if has as_unsupported e
    then ErrorKind.unsupported
    else ErrorKind.unclassified

-- `isLockError`, on the error's message
unfoldable pub is_lock_text : String → Bool
is_lock_text msg =
    contains msg "the stack is currently locked"
    || contains msg "conflict: Another update is currently in progress"

unfoldable pub is_lock_error : GoError → Bool
unfolding is_lock_text
is_lock_error e = is_lock_text (error_text e)

-- `classifyBackendError` of an error that is there
unfoldable pub classify_backend_error : String → GoError → GoError
classify_backend_error name e =
    if has_foreign Foreign.backend_stack_not_found e
    then stack_not_found name
    else if has_foreign Foreign.backend_stack_exists e
    then stack_exists name
    else if has_foreign Foreign.conflicting_update e
    then concurrent_update e
    else if is_lock_error e
    then concurrent_update e
    else unclassified e
