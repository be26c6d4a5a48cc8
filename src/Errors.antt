-- ===== src/Errors.antt =====
-- engine/errors.go and the error types of engine/plan.go: the typed errors, the chains that they
-- form, and `errors.As` over a chain. `Message` has the texts, `Classify` the classifiers.
pub mod Message
pub mod Classify
pub mod Kinds
pub mod Fallible
use pulumi_engine.Prelude.{
  String, Bool, true, false, List, Option, none, some, is_some, or_else, if◌then◌else◌,
}

-- operation.go's `Kind`
pub data Kind : Type 0 where
  preview up refresh destroy : Kind

unfoldable pub kind_name : Kind → String
kind_name preview = "preview"
kind_name up = "up"
kind_name refresh = "refresh"
kind_name destroy = "destroy"

pub data ErrorKind : Type 0 where
  invalid_spec resource_op_failed program_failed concurrent_update stack_not_found : ErrorKind
  stack_exists pending_operations cancelled plan_violation unsupported unclassified : ErrorKind

unfoldable pub error_kind_name : ErrorKind → String
error_kind_name ErrorKind.invalid_spec = "invalidSpec"
error_kind_name ErrorKind.resource_op_failed = "resourceOpFailed"
error_kind_name ErrorKind.program_failed = "programFailed"
error_kind_name ErrorKind.concurrent_update = "concurrentUpdate"
error_kind_name ErrorKind.stack_not_found = "stackNotFound"
error_kind_name ErrorKind.stack_exists = "stackExists"
error_kind_name ErrorKind.pending_operations = "pendingOperations"
error_kind_name ErrorKind.cancelled = "cancelled"
error_kind_name ErrorKind.plan_violation = "planViolation"
error_kind_name ErrorKind.unsupported = "unsupported"
error_kind_name ErrorKind.unclassified = "unclassified"

pub record InvalidSpec : Type 0 where
  pub field : String
  pub message : String

pub record ResourceOpFailed : Type 0 where
  pub urn : String
  pub type : String
  pub op : String
  pub provider : String
  pub message : String

pub record PlanViolationResource : Type 0 where
  pub urn : String
  pub message : String

pub record Unsupported : Type 0 where
  pub feature : String
  pub backend : String
  pub message : String

-- The errors of other packages that the source tells apart, by their Go type or value.
pub data Foreign : Type 0 where
  plain context_canceled not_exist conflicting_update cancelled_update : Foreign
  backend_stack_not_found backend_stack_exists incorrect_passphrase plugin_missing : Foreign

-- A Go error. `wrapped text e` is `fmt.Errorf("<text>: %w", e)`, `joined` is `errors.Join` of two,
-- and `foreign c m` an error that another package made, with the message m.
pub data GoError : Type 0 where
  invalid_spec : InvalidSpec → GoError
  resource_op_failed : ResourceOpFailed → GoError
  program_failed : String → GoError
  concurrent_update : GoError → GoError
  concurrent_update_nil : GoError
  stack_not_found : String → GoError
  stack_exists : String → GoError
  pending_operations : List String → GoError → GoError
  cancelled : Kind → GoError
  plan_violation : List PlanViolationResource → GoError
  unsupported : Unsupported → GoError
  unclassified : GoError → GoError
  wrapped : String → GoError → GoError
  joined : GoError → GoError → GoError
  foreign : Foreign → String → GoError

abbrev pub invalid : String → String → GoError
invalid field message = invalid_spec (record { field = field; message = message })

abbrev pub plain_error : String → GoError
plain_error message = foreign Foreign.plain message

-- `errors.As`: the first error of the chain that the target takes, the error itself first and
-- then what `Unwrap` gives
unfoldable pub find_as {ℓ} : {A : Type ℓ} → (GoError → Option A) → GoError → Option A
find_as target (concurrent_update e) = or_else (target (concurrent_update e)) (find_as target e)
find_as target (pending_operations us e) =
    or_else (target (pending_operations us e)) (find_as target e)
find_as target (unclassified e) = or_else (target (unclassified e)) (find_as target e)
find_as target (wrapped m e) = or_else (target (wrapped m e)) (find_as target e)
find_as target (joined d e) =
    or_else (target (joined d e)) (or_else (find_as target d) (find_as target e))
find_as target e = target e

-- The targets, one for each type that the source asks for.
abbrev pub as_invalid : GoError → Option InvalidSpec
as_invalid (invalid_spec i) = some i
as_invalid _ = none

abbrev pub as_resource_op : GoError → Option ResourceOpFailed
as_resource_op (resource_op_failed r) = some r
as_resource_op _ = none

abbrev pub as_program : GoError → Option String
as_program (program_failed m) = some m
as_program _ = none

abbrev pub as_concurrent : GoError → Option (Unit {0})
as_concurrent (concurrent_update e) = some tt
as_concurrent concurrent_update_nil = some tt
as_concurrent _ = none

abbrev pub as_not_found : GoError → Option String
as_not_found (stack_not_found n) = some n
as_not_found _ = none

abbrev pub as_exists : GoError → Option String
as_exists (stack_exists n) = some n
as_exists _ = none

abbrev pub as_pending : GoError → Option (List String)
as_pending (pending_operations us e) = some us
as_pending _ = none

abbrev pub as_cancelled : GoError → Option Kind
as_cancelled (cancelled k) = some k
as_cancelled _ = none

abbrev pub as_plan : GoError → Option (List PlanViolationResource)
as_plan (plan_violation rs) = some rs
as_plan _ = none

abbrev pub as_unsupported : GoError → Option Unsupported
as_unsupported (unsupported u) = some u
as_unsupported _ = none

abbrev pub same_foreign : Foreign → Foreign → Bool
same_foreign Foreign.plain Foreign.plain = true
same_foreign Foreign.context_canceled Foreign.context_canceled = true
same_foreign Foreign.not_exist Foreign.not_exist = true
same_foreign Foreign.conflicting_update Foreign.conflicting_update = true
same_foreign Foreign.cancelled_update Foreign.cancelled_update = true
same_foreign Foreign.backend_stack_not_found Foreign.backend_stack_not_found = true
same_foreign Foreign.backend_stack_exists Foreign.backend_stack_exists = true
same_foreign Foreign.incorrect_passphrase Foreign.incorrect_passphrase = true
same_foreign Foreign.plugin_missing Foreign.plugin_missing = true
same_foreign _ _ = false

abbrev as_foreign : Foreign → GoError → Option (Unit {0})
as_foreign c (foreign d m) = if same_foreign c d then some tt else none
as_foreign c _ = none

abbrev pub has {ℓ} : {A : Type ℓ} → (GoError → Option A) → GoError → Bool
has target e = is_some (find_as target e)

-- `errors.As` and `errors.Is` for the errors of other packages
unfoldable pub has_foreign : Foreign → GoError → Bool
has_foreign c e = has (as_foreign c) e
