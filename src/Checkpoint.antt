-- ===== src/Checkpoint.antt =====
-- engine/stack.go: the operations on a stack's checkpoint and tags, its removal, and the cancel of
-- what runs on it. The backend's answers are arguments.
pub mod Ends
use pulumi_engine.Prelude.{
  ℕ, String, Bool, true, false, ◌||◌, ◌==◌, eqb, List, [], ◌∷◌, map, Option, none, some, Dict,
  overlay, if◌then◌else◌,
}
use pulumi_engine.Text.{concat, quote}
use pulumi_engine.Errors.{GoError, invalid, plain_error, stack_not_found, unclassified}
use pulumi_engine.Errors.Message.{error_text}
use pulumi_engine.Errors.Classify.{classify_backend_error}
use pulumi_engine.Errors.Fallible.{Fallible, ok, err, ◌>>=◌, ◌>>◌, reject_if, map_err}
use pulumi_engine.Operation.{Operation, cancel}

-- `apitype.UntypedDeployment`, its deployment as JSON text
pub record Deployment : Type 0 where
  pub version : ℕ
  pub deployment : String

-- `freshStack`, on the backend's answer for the stack with a name
unfoldable pub fresh_stack {ℓ} : {A : Type ℓ} → String → Fallible (Option A) → Fallible A
fresh_stack name answer = map_err (classify_backend_error name) answer >>= λ found. elim found [
  | none ↦ err (stack_not_found name)
  | some bs ↦ ok bs
]

-- `Export`, up to the JSON of the deployment; `current` is the current schema's version
unfoldable pub export_checkpoint : ℕ → String → Fallible (Option Deployment) → Fallible Deployment
export_checkpoint current name exported =
    map_err (classify_backend_error name) exported >>= λ found. elim found [
      | none ↦ ok (record { version = current; deployment = "{}" })
      | some d ↦ ok d
    ]

-- `Import`, on the decoded request
unfoldable pub import_checkpoint :
    String → Fallible Deployment → (Deployment → Fallible (Unit {0})) → Fallible (Unit {0})
import_checkpoint name decoded import = do
  dep ← map_err (λ e. invalid "deployment" (error_text e)) decoded
  reject_if (eqb dep.version 0 || dep.deployment == "")
      (invalid "deployment" "expected {\"version\": N, \"deployment\": {...}}")
  map_err (classify_backend_error name) (import dep)

-- `Remove`: the error, if any, and whether the stack has a project file after it, taking the file's
-- removal to succeed; the backend answers whether the stack still has resources
unfoldable pub remove_stack : String → Fallible Bool → Bool → Option GoError × Bool
remove_stack name removed file = elim removed [
  | err e ↦ (some (classify_backend_error name e), file)
  | ok has_resources ↦
      if has_resources
      then (
        some (
            unclassified (
              plain_error (
                concat (
                  "stack "
                  ∷ quote name
                  ∷ " still has resources; destroy them or pass force"
                  ∷ [])))),
        file,
      )
      else (none, false)
]

-- `Cancel`: the error, if any, and the running operations after it; `progress` is
-- `SupportsProgress`, and `current` what `CancelCurrentUpdate` returns
unfoldable pub cancel_stack :
    String → Bool → Option GoError → List Operation → Option GoError × List Operation
cancel_stack name progress current running =
    let stopped = map cancel running in
    if progress
    then elim current [
      | none ↦ (none, stopped)
      | some e ↦ (some (classify_backend_error name e), stopped)
    ]
    else (none, stopped)

-- `SetTags`: the error, if any, and the tags that the handle has after it
unfoldable pub set_tags :
    String
    → Fallible (Option (Dict String))
    → (Dict String → Option GoError)
    → (Dict String → Option GoError)
    → Dict String
    → Dict String
    → Option GoError × Dict String
set_tags name answer check update tags before = elim (fresh_stack name answer) [
  | err e ↦ (some e, before)
  | ok _ ↦ elim (check tags) [
    | some e ↦ (some (invalid "tags" (error_text e)), before)
    | none ↦ elim (update tags) [
      | some e ↦ (some (classify_backend_error name e), before)
      | none ↦ (none, tags)
    ]
  ]
]

-- `GetTags`, whose answer is a copy of the tags
unfoldable pub get_tags : String → Fallible (Option (Dict String)) → Fallible (Dict String)
get_tags name answer = fresh_stack name answer >>= λ tags. ok (overlay [] tags)

-- `pendingOperationURNs`, on the URNs of the pending operations in the snapshot, none where there is
-- no snapshot; an error is an empty list
unfoldable pub pending_operation_urns {ℓ} :
    {A : Type ℓ}
    → String
    → Fallible (Option A)
    → (A → Fallible (Option (List String)))
    → List String
pending_operation_urns name answer snapshot = elim (fresh_stack name answer) [
  | err e ↦ []
  | ok bs ↦ elim (snapshot bs) [ err e ↦ [] | ok none ↦ [] | ok (some urns) ↦ urns ]
]
