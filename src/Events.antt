-- ===== src/Events.antt =====
-- engine/events.go: the event that a stream carries, and how its type is derived.
pub mod Laws
use pulumi_engine.Prelude.{
  ℕ, String, Bool, true, false, ◌==◌, Option, none, some, Dict, is_some, if◌then◌else◌, [], ◌∷◌,
}
use pulumi_engine.Text.{concat, trim_space}

pub data EventType : Type 0 where
  cancel stdout diagnostic prelude summary resource_pre resource_outputs : EventType
  resource_op_failed policy policy_remediation policy_load policy_analyze_summary : EventType
  policy_remediate_summary policy_analyze_stack_summary start_debugging progress : EventType
  error unknown : EventType

-- Payloads that the source reads or writes; any other payload stands for itself as a text.
pub record Stdout : Type 0 where
  pub message : String
  pub color : String

pub record Diagnostic : Type 0 where
  pub urn : String
  pub prefix : String
  pub message : String
  pub color : String
  pub severity : String

pub record Policy : Type 0 where
  pub message : String
  pub color : String

pub record Summary : Type 0 where
  pub resource_changes : Dict ℕ

-- the metadata of a failed resource operation
pub record StepMetadata : Type 0 where
  pub op : String
  pub urn : String
  pub type : String
  pub provider : String

-- `apitype.EngineEvent`: a stamp, and a pointer for each payload
pub record EngineEvent : Type 0 where
  pub sequence : ℕ
  pub timestamp : ℕ
  pub cancel_event : Bool
  pub stdout_event : Option Stdout
  pub diagnostic_event : Option Diagnostic
  pub prelude_event : Option String
  pub summary_event : Option Summary
  pub resource_pre_event : Option String
  pub res_outputs_event : Option String
  pub res_op_failed_event : Option StepMetadata
  pub policy_event : Option Policy
  pub policy_remediation_event : Option String
  pub policy_load_event : Option String
  pub policy_analyze_summary_event : Option String
  pub policy_remediate_summary_event : Option String
  pub policy_analyze_stack_summary_event : Option String
  pub start_debugging_event : Option String
  pub progress_event : Option String
  pub error_event : Option String

abbrev pub no_payload : EngineEvent
no_payload = record {
  sequence = 0;
  timestamp = 0;
  cancel_event = false;
  stdout_event = none;
  diagnostic_event = none;
  prelude_event = none;
  summary_event = none;
  resource_pre_event = none;
  res_outputs_event = none;
  res_op_failed_event = none;
  policy_event = none;
  policy_remediation_event = none;
  policy_load_event = none;
  policy_analyze_summary_event = none;
  policy_remediate_summary_event = none;
  policy_analyze_stack_summary_event = none;
  start_debugging_event = none;
  progress_event = none;
  error_event = none;
}

-- `Event`: the type beside the embedded engine event
pub record Event : Type 0 where
  pub type : EventType
  pub api : EngineEvent
  pub open api use *

unfoldable pub classify_event : EngineEvent → EventType
classify_event e =
    if e.cancel_event
    then cancel
    else if is_some e.stdout_event
    then stdout
    else if is_some e.diagnostic_event
    then diagnostic
    else if is_some e.prelude_event
    then prelude
    else if is_some e.summary_event
    then summary
    else if is_some e.resource_pre_event
    then resource_pre
    else if is_some e.res_outputs_event
    then resource_outputs
    else if is_some e.res_op_failed_event
    then resource_op_failed
    else if is_some e.policy_event
    then policy
    else if is_some e.policy_remediation_event
    then policy_remediation
    else if is_some e.policy_load_event
    then policy_load
    else if is_some e.policy_analyze_summary_event
    then policy_analyze_summary
    else if is_some e.policy_remediate_summary_event
    then policy_remediate_summary
    else if is_some e.policy_analyze_stack_summary_event
    then policy_analyze_stack_summary
    else if is_some e.start_debugging_event
    then start_debugging
    else if is_some e.progress_event
    then progress
    else if is_some e.error_event
    then error
    else unknown

unfoldable pub event_from_api : EngineEvent → Event
event_from_api e = record { type = classify_event e; api = e }

abbrev pub is_cancel : EventType → Bool
is_cancel cancel = true
is_cancel _ = false

-- the trimmed message of an error diagnostic, when it is not blank
error_message : Diagnostic → Option String
error_message d =
    let msg = trim_space d.message in
    if d.severity == "error" then (if msg == "" then none else some msg) else none

unfoldable pub is_error_diagnostic : Event → Option String
unfolding error_message
is_error_diagnostic e = elim e.diagnostic_event [ none ↦ none | some d ↦ error_message d ]

-- What a decoder of another package answers: an engine event, or an error's text.
pub data Decoded : Type 0 where
  decoded : EngineEvent → Decoded
  undecodable : String → Decoded

-- operation.go's `diagnosticEvent`
unfoldable pub diagnostic_event : String → String → EngineEvent
diagnostic_event severity message = record no_payload {
  diagnostic_event = some (record {
    urn = "";
    prefix = "";
    message = concat (message ∷ "\n" ∷ []);
    color = "never";
    severity = severity;
  });
}

-- The loops that feed `handleEvent`: the forwarder of `execute` (`convertEngineEvent`), the plugin
-- host's `emit`, and `StreamEvents` (`ParseEventJSON`). What cannot be decoded becomes a warning.
unfoldable pub decoded_event : String → Decoded → Event
decoded_event context (decoded e) = event_from_api e
decoded_event context (undecodable err) =
    event_from_api (diagnostic_event "warning" (concat (context ∷ ": " ∷ err ∷ [])))
