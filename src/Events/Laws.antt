-- ===== src/Events/Laws.antt =====
-- What the derived type of an event says of its payload.
use pulumi_engine.Prelude.{true, false, ◌≡◌, is_some, arith}
use pulumi_engine.Events.{EventType, EngineEvent, classify_event}

-- The payload that a type announces is there.
abbrev pub Carries : EventType → EngineEvent → Type 0
Carries EventType.cancel e = e.cancel_event ≡ true
Carries EventType.stdout e = is_some e.stdout_event ≡ true
Carries EventType.diagnostic e = is_some e.diagnostic_event ≡ true
Carries EventType.prelude e = is_some e.prelude_event ≡ true
Carries EventType.summary e = is_some e.summary_event ≡ true
Carries EventType.resource_pre e = is_some e.resource_pre_event ≡ true
Carries EventType.resource_outputs e = is_some e.res_outputs_event ≡ true
Carries EventType.resource_op_failed e = is_some e.res_op_failed_event ≡ true
Carries EventType.policy e = is_some e.policy_event ≡ true
Carries EventType.policy_remediation e = is_some e.policy_remediation_event ≡ true
Carries EventType.policy_load e = is_some e.policy_load_event ≡ true
Carries EventType.policy_analyze_summary e = is_some e.policy_analyze_summary_event ≡ true
Carries EventType.policy_remediate_summary e = is_some e.policy_remediate_summary_event ≡ true
Carries EventType.policy_analyze_stack_summary e =
    is_some e.policy_analyze_stack_summary_event ≡ true
Carries EventType.start_debugging e = is_some e.start_debugging_event ≡ true
Carries EventType.progress e = is_some e.progress_event ≡ true
Carries EventType.error e = is_some e.error_event ≡ true
Carries EventType.unknown e = (is_some e.error_event ≡ false) × (e.cancel_event ≡ false)

-- The type derived for an event announces a payload that the event has; `unknown` is derived only
-- for an event without a cancel or an error payload.
pub classify_event-Carries : (e : EngineEvent) → Carries (classify_event e) e
unfolding classify_event
classify_event-Carries e = ground arith
