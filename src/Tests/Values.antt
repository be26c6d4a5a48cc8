-- ===== src/Tests/Values.antt =====
-- engine/stack.go and engine/errors.go: redacted outputs, classified errors, and an event.
use pulumi_engine.Prelude.{String, Bool, true, false, ◌≡◌, [], ◌∷◌, some, arith}
use pulumi_engine.Errors.{ErrorKind, Foreign, GoError, wrapped, foreign, has_foreign, find_as}
use pulumi_engine.Errors.Classify.{kind_of, classify_backend_error}
use pulumi_engine.Errors.Kinds.{kind_of-classify_backend_error}
use pulumi_engine.Events.{EngineEvent, no_payload}
use pulumi_engine.Property.{
  PropertyValue, PropertyMap, PropertyList, Resource, property_to_json, snapshot_outputs,
  root_stack_type,
}
use pulumi_engine.Property.Redaction.{
  mask, mask_resources, reveal, snapshot_outputs-mask, property_to_json_reveals,
}

abbrev token : String → PropertyValue
token s =
    PropertyValue.array
      (PropertyList.cons (PropertyValue.secret (PropertyValue.string s)) PropertyList.nil)

abbrev is_secret : PropertyValue → Bool
is_secret (PropertyValue.secret v) = true
is_secret _ = false

is_secret-mask : (v : PropertyValue) → is_secret (mask v) ≡ is_secret v
unfolding mask
is_secret-mask v = ground arith

abbrev root : Resource
root = record {
  type = root_stack_type;
  parent = "";
  outputs =
      PropertyMap.entry "key" (PropertyValue.secret (PropertyValue.string "k1")) PropertyMap.end;
}

snapshot_outputs-mask_example :
    snapshot_outputs is_secret (some (mask_resources (root ∷ []))) false
    ≡ snapshot_outputs is_secret (some (root ∷ [])) false
snapshot_outputs-mask_example = snapshot_outputs-mask is_secret is_secret-mask (root ∷ [])

property_to_json_reveals_example :
    property_to_json (token "one") true ≡ property_to_json (reveal (token "one")) false
property_to_json_reveals_example = property_to_json_reveals (token "one")

abbrev conflict : GoError
conflict = wrapped "saving" (foreign Foreign.conflicting_update "another update is running")

kind_of-classify_backend_error_example :
    kind_of (classify_backend_error "dev" conflict) ≡ ErrorKind.concurrent_update
unfolding has_foreign find_as
kind_of-classify_backend_error_example = kind_of-classify_backend_error "dev" conflict tt

abbrev progress : EngineEvent
progress = record no_payload { progress_event = some "half" }
