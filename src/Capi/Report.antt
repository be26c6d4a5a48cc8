-- ===== src/Capi/Report.antt =====
-- capi/capi.go: the ABI's error format.
use pulumi_engine.Prelude.{String, ◌==◌, List, Option, none, some, if◌then◌else◌}
use pulumi_engine.Errors.{
  Kind, ErrorKind, GoError, ResourceOpFailed, PlanViolationResource, Unsupported, find_as,
  as_invalid, as_resource_op, as_not_found, as_exists, as_pending, as_cancelled, as_plan,
  as_unsupported,
}
use pulumi_engine.Errors.Message.{error_text}
use pulumi_engine.Errors.Classify.{kind_of}

-- The fields of an error beside its kind and message.
pub data Detail : Type 0 where
  no_detail : Detail
  field_of : String → Detail
  resources_of : List PlanViolationResource → Detail
  resource_of : ResourceOpFailed → Detail
  urns_of : List String → Detail
  name_of : String → Detail
  operation_of : Kind → Detail
  feature_of : Unsupported → Detail

pub record ErrorJson : Type 0 where
  pub kind : ErrorKind
  pub message : String
  pub detail : Detail
  -- `m["result"]` of `pulumi_op_wait`
  pub result : Option String

-- What the first case of the switch that takes the error writes over the message, with the
-- fields it adds.
error_detail : GoError → String → String × Detail
error_detail e text = elim (find_as as_invalid e) [
  | some i ↦ (i.message, field_of i.field)
  | none ↦ elim (find_as as_plan e) [
    | some rs ↦ (text, resources_of rs)
    | none ↦ elim (find_as as_resource_op e) [
      | some r ↦ (if r.message == "" then text else r.message, resource_of r)
      | none ↦ elim (find_as as_pending e) [
        | some us ↦ (text, urns_of us)
        | none ↦ elim (find_as as_not_found e) [
          | some n ↦ (text, name_of n)
          | none ↦ elim (find_as as_exists e) [
            | some n ↦ (text, name_of n)
            | none ↦ elim (find_as as_cancelled e) [
              | some k ↦ (text, operation_of k)
              | none ↦ elim (find_as as_unsupported e) [
                | some u ↦ (text, feature_of u)
                | none ↦ (text, no_detail)
              ]
            ]
          ]
        ]
      ]
    ]
  ]
]

unfoldable pub error_json : GoError → ErrorJson
unfolding error_detail
error_json e =
    let (message, detail) = error_detail e (error_text e) in
    record { kind = kind_of e; message = message; detail = detail; result = none }
