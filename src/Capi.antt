-- ===== src/Capi.antt =====
-- capi/capi.go: the handle registry and the functions of the C ABI over the engine, whose
-- operations are the parameter `api`. A C string that is returned is its text, and the texts that
-- `json.Marshal` makes are the api's. A reply has the error that `setErr` is called with, and
-- `set_err` is what it writes. A handle is the 64-bit word of its int64.
pub mod HandleMap
pub mod Report
pub mod Stacks
pub mod Handles
pub mod Reuse
use pulumi_engine.Prelude.{
  ℕ, ◌+◌, ◌%◌, ◌-◌, ltb, String, Bool, true, false, not, ◌==◌, List, [], ◌∷◌, Option, none, some,
  Dict, if◌then◌else◌, is_some, or_else,
}
use pulumi_engine.Text.{concat, quote, decimal}
use pulumi_engine.Errors.{
  Kind, preview, up, refresh, destroy, ErrorKind, error_kind_name, kind_name, GoError, InvalidSpec,
  ResourceOpFailed, PlanViolationResource, Unsupported, invalid, find_as, as_invalid,
  as_resource_op, as_not_found, as_exists, as_pending, as_cancelled, as_plan, as_unsupported,
}
use pulumi_engine.Errors.Message.{error_text}
use pulumi_engine.Errors.Classify.{kind_of}
use pulumi_engine.Errors.Fallible.{Fallible, ok, err}
use pulumi_engine.Spec.{StackSpec, ConfigValue, BackendSpec}
unfoldable pub use HandleMap.{Table, find, forget, store}
pub use Report.{ErrorJson}
unfoldable pub use Report.{error_json}

-- What a function of the ABI returns: a pointer to a text or NULL, 0 or -1, or a handle.
pub data Returned : Type 0 where
  null : Returned
  c_string : String → Returned
  zero_status : Returned
  minus_one : Returned
  handle : ℕ → Returned

pub record Reply : Type 0 where
  pub returned : Returned
  -- the error that `setErr` is called with, if any
  pub error : Option ErrorJson

abbrev pub plain_reply : Returned → Reply
plain_reply v = record { returned = v; error = none }

abbrev pub error_reply : Returned → GoError → Reply
error_reply v e = record { returned = v; error = some (error_json e) }

-- `setErr`: what is written to `*err`, by whether `err` is NULL
unfoldable pub set_err : Bool → Option ErrorJson → Option ErrorJson
set_err true e = none
set_err false e = e

abbrev pub word_size : ℕ
word_size = 18446744073709551616

-- `%d` of the int64 that the word is
abbrev int_text : ℕ → String
int_text h =
    if ltb h 9223372036854775808 then decimal h else concat ("-" ∷ decimal (word_size - h) ∷ [])

abbrev pub unknown_stack : ℕ → GoError
unknown_stack h = invalid "request" (concat ("unknown stack handle " ∷ int_text h ∷ []))

pub record ProgramRequest : Type 0 where
  pub mode : String
  pub dir : String
  pub address : String
  pub language_version : String

pub data Program : Type 0 where
  no_program : Program
  local_program : String → String → Program
  callback_program : String → Program

-- `opRequest`, its options as the text of their JSON
pub record OpRequest : Type 0 where
  pub kind : String
  pub program : Option ProgramRequest
  pub options : String

-- What a receive from the event channel, or its timer, gives.
pub data Polled : Type 0 where
  event unencodable : String → Polled
  closed timed_out : Polled

-- The engine's operations on stacks, the JSON decoders, and the world in which they run. The
-- texts they return are encoded.
pub record EngineApi : Type 1 where
  pub World : Type 0
  pub Stack : Type 0
  pub Operation : Type 0
  pub decode_spec : String → Fallible StackSpec
  pub decode_request : String → Fallible OpRequest
  pub decode_value : String → Fallible ConfigValue
  pub decode_tags : String → Fallible (Dict String)
  pub open_stack : StackSpec → World → Fallible Stack × World
  pub start : Kind → Stack → Program → String → World → Operation × World
  pub cancel_operation : Operation → World → World
  -- `Wait`: the result's JSON, and the error if any
  pub wait : Operation → World → (String × Option GoError) × World
  pub unencodable_event : String → String
  pub export : Stack → World → Fallible String × World
  pub import : String → Stack → World → Fallible (Unit {0}) × World
  pub outputs : Bool → Stack → World → Fallible String × World
  pub set_config : String → ConfigValue → Stack → World → Fallible (Unit {0}) × World
  -- none when the key is not set
  pub get_config : String → Stack → World → Fallible (Option String) × World
  pub remove : Bool → Stack → World → Fallible (Unit {0}) × World
  pub cancel_stack : Stack → World → Fallible (Unit {0}) × World
  pub get_tags : Stack → World → Fallible String × World
  pub set_tags : Dict String → Stack → World → Fallible (Unit {0}) × World
  -- the request's options, decoded and passed to `History`; the text is not empty
  pub check_options : String → Fallible String
  pub history : String → Stack → World → Fallible String × World
  pub decode_listing : String → Fallible String
  pub list_stacks : String → World → Fallible String × World

-- A reply from an engine call that returns a text, or nothing.
abbrev pub text_reply : Fallible String → Reply
text_reply (ok t) = plain_reply (c_string t)
text_reply (err e) = error_reply null e

abbrev pub status_reply : Fallible (Unit {0}) → Reply
status_reply (ok _) = plain_reply zero_status
status_reply (err e) = error_reply minus_one e

abbrev pub option_reply : Fallible (Option String) → Reply
option_reply (ok none) = plain_reply (c_string "null")
option_reply (ok (some t)) = plain_reply (c_string t)
option_reply (err e) = error_reply null e

-- `InvalidSpec{Field: field, Message: e.Error()}` for a request that does not decode
abbrev pub undecoded : String → GoError → GoError
undecoded field e = invalid field (error_text e)

module _ (api : EngineApi) where
  open api use {World, Stack, Operation}

  -- the registry, and the engine's world
  pub record Registry : Type 0 where
    pub next : ℕ
    pub stacks : Table Stack
    pub ops : Table Operation
    pub world : World

  unfoldable pub stack_open : String → Registry → Reply × Registry
  stack_open spec_json r = elim (api.decode_spec spec_json) [
    | err e ↦ (error_reply (handle 0) (undecoded "spec" e), r)
    | ok spec ↦
        let (opened, w) = api.open_stack spec r.world in
        let h = (r.next + 1) % word_size in
        elim opened [
          | err e ↦ (error_reply (handle 0) e, record r { world = w })
          | ok st ↦ (
            plain_reply (handle h),
            record r { next = h; stacks = store h st r.stacks; world = w },
          )
        ]
  ]

  unfoldable pub stack_close : ℕ → Registry → Reply × Registry
  stack_close h r = elim (find h r.stacks) [
    | none ↦ (plain_reply minus_one, r)
    | some st ↦ (plain_reply zero_status, record r { stacks = forget h r.stacks })
  ]

  -- the program of a request, or the mode that is unknown
  unfoldable pub requested_program : Option ProgramRequest → Fallible Program
  requested_program none = ok no_program
  requested_program (some p) =
      if p.mode == "local"
      then ok (local_program p.dir p.language_version)
      else if p.mode == "callback"
      then ok (callback_program p.address)
      else err (
          invalid "request"
            (concat ("unknown program mode " ∷ quote p.mode ∷ " (want local or callback)" ∷ [])))

  unfoldable pub requested_kind : String → Fallible Kind
  requested_kind k =
      if k == "preview"
      then ok preview
      else if k == "up"
      then ok up
      else if k == "refresh"
      then ok refresh
      else if k == "destroy"
      then ok destroy
      else err (invalid "request" (concat ("unknown operation kind " ∷ quote k ∷ [])))

  start_op : Stack → OpRequest → Registry → Reply × Registry
  start_op st req r = elim (requested_program req.program) [
    | err e ↦ (error_reply (handle 0) e, r)
    | ok program ↦ elim (requested_kind req.kind) [
      | err e ↦ (error_reply (handle 0) e, r)
      | ok kind ↦
          let (op, w) = api.start kind st program req.options r.world in
          let id = (r.next + 1) % word_size in
          (plain_reply (handle id), record r { next = id; ops = store id op r.ops; world = w })
    ]
  ]

  unfoldable pub op_start : ℕ → String → Registry → Reply × Registry
  unfolding start_op
  op_start h request_json r = elim (find h r.stacks) [
    | none ↦ (error_reply (handle 0) (unknown_stack h), r)
    | some st ↦ elim (api.decode_request request_json) [
      | err e ↦ (error_reply (handle 0) (undecoded "request" e), r)
      | ok req ↦ start_op st req r
    ]
  ]

  polled_reply : Polled → Reply
  polled_reply (event e) = plain_reply (c_string e)
  polled_reply (unencodable m) = plain_reply (c_string (api.unencodable_event m))
  polled_reply closed = plain_reply null
  polled_reply timed_out = plain_reply (c_string "")

  unfoldable pub op_next_event : ℕ → Polled → Registry → Reply × Registry
  unfolding polled_reply
  op_next_event id polled r = elim (find id r.ops) [
    | none ↦ (plain_reply null, r)
    | some op ↦ (polled_reply polled, r)
  ]

  unfoldable pub op_cancel : ℕ → Registry → Reply × Registry
  op_cancel id r = elim (find id r.ops) [
    | none ↦ (plain_reply minus_one, r)
    | some op ↦ (plain_reply zero_status, record r { world = api.cancel_operation op r.world })
  ]

  unfoldable pub op_wait : ℕ → Registry → Reply × Registry
  op_wait id r = elim (find id r.ops) [
    | none ↦ (
      error_reply null (invalid "request" (concat ("unknown operation id " ∷ int_text id ∷ []))),
      r,
    )
    | some op ↦
        let ((result, failure), w) = api.wait op r.world in
        let after = record r { world = w } in
        elim failure [
          | none ↦ (plain_reply (c_string result), after)
          | some e ↦ (
            record {
              returned = null;
              error = some (record (error_json e) { result = some result });
            },
            after,
          )
        ]
  ]

  unfoldable pub op_release : ℕ → Registry → Reply × Registry
  op_release id r = elim (find id r.ops) [
    | none ↦ (plain_reply minus_one, r)
    | some op ↦ (plain_reply zero_status, record r { ops = forget id r.ops })
  ]
