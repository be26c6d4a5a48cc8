-- ===== src/Property.antt =====
-- engine/stack.go: `propertyToJSON`, and the part of `Outputs` that reads a snapshot.
pub mod Redaction
use pulumi_engine.Prelude.{
  String, Bool, true, false, ◌&&◌, ◌||◌, not, ◌==◌, List, [], ◌∷◌, ◌++◌, Option, none, some, Dict,
  insert, if◌then◌else◌,
}
use pulumi_engine.Text.{sort_by}

-- Pulumi's `resource.PropertyValue`. A float64 stands for its JSON text, and `other` for any value
-- that no test of the switch takes, with its `String()`.
mutual
  pub data PropertyValue : Type 0 where
    null computed : PropertyValue
    bool : Bool → PropertyValue
    number string : String → PropertyValue
    array : PropertyList → PropertyValue
    object : PropertyMap → PropertyValue
    secret : PropertyValue → PropertyValue
    output : Bool → Bool → PropertyValue → PropertyValue
    asset archive resource_reference other : String → PropertyValue

  pub data PropertyList : Type 0 where
    nil : PropertyList
    cons : PropertyValue → PropertyList → PropertyList

  pub data PropertyMap : Type 0 where
    end : PropertyMap
    entry : String → PropertyValue → PropertyMap → PropertyMap

-- The Go values that `json.Marshal` takes.
mutual
  pub data Json : Type 0 where
    null : Json
    bool : Bool → Json
    number string : String → Json
    array : JsonList → Json
    object : JsonMap → Json

  pub data JsonList : Type 0 where
    nil : JsonList
    cons : Json → JsonList → JsonList

  pub data JsonMap : Type 0 where
    end : JsonMap
    entry : String → Json → JsonMap → JsonMap

-- `map[string]any{key: text}`
abbrev one_entry : String → String → Json
one_entry key text = Json.object (JsonMap.entry key (Json.string text) JsonMap.end)

abbrev pub redacted : Json
redacted = Json.string "[secret]"

-- `output k s v` is an output that is known if k and secret if s.
unfoldable mutual
  pub property_to_json : PropertyValue → Bool → Json
  property_to_json PropertyValue.null show = Json.null
  property_to_json computed show = Json.null
  property_to_json (PropertyValue.bool b) show = Json.bool b
  property_to_json (PropertyValue.number n) show = Json.number n
  property_to_json (PropertyValue.string s) show = Json.string s
  property_to_json (PropertyValue.array vs) show = Json.array (list_to_json vs show)
  property_to_json (PropertyValue.object m) show = Json.object (map_to_json m show)
  property_to_json (secret v) show = if not show then redacted else property_to_json v show
  property_to_json (output known hidden v) show =
      let inner = property_to_json v show in
      if not known then Json.null else if hidden && not show then redacted else inner
  property_to_json (asset hash) show = one_entry "asset" hash
  property_to_json (archive hash) show = one_entry "archive" hash
  property_to_json (resource_reference urn) show = Json.string urn
  property_to_json (other s) show = Json.string s

  pub list_to_json : PropertyList → Bool → JsonList
  list_to_json PropertyList.nil show = JsonList.nil
  list_to_json (PropertyList.cons v vs) show =
      JsonList.cons (property_to_json v show) (list_to_json vs show)

  pub map_to_json : PropertyMap → Bool → JsonMap
  map_to_json PropertyMap.end show = JsonMap.end
  map_to_json (PropertyMap.entry k v m) show =
      JsonMap.entry k (property_to_json v show) (map_to_json m show)

pub record Outputs : Type 0 where
  pub values : Dict Json
  pub secret_keys : List String

-- a resource of a snapshot, as far as `Outputs` reads it
pub record Resource : Type 0 where
  pub type : String
  pub parent : String
  pub outputs : PropertyMap

abbrev pub root_stack_type : String
root_stack_type = "pulumi:pulumi:Stack"

abbrev pub no_outputs : Outputs
no_outputs = record { values = []; secret_keys = [] }

-- `ContainsSecrets` is a method of Pulumi's property values, so it is an argument.
module _ (contains_secrets : PropertyValue → Bool) where
  collect_outputs : PropertyMap → Bool → Outputs → Outputs
  collect_outputs PropertyMap.end show out = out
  collect_outputs (PropertyMap.entry k v m) show out = collect_outputs m show (record {
    values = insert k (property_to_json v show) out.values;
    secret_keys = if contains_secrets v then out.secret_keys ++ k ∷ [] else out.secret_keys;
  })

  -- the loop over `snap.Resources`: the first root stack is the only one that is read
  root_outputs : List Resource → Bool → Outputs
  root_outputs [] show = no_outputs
  root_outputs (r ∷ rs) show =
      let skipped = root_outputs rs show in
      if not (r.type == root_stack_type) || not (r.parent == "")
      then skipped
      else collect_outputs r.outputs show no_outputs

  -- `Outputs` once the snapshot is there; no snapshot has no outputs
  unfoldable pub snapshot_outputs : Option (List Resource) → Bool → Outputs
  unfolding collect_outputs root_outputs
  snapshot_outputs none show = no_outputs
  snapshot_outputs (some rs) show =
      let out = root_outputs rs show in
      record out { secret_keys = sort_by (λ k. k) out.secret_keys }
