-- ===== src/Property/Redaction.antt =====
-- engine/stack.go: secrets in the JSON of property values and in outputs.
use pulumi_engine.Prelude.{
  Bool, true, false, ◌≡◌, refl, List, [], ◌∷◌, ap, arith, sym, ◌∙◌, some, insert, ◌++◌,
  if◌then◌else◌,
}
use pulumi_engine.Property.{
  PropertyValue, PropertyList, PropertyMap, Json, secret, output, computed, asset, archive,
  resource_reference, other, property_to_json, list_to_json, map_to_json, Outputs, Resource,
  snapshot_outputs, collect_outputs, root_outputs,
}

-- The same value with the content of every secret forgotten.
unfoldable mutual
  pub mask : PropertyValue → PropertyValue
  mask PropertyValue.null = PropertyValue.null
  mask computed = computed
  mask (PropertyValue.bool b) = PropertyValue.bool b
  mask (PropertyValue.number n) = PropertyValue.number n
  mask (PropertyValue.string s) = PropertyValue.string s
  mask (PropertyValue.array vs) = PropertyValue.array (mask_list vs)
  mask (PropertyValue.object m) = PropertyValue.object (mask_map m)
  mask (secret v) = secret PropertyValue.null
  mask (output known true v) = output known true PropertyValue.null
  mask (output known false v) = output known false (mask v)
  mask (asset hash) = asset hash
  mask (archive hash) = archive hash
  mask (resource_reference urn) = resource_reference urn
  mask (other s) = other s

  mask_list : PropertyList → PropertyList
  mask_list PropertyList.nil = PropertyList.nil
  mask_list (PropertyList.cons v vs) = PropertyList.cons (mask v) (mask_list vs)

  pub mask_map : PropertyMap → PropertyMap
  mask_map PropertyMap.end = PropertyMap.end
  mask_map (PropertyMap.entry k v m) = PropertyMap.entry k (mask v) (mask_map m)

mutual
  unfolding property_to_json list_to_json map_to_json mask mask_list mask_map

  mask-json : (v : PropertyValue) → property_to_json (mask v) false ≡ property_to_json v false
  mask-json PropertyValue.null = refl
  mask-json computed = refl
  mask-json (PropertyValue.bool b) = refl
  mask-json (PropertyValue.number n) = refl
  mask-json (PropertyValue.string s) = refl
  mask-json (PropertyValue.array vs) = ap Json.array (mask_list-json vs)
  mask-json (PropertyValue.object m) = ap Json.object (mask_map-json m)
  mask-json (secret v) = refl
  mask-json (output known true v) = ground arith
  mask-json (output known false v) = ground (arith, mask-json v)
  mask-json (asset hash) = refl
  mask-json (archive hash) = refl
  mask-json (resource_reference urn) = refl
  mask-json (other s) = refl

  mask_list-json : (vs : PropertyList) → list_to_json (mask_list vs) false ≡ list_to_json vs false
  mask_list-json PropertyList.nil = refl
  mask_list-json (PropertyList.cons v vs) = cc (mask-json v, mask_list-json vs)

  mask_map-json : (m : PropertyMap) → map_to_json (mask_map m) false ≡ map_to_json m false
  mask_map-json PropertyMap.end = refl
  mask_map-json (PropertyMap.entry k v m) = cc (mask-json v, mask_map-json m)

-- Two values that differ only inside secrets have the same redacted JSON.
pub property_to_json_redacts :
    (u v : PropertyValue) → mask u ≡ mask v → property_to_json u false ≡ property_to_json v false
property_to_json_redacts u v h =
    sym (mask-json u) ∙ ap (λ w. property_to_json w false) h ∙ mask-json v

abbrev pub mask_resources : List Resource → List Resource
mask_resources [] = []
mask_resources (r ∷ rs) = record r { outputs = mask_map r.outputs } ∷ mask_resources rs

-- Whether a value contains secrets does not depend on what the secrets are.
module _ (contains_secrets : PropertyValue → Bool)
    (blind : (v : PropertyValue) → contains_secrets (mask v) ≡ contains_secrets v) where
  collect_outputs-mask :
      (m : PropertyMap) (out : Outputs)
      → collect_outputs contains_secrets (mask_map m) false out
        ≡ collect_outputs contains_secrets m false out
  unfolding collect_outputs mask_map
  collect_outputs-mask PropertyMap.end out = refl
  collect_outputs-mask (PropertyMap.entry k v m) out = collect_outputs-mask m _ ∙ (λ i.
      collect_outputs contains_secrets m false (record {
        values = insert k (mask-json v i) out.values;
        secret_keys = if blind v i then out.secret_keys ++ k ∷ [] else out.secret_keys;
      }))

  root_outputs-mask :
      (rs : List Resource)
      → root_outputs contains_secrets (mask_resources rs) false
        ≡ root_outputs contains_secrets rs false
  unfolding root_outputs
  root_outputs-mask [] = refl
  root_outputs-mask (r ∷ rs) = rw (root_outputs-mask rs, collect_outputs-mask r.outputs) refl

  -- The outputs that are read without `showSecrets`, their secret keys included, are the same for
  -- a snapshot and for the one in which the content of every secret is forgotten.
  pub snapshot_outputs-mask :
      (rs : List Resource)
      → snapshot_outputs contains_secrets (some (mask_resources rs)) false
        ≡ snapshot_outputs contains_secrets (some rs) false
  unfolding snapshot_outputs
  snapshot_outputs-mask rs = rw (root_outputs-mask rs)

-- The same value with every secret's wrapper taken off.
mutual
  pub reveal : PropertyValue → PropertyValue
  reveal PropertyValue.null = PropertyValue.null
  reveal computed = computed
  reveal (PropertyValue.bool b) = PropertyValue.bool b
  reveal (PropertyValue.number n) = PropertyValue.number n
  reveal (PropertyValue.string s) = PropertyValue.string s
  reveal (PropertyValue.array vs) = PropertyValue.array (reveal_list vs)
  reveal (PropertyValue.object m) = PropertyValue.object (reveal_map m)
  reveal (secret v) = reveal v
  reveal (output known hidden v) = output known false (reveal v)
  reveal (asset hash) = asset hash
  reveal (archive hash) = archive hash
  reveal (resource_reference urn) = resource_reference urn
  reveal (other s) = other s

  reveal_list : PropertyList → PropertyList
  reveal_list PropertyList.nil = PropertyList.nil
  reveal_list (PropertyList.cons v vs) = PropertyList.cons (reveal v) (reveal_list vs)

  reveal_map : PropertyMap → PropertyMap
  reveal_map PropertyMap.end = PropertyMap.end
  reveal_map (PropertyMap.entry k v m) = PropertyMap.entry k (reveal v) (reveal_map m)

mutual
  unfolding property_to_json list_to_json map_to_json reveal reveal_list reveal_map

  reveal-json : (v : PropertyValue) → property_to_json (reveal v) false ≡ property_to_json v true
  reveal-json PropertyValue.null = refl
  reveal-json computed = refl
  reveal-json (PropertyValue.bool b) = refl
  reveal-json (PropertyValue.number n) = refl
  reveal-json (PropertyValue.string s) = refl
  reveal-json (PropertyValue.array vs) = ap Json.array (reveal_list-json vs)
  reveal-json (PropertyValue.object m) = ap Json.object (reveal_map-json m)
  reveal-json (secret v) = reveal-json v
  reveal-json (output known hidden v) = ground (arith, reveal-json v)
  reveal-json (asset hash) = refl
  reveal-json (archive hash) = refl
  reveal-json (resource_reference urn) = refl
  reveal-json (other s) = refl

  reveal_list-json :
      (vs : PropertyList) → list_to_json (reveal_list vs) false ≡ list_to_json vs true
  reveal_list-json PropertyList.nil = refl
  reveal_list-json (PropertyList.cons v vs) = cc (reveal-json v, reveal_list-json vs)

  reveal_map-json : (m : PropertyMap) → map_to_json (reveal_map m) false ≡ map_to_json m true
  reveal_map-json PropertyMap.end = refl
  reveal_map-json (PropertyMap.entry k v m) = cc (reveal-json v, reveal_map-json m)

-- With `showSecrets` a value has the JSON of the value with no secret wrapper at all.
pub property_to_json_reveals :
    (v : PropertyValue) → property_to_json v true ≡ property_to_json (reveal v) false
property_to_json_reveals v = sym (reveal-json v)
