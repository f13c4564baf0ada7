-- ===== src/Policy/Reflect.antt =====
-- policy/utils.go: a Go value, seen through `reflect`, turned into maps, slices and scalars.
use concrnt.Prelude.{String, Bool, List, [], ◌∷◌, Option, none, some, str_eq, if◌then◌else◌}
use concrnt.Prelude.Text.{split}
use concrnt.Policy.Value.{Value, nil, arr, obj, Items, end, item, Fields, empty, field}

-- `reflect.Value` by its kind. `boxed` is a pointer or an interface with an element, `null` one
-- that is nil, or the invalid value; `scalar` is a value of any kind that the code leaves as it is.
mutual
  pub data GoValue : Type 0 where
    null : GoValue
    boxed : GoValue → GoValue
    struct : StructFields → GoValue
    string_map : Entries → GoValue
    other_map : Value → GoValue
    slice : Elements → GoValue
    scalar : Value → GoValue

  -- name, json tag, whether it is exported, whether it is embedded, value
  pub data StructFields : Type 0 where
    no_field : StructFields
    struct_field : String → String → Bool → Bool → GoValue → StructFields → StructFields

  pub data Entries : Type 0 where
    no_entry : Entries
    entry : String → GoValue → Entries → Entries

  pub data Elements : Type 0 where
    no_element : Elements
    element : GoValue → Elements → Elements

abbrev first : List String → String
first [] = ""
first (x ∷ xs) = x

-- jsonFieldName, from the tag; `none` is `ok=false`
unfoldable pub json_field_name : String → Option String
unfolding split
json_field_name tag =
    if str_eq tag ""
    then some ""
    else if str_eq tag "-"
    then none
    else some (first (split b',' tag))

-- `out[k] = v`
unfoldable pub put_field : Fields → String → Value → Fields
put_field empty k v = field k v empty
put_field (field j w m) k v = if str_eq j k then field j v m else field j w (put_field m k v)

-- `for k, val := range m { out[k] = val }`
unfoldable pub put_fields : Fields → Fields → Fields
unfolding put_field
put_fields out empty = out
put_fields out (field k v m) = put_fields (put_field out k v) m

-- an embedded struct without a name of its own is flattened, another value keeps its field's name
put_embedded : Fields → String → Value → Fields
unfolding put_fields
put_embedded out name (obj m) = put_fields out m
put_embedded out name v = put_field out name v

-- the body of the loop of structValueToMap, for a field whose value has been converted
unfoldable pub put_struct_field : Fields → String → String → Bool → Bool → Value → Fields
unfolding json_field_name put_embedded
put_struct_field out name tag exported anonymous v =
    if exported
    then elim (json_field_name tag) [
      | none ↦ out
      | some given ↦
          (if str_eq given ""
            then (if anonymous then put_embedded out name v else put_field out name v)
            else put_field out given v)
    ]
    else out

-- toAny, structValueToMap, mapValueToAny and sliceValueToAny
unfoldable mutual
  unfolding put_struct_field

  pub to_any : GoValue → Value
  to_any null = nil
  to_any (boxed v) = to_any v
  to_any (struct fs) = obj (struct_to_fields fs empty)
  to_any (string_map es) = obj (map_to_fields es)
  to_any (other_map v) = v
  to_any (slice es) = arr (slice_to_items es)
  to_any (scalar v) = v

  pub struct_to_fields : StructFields → Fields → Fields
  struct_to_fields no_field out = out
  struct_to_fields (struct_field name tag exported anonymous v fs) out =
      struct_to_fields fs (put_struct_field out name tag exported anonymous (to_any v))

  pub map_to_fields : Entries → Fields
  map_to_fields no_entry = empty
  map_to_fields (entry k v es) = field k (to_any v) (map_to_fields es)

  pub slice_to_items : Elements → Items
  slice_to_items no_element = end
  slice_to_items (element v es) = item (to_any v) (slice_to_items es)
