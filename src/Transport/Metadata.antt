-- ===== src/Transport/Metadata.antt =====
-- Protobuf's structs, as far as the code reads them: the `Fields` of a `structpb.Struct` and the
-- kinds of a `structpb.Value`. The payloads of numbers and lists are never read and left out.
use xds_relay.Prelude.{String, Bool, true, false, Option, none, some, str_eq, if◌then◌else◌}

mutual
  pub data Value : Type 0 where
    null_value number_value list_value : Value
    string_value : String → Value
    bool_value : Bool → Value
    struct_value : Fields → Value

  pub data Fields : Type 0 where
    no_fields : Fields
    field : String → Value → Fields → Fields

-- The generated getters answer a nil receiver and another kind with the zero value.
abbrev pub get_struct_value : Option Value → Option Fields
get_struct_value (some (struct_value fs)) = some fs
get_struct_value _ = none

abbrev pub get_string_value : Option Value → String
get_string_value (some (string_value s)) = s
get_string_value _ = ""

abbrev pub get_bool_value : Option Value → Bool
get_bool_value (some (bool_value b)) = b
get_bool_value _ = false

abbrev pub get_fields : Option Fields → Fields
get_fields none = no_fields
get_fields (some fs) = fs

unfoldable pub lookup_field : String → Fields → Option Value
lookup_field k no_fields = none
lookup_field k (field j v fs) = if str_eq j k then some v else lookup_field k fs

-- A map without entries is one that decoding a message leaves nil.
unfoldable pub is_nil_map : Fields → Bool
is_nil_map no_fields = true
is_nil_map (field k v fs) = false

-- fields[k] = v
unfoldable pub set_field : String → Value → Fields → Fields
set_field k v no_fields = field k v no_fields
set_field k v (field j w fs) = if str_eq j k then field k v fs else field j w (set_field k v fs)
