-- ===== src/Tools/Validator.antt =====
-- `ToolValidator` of backend-python/app/ai/tools/validator.py. `render` is Python's `str` of a value
-- that is no text; a key that is no text is not in a `dict`, and a list or an object is refused as a
-- key with a TypeError.
pub mod Conforms
pub mod Exact
use Prim.Native.String.{◌++◌}
use chatbot_react_python_nod.Prelude.{
  ℕ, String, ◌==◌, Bool, true, false, not, ◌||◌, Option, none, some, if◌then◌else◌,
}
use chatbot_react_python_nod.Json.{
  Json, null, bool, int, negative, float, str, arr, obj, Items, nil, cons, Fields, end, field,
}
use chatbot_react_python_nod.Tools.Schema.{ToolDefinition, get_field}

-- `None`, an error with its message, or the `TypeError` of an unhashable key
pub data Validation : Type 0 where
  valid : Validation
  invalid : String → Validation
  type_error : Validation

abbrev pub is_str : Json → Bool
is_str (str s) = true
is_str _ = false

-- `isinstance(value, int) and not isinstance(value, bool)`
abbrev pub is_int : Json → Bool
is_int (int n) = true
is_int (negative n) = true
is_int _ = false

abbrev pub is_number : Json → Bool
is_number (int n) = true
is_number (negative n) = true
is_number (float s) = true
is_number _ = false

abbrev pub is_bool : Json → Bool
is_bool (bool b) = true
is_bool _ = false

abbrev pub is_list : Json → Bool
is_list (arr xs) = true
is_list _ = false

abbrev pub is_dict : Json → Bool
is_dict (obj fs) = true
is_dict _ = false

abbrev pub is_none : Json → Bool
is_none null = true
is_none _ = false

unfoldable pub matches_name : Json → String → Bool
matches_name value expected =
    if expected == "string"
    then is_str value
    else if expected == "integer"
    then is_int value
    else if expected == "number"
    then is_number value
    else if expected == "boolean"
    then is_bool value
    else if expected == "array"
    then is_list value
    else if expected == "object"
    then is_dict value
    else if expected == "null"
    then is_none value
    else true

-- an option of a list of types need not be a text: then no comparison holds
unfoldable pub value_matches_type : Json → Json → Bool
value_matches_type value (str expected) = matches_name value expected
value_matches_type value _ = true

unfoldable pub any_matches : Json → Items → Bool
any_matches value nil = false
any_matches value (cons t ts) = value_matches_type value t || any_matches value ts

-- `prop_schema.get("type")`
unfoldable pub validate_type : String → Json → Option Json → Validation
validate_type key value none = valid
validate_type key value (some null) = valid
validate_type key value (some (arr ts)) =
    if any_matches value ts then valid else invalid ("Argument '" ++ key ++ "' has invalid type")
validate_type key value (some (str expected)) =
    if matches_name value expected
    then valid
    else invalid ("Argument '" ++ key ++ "' must be of type " ++ expected)
validate_type key value _ = invalid ("Invalid type schema for argument: " ++ key)

-- `a`, and then `b` if it found no error
unfoldable pub and_then : Validation → Validation → Validation
and_then valid b = b
and_then a _ = a

-- one argument, by the schema that the properties have for it
unfoldable pub validate_field : String → Json → Option Json → Validation
validate_field key value none = invalid ("Unknown argument: " ++ key)
validate_field key value (some (obj schema)) = validate_type key value (get_field "type" schema)
validate_field key value _ = invalid ("Invalid schema for argument: " ++ key)

unfoldable pub validate_fields : Fields → Fields → Validation
validate_fields properties end = valid
validate_fields properties (field key value fs) =
    and_then (validate_field key value (get_field key properties)) (validate_fields properties fs)

-- `schema.get("type", "object") != "object"`
abbrev pub names_object : Option Json → Bool
names_object none = true
names_object (some (str s)) = s == "object"
names_object _ = false

module _ (render : Json → String) where
  -- `field_name not in arguments`
  unfoldable pub validate_name : Fields → Json → Validation
  validate_name arguments (str name) = elim (get_field name arguments) [
    | none ↦ invalid ("Missing required argument: " ++ name)
    | some value ↦ valid
  ]
  validate_name arguments (arr xs) = type_error
  validate_name arguments (obj fs) = type_error
  validate_name arguments other = invalid ("Missing required argument: " ++ render other)

  unfoldable pub validate_required : Fields → Items → Validation
  validate_required arguments nil = valid
  validate_required arguments (cons name names) =
      and_then (validate_name arguments name) (validate_required arguments names)

  -- `required`, a list or absent
  unfoldable pub validate_list : Option Json → Fields → Validation
  validate_list none arguments = valid
  validate_list (some (arr names)) arguments = validate_required arguments names
  validate_list _ arguments = invalid "Invalid required field schema"

  -- the arguments, once the schema is known to be an object
  unfoldable pub validate_against : Option Json → Option Json → Fields → Validation
  validate_against (some (obj properties)) required arguments =
      and_then (validate_list required arguments) (validate_fields properties arguments)
  validate_against none required arguments = validate_list required arguments
  validate_against (some null) required arguments = validate_list required arguments
  validate_against _ required arguments = invalid "Invalid properties schema"

  unfoldable pub validate : ToolDefinition → Fields → Validation
  validate tool arguments =
      let schema = tool.parameters in
      if names_object (get_field "type" schema)
      then validate_against (get_field "properties" schema) (get_field "required" schema) arguments
      else invalid "Tool parameters schema must be a JSON Schema object"
