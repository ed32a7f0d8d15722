-- ===== src/Json.antt =====
-- JSON values, as they occur in tool arguments and tool results, and Python's `json.dumps` with its
-- default separators and `ensure_ascii`. A float is carried as the text that `repr` gives.
use Prim.Native.Char.{Char, code}
use Prim.Native.String.{◌++◌}
use chatbot_react_python_nod.Prelude.{
  ℕ, zero, suc, ◌+◌, ◌-◌, ◌/◌, ◌%◌, String, Bool, true, false, ◌&&◌, ltb, leb, nat_eq,
  if◌then◌else◌, decimal,
}

mutual
  pub data Json : Type 0 where
    null : Json
    bool : Bool → Json
    int : ℕ → Json
    negative : ℕ → Json
    float : String → Json
    str : String → Json
    arr : Items → Json
    obj : Fields → Json

  pub data Items : Type 0 where
    nil : Items
    cons : Json → Items → Items

  pub data Fields : Type 0 where
    end : Fields
    field : String → Json → Fields → Fields

hex : ℕ → String
hex zero = "0"
hex (suc zero) = "1"
hex (suc (suc zero)) = "2"
hex n =
    if nat_eq n 3
    then "3"
    else if nat_eq n 4
    then "4"
    else if nat_eq n 5
    then "5"
    else if nat_eq n 6
    then "6"
    else if nat_eq n 7
    then "7"
    else if nat_eq n 8
    then "8"
    else if nat_eq n 9
    then "9"
    else if nat_eq n 10
    then "a"
    else if nat_eq n 11
    then "b"
    else if nat_eq n 12
    then "c"
    else if nat_eq n 13
    then "d"
    else if nat_eq n 14
    then "e"
    else "f"

-- backslash, `u` and four hexadecimal digits
unicode_escape : ℕ → String
unfolding hex
unicode_escape n =
    "\\u" ++ hex (n / 4096) ++ hex (n / 256 % 16) ++ hex (n / 16 % 16) ++ hex (n % 16)

escape_char : Char → String
unfolding unicode_escape
escape_char c =
    let n = code c in
    let plain : String = String.◌∷◌ c "" in
    if nat_eq n 34
    then "\\\""
    else if nat_eq n 92
    then "\\\\"
    else if nat_eq n 10
    then "\\n"
    else if nat_eq n 13
    then "\\r"
    else if nat_eq n 9
    then "\\t"
    else if nat_eq n 8
    then "\\b"
    else if nat_eq n 12
    then "\\f"
    else if leb 32 n && leb n 126
    then plain
    else if ltb n 65536
    then unicode_escape n
    else unicode_escape (0xd800 + (n - 65536) / 1024)
      ++ unicode_escape (0xdc00 + (n - 65536) % 1024)

escape : String → String
unfolding escape_char
escape String.[] = ""
escape (String.◌∷◌ c s) = escape_char c ++ escape s

quote : String → String
unfolding escape
quote s = "\"" ++ escape s ++ "\""

unfoldable mutual
  unfolding quote

  pub dumps : Json → String
  dumps null = "null"
  dumps (bool true) = "true"
  dumps (bool false) = "false"
  dumps (int n) = decimal n
  dumps (negative n) = "-" ++ decimal (suc n)
  dumps (float s) = s
  dumps (str s) = quote s
  dumps (arr nil) = "[]"
  dumps (arr (cons x xs)) = "[" ++ dumps x ++ dumps_items xs ++ "]"
  dumps (obj end) = "{}"
  dumps (obj (field k v fs)) = "{" ++ quote k ++ ": " ++ dumps v ++ dumps_fields fs ++ "}"

  pub dumps_items : Items → String
  dumps_items nil = ""
  dumps_items (cons x xs) = ", " ++ dumps x ++ dumps_items xs

  pub dumps_fields : Fields → String
  dumps_fields end = ""
  dumps_fields (field k v fs) = ", " ++ quote k ++ ": " ++ dumps v ++ dumps_fields fs
