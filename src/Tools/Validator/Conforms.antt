-- ===== src/Tools/Validator/Conforms.antt =====
-- The validator against a description of the arguments that a schema allows.
use chatbot_react_python_nod.Prelude.{
  String, ◌==◌, ◌≡◌, refl, Bool, true, false, not, ◌||◌, Option, none, some, List, [], ◌∷◌,
  if◌then◌else◌, mem, Bool-cases, inl, inr, eq_iff, ◌↔◌, ◌⊎◌,
}
use chatbot_react_python_nod.Json.{
  Json, null, bool, int, negative, float, str, arr, obj, Items, nil, cons, Fields, end, field,
}
use chatbot_react_python_nod.Tools.Schema.{ToolDefinition, get_field}
use chatbot_react_python_nod.Tools.Validator.{
  Validation, valid, invalid, type_error, matches_name, any_matches, value_matches_type, and_then,
}

-- the names of the types that a value has
abbrev pub kinds : Json → List String
kinds null = "null" ∷ []
kinds (bool b) = "boolean" ∷ []
kinds (int n) = "integer" ∷ "number" ∷ []
kinds (negative n) = "integer" ∷ "number" ∷ []
kinds (float s) = "number" ∷ []
kinds (str s) = "string" ∷ []
kinds (arr xs) = "array" ∷ []
kinds (obj fs) = "object" ∷ []

abbrev pub known_types : List String
known_types = "string" ∷ "integer" ∷ "number" ∷ "boolean" ∷ "array" ∷ "object" ∷ "null" ∷ []

abbrev pub has_type : Json → String → Bool
has_type value t = mem t (kinds value) || not (mem t known_types)

at_string : (v : Json) → matches_name v "string" ≡ has_type v "string"
unfolding matches_name mem
at_string v = elim v as (λ k. matches_name k "string" ≡ has_type k "string") [
  | null ↦ refl
  | _ ↦ refl
]

at_integer : (v : Json) → matches_name v "integer" ≡ has_type v "integer"
unfolding matches_name mem
at_integer v = elim v as (λ k. matches_name k "integer" ≡ has_type k "integer") [
  | null ↦ refl
  | _ ↦ refl
]

at_number : (v : Json) → matches_name v "number" ≡ has_type v "number"
unfolding matches_name mem
at_number v = elim v as (λ k. matches_name k "number" ≡ has_type k "number") [
  | null ↦ refl
  | _ ↦ refl
]

at_boolean : (v : Json) → matches_name v "boolean" ≡ has_type v "boolean"
unfolding matches_name mem
at_boolean v = elim v as (λ k. matches_name k "boolean" ≡ has_type k "boolean") [
  | null ↦ refl
  | _ ↦ refl
]

at_array : (v : Json) → matches_name v "array" ≡ has_type v "array"
unfolding matches_name mem
at_array v = elim v as (λ k. matches_name k "array" ≡ has_type k "array") [ null ↦ refl | _ ↦ refl ]

at_object : (v : Json) → matches_name v "object" ≡ has_type v "object"
unfolding matches_name mem
at_object v = elim v as (λ k. matches_name k "object" ≡ has_type k "object") [
  | null ↦ refl
  | _ ↦ refl
]

at_null : (v : Json) → matches_name v "null" ≡ has_type v "null"
unfolding matches_name mem
at_null v = elim v as (λ k. matches_name k "null" ≡ has_type k "null") [ null ↦ refl | _ ↦ refl ]

or_true : (b : Bool) → true ≡ b || true
or_true true = refl
or_true false = refl

pub matches_name-has_type : (v : Json) (t : String) → matches_name v t ≡ has_type v t
unfolding matches_name mem
matches_name-has_type v t = elim (Bool-cases (t == "string")) [
  | inl e ↦ rw ((eq_iff t "string").0 e) (at_string v)
  | inr e0 ↦ elim (Bool-cases (t == "integer")) [
    | inl e ↦ rw ((eq_iff t "integer").0 e) (at_integer v)
    | inr e1 ↦ elim (Bool-cases (t == "number")) [
      | inl e ↦ rw ((eq_iff t "number").0 e) (at_number v)
      | inr e2 ↦ elim (Bool-cases (t == "boolean")) [
        | inl e ↦ rw ((eq_iff t "boolean").0 e) (at_boolean v)
        | inr e3 ↦ elim (Bool-cases (t == "array")) [
          | inl e ↦ rw ((eq_iff t "array").0 e) (at_array v)
          | inr e4 ↦ elim (Bool-cases (t == "object")) [
            | inl e ↦ rw ((eq_iff t "object").0 e) (at_object v)
            | inr e5 ↦ elim (Bool-cases (t == "null")) [
              | inl e ↦ rw ((eq_iff t "null").0 e) (at_null v)
              | inr e6 ↦ rw (e0, e1, e2, e3, e4, e5, e6) (or_true (mem t (kinds v)))
            ]
          ]
        ]
      ]
    ]
  ]
]

-- a value that one of the listed types allows; an entry that is no text allows every value
abbrev pub AnyType : Json → Items → Type 0
AnyType v nil = ⊥
AnyType v (cons (str t) ts) = (has_type v t ≡ true) ⊎ AnyType v ts
AnyType v (cons _ ts) = Unit

-- the value that the `type` of a property's schema allows
abbrev pub Allowed : Json → Option Json → Type 0
Allowed v none = Unit
Allowed v (some null) = Unit
Allowed v (some (str t)) = has_type v t ≡ true
Allowed v (some (arr ts)) = AnyType v ts
Allowed v _ = ⊥

-- each argument has a schema, which is an object and allows its value
abbrev pub Declared : Fields → Fields → Type 0
Declared properties end = Unit
Declared properties (field key v fs) =
    ((schema : Fields) × (get_field key properties ≡ some (obj schema))
      × Allowed v (get_field "type" schema))
    × Declared properties fs

-- a required name is a text and an argument
abbrev pub Named : Fields → Json → Type 0
Named arguments (str name) = (v : Json) × (get_field name arguments ≡ some v)
Named arguments _ = ⊥

abbrev pub Present : Fields → Items → Type 0
Present arguments nil = Unit
Present arguments (cons n names) = Named arguments n × Present arguments names

abbrev pub RequiredPresent : Fields → Option Json → Type 0
RequiredPresent arguments none = Unit
RequiredPresent arguments (some (arr names)) = Present arguments names
RequiredPresent arguments _ = ⊥

abbrev pub AllDeclared : Fields → Option Json → Type 0
AllDeclared arguments none = Unit
AllDeclared arguments (some null) = Unit
AllDeclared arguments (some (obj properties)) = Declared properties arguments
AllDeclared arguments _ = ⊥

abbrev pub ObjectType : Option Json → Type 0
ObjectType none = Unit
ObjectType (some (str t)) = t ≡ "object"
ObjectType _ = ⊥

-- The arguments conform to the parameters of a tool.
abbrev pub Conforms : ToolDefinition → Fields → Type 0
Conforms tool arguments =
    ObjectType (get_field "type" tool.parameters)
    × RequiredPresent arguments (get_field "required" tool.parameters)
    × AllDeclared arguments (get_field "properties" tool.parameters)

abbrev pub IsValid : Validation → Type 0
IsValid v = v ≡ valid

pub refused : (m : String) → IsValid (invalid m) ↔ ⊥
refused m = (λ e. absurd cc, λ h. elim h [ ])

pub and_then-IsValid : (a b : Validation) → IsValid (and_then a b) ↔ (IsValid a × IsValid b)
unfolding and_then
and_then-IsValid valid b = (λ e. (refl, e), λ h. h.1)
and_then-IsValid (invalid m) b = (λ e. absurd cc, λ h. absurd (let e = h.0 in cc))
and_then-IsValid type_error b = (λ e. absurd cc, λ h. absurd (let e = h.0 in cc))

pub any_matches-AnyType : (v : Json) (ts : Items) → (any_matches v ts ≡ true) ↔ AnyType v ts
unfolding any_matches value_matches_type
any_matches-AnyType v nil = (λ e. absurd cc, λ h. elim h [ ])
any_matches-AnyType v (cons (str t) ts) =
    let ih = any_matches-AnyType v ts in
    rw (matches_name-has_type v t) (elim (Bool-cases (has_type v t)) [
      | inl e ↦ rw e (λ _. inl refl, λ _. refl)
      | inr e ↦ rw e (λ h. inr (ih.0 h), λ h. elim h [ inl k ↦ absurd cc | inr k ↦ ih.1 k ])
    ])
any_matches-AnyType v (cons null ts) = (λ _. tt, λ _. refl)
any_matches-AnyType v (cons (bool b) ts) = (λ _. tt, λ _. refl)
any_matches-AnyType v (cons (int n) ts) = (λ _. tt, λ _. refl)
any_matches-AnyType v (cons (negative n) ts) = (λ _. tt, λ _. refl)
any_matches-AnyType v (cons (float s) ts) = (λ _. tt, λ _. refl)
any_matches-AnyType v (cons (arr xs) ts) = (λ _. tt, λ _. refl)
any_matches-AnyType v (cons (obj fs) ts) = (λ _. tt, λ _. refl)

-- a test that decides between no error and one
pub test-IsValid : (b : Bool) (m : String) → IsValid (if b then valid else invalid m) ↔ (b ≡ true)
test-IsValid true m = (λ _. refl, λ _. refl)
test-IsValid false m = (λ e. absurd cc, λ e. absurd cc)
