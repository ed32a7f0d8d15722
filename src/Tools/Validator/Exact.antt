-- ===== src/Tools/Validator/Exact.antt =====
-- The validator accepts what conforms to the schema, and nothing else.
use chatbot_react_python_nod.Prelude.{
  String, ◌≡◌, refl, true, Option, none, some, Bool-cases, inl, inr, eq_iff, ◌↔◌, Option-cases,
}
use chatbot_react_python_nod.Json.{
  Json, null, bool, int, negative, float, str, arr, obj, Items, nil, cons, Fields, end, field,
}
use chatbot_react_python_nod.Tools.Schema.{ToolDefinition, get_field}
use chatbot_react_python_nod.Tools.Validator.{
  valid, any_matches, validate_type, validate_field, validate_fields, validate_name,
  validate_required, validate_list, validate_against, names_object, validate,
}
use chatbot_react_python_nod.Tools.Validator.Conforms.{
  has_type, matches_name-has_type, Allowed, Declared, Present, Named, refused, RequiredPresent,
  AllDeclared, ObjectType, Conforms, IsValid, and_then-IsValid, any_matches-AnyType, test-IsValid,
}

validate_type-Allowed :
    (key : String) (v : Json) (o : Option Json) → IsValid (validate_type key v o) ↔ Allowed v o
unfolding validate_type
validate_type-Allowed key v none = (λ _. tt, λ _. refl)
validate_type-Allowed key v (some null) = (λ _. tt, λ _. refl)
validate_type-Allowed key v (some (str t)) =
    rw (matches_name-has_type v t) (test-IsValid (has_type v t) _)
validate_type-Allowed key v (some (arr ts)) =
    let (to, from) = test-IsValid (any_matches v ts) _ in
    let (there, back) = any_matches-AnyType v ts in (λ e. there (to e), λ h. from (back h))
validate_type-Allowed key v (some (bool b)) = refused _
validate_type-Allowed key v (some (int n)) = refused _
validate_type-Allowed key v (some (negative n)) = refused _
validate_type-Allowed key v (some (float s)) = refused _
validate_type-Allowed key v (some (obj fs)) = refused _

abbrev DeclaredField : Option Json → Json → Type 0
DeclaredField found v =
    (schema : Fields) × (found ≡ some (obj schema)) × Allowed v (get_field "type" schema)

validate_field-DeclaredField :
    (key : String) (v : Json) (o : Option Json)
    → IsValid (validate_field key v o) ↔ DeclaredField o v
unfolding validate_field
validate_field-DeclaredField key v (some (obj schema)) =
    let (to, from) = validate_type-Allowed key v (get_field "type" schema) in
    (
      λ e. (schema, refl, to e),
      λ h. (let (other, same, k) = h in from (let p : other ≡ schema = cc in rw (← p) k)),
    )
validate_field-DeclaredField key v none = (λ e. absurd cc, λ h. absurd (let e = h.1 in cc))
validate_field-DeclaredField key v (some null) = (λ e. absurd cc, λ h. absurd (let e = h.1 in cc))
validate_field-DeclaredField key v (some (bool b)) =
    (λ e. absurd cc, λ h. absurd (let e = h.1 in cc))
validate_field-DeclaredField key v (some (int n)) =
    (λ e. absurd cc, λ h. absurd (let e = h.1 in cc))
validate_field-DeclaredField key v (some (negative n)) =
    (λ e. absurd cc, λ h. absurd (let e = h.1 in cc))
validate_field-DeclaredField key v (some (float s)) =
    (λ e. absurd cc, λ h. absurd (let e = h.1 in cc))
validate_field-DeclaredField key v (some (str s)) =
    (λ e. absurd cc, λ h. absurd (let e = h.1 in cc))
validate_field-DeclaredField key v (some (arr xs)) =
    (λ e. absurd cc, λ h. absurd (let e = h.1 in cc))

validate_fields-Declared :
    (properties fs : Fields) → IsValid (validate_fields properties fs) ↔ Declared properties fs
unfolding validate_fields
validate_fields-Declared properties end = (λ _. tt, λ _. refl)
validate_fields-Declared properties (field key v fs) =
    let (to, from) =
      and_then-IsValid (validate_field key v (get_field key properties))
        (validate_fields properties fs) in
    let (first, first_back) = validate_field-DeclaredField key v (get_field key properties) in
    let (rest, rest_back) = validate_fields-Declared properties fs in
    (λ e. (first (to e).0, rest (to e).1), λ h. from (first_back h.0, rest_back h.1))

module _ (render : Json → String) where
  validate_name-Named :
      (arguments : Fields) (n : Json)
      → IsValid (validate_name render arguments n) ↔ Named arguments n
  unfolding validate_name
  validate_name-Named arguments (str name) = elim (Option-cases (get_field name arguments)) [
    | inl e ↦ rw e (λ h. absurd cc, λ h. absurd (let k = h.1 in cc))
    | inr (v, e) ↦ rw (validate_name, e) (λ _. (v, refl), λ _. refl)
  ]
  validate_name-Named arguments null = refused _
  validate_name-Named arguments (bool b) = refused _
  validate_name-Named arguments (int i) = refused _
  validate_name-Named arguments (negative i) = refused _
  validate_name-Named arguments (float s) = refused _
  validate_name-Named arguments (arr xs) = (λ e. absurd cc, λ h. elim h [ ])
  validate_name-Named arguments (obj fs) = (λ e. absurd cc, λ h. elim h [ ])

  validate_required-Present :
      (arguments : Fields) (names : Items)
      → IsValid (validate_required render arguments names) ↔ Present arguments names
  unfolding validate_required
  validate_required-Present arguments nil = (λ _. tt, λ _. refl)
  validate_required-Present arguments (cons n names) =
      let (to, from) =
        and_then-IsValid (validate_name render arguments n)
          (validate_required render arguments names) in
      let (first, first_back) = validate_name-Named arguments n in
      let (rest, rest_back) = validate_required-Present arguments names in
      (λ e. (first (to e).0, rest (to e).1), λ h. from (first_back h.0, rest_back h.1))

  validate_list-RequiredPresent :
      (arguments : Fields) (o : Option Json)
      → IsValid (validate_list render o arguments) ↔ RequiredPresent arguments o
  unfolding validate_list
  validate_list-RequiredPresent arguments none = (λ _. tt, λ _. refl)
  validate_list-RequiredPresent arguments (some (arr names)) =
      validate_required-Present arguments names
  validate_list-RequiredPresent arguments (some null) = refused _
  validate_list-RequiredPresent arguments (some (bool b)) = refused _
  validate_list-RequiredPresent arguments (some (int n)) = refused _
  validate_list-RequiredPresent arguments (some (negative n)) = refused _
  validate_list-RequiredPresent arguments (some (float s)) = refused _
  validate_list-RequiredPresent arguments (some (str s)) = refused _
  validate_list-RequiredPresent arguments (some (obj fs)) = refused _

  validate_against-Conforms :
      (properties required : Option Json) (arguments : Fields)
      → IsValid (validate_against render properties required arguments)
        ↔ (RequiredPresent arguments required × AllDeclared arguments properties)
  unfolding validate_against
  validate_against-Conforms none required arguments =
      let (to, from) = validate_list-RequiredPresent arguments required in
      (λ e. (to e, tt), λ h. from h.0)
  validate_against-Conforms (some null) required arguments =
      let (to, from) = validate_list-RequiredPresent arguments required in
      (λ e. (to e, tt), λ h. from h.0)
  validate_against-Conforms (some (obj properties)) required arguments =
      let (to, from) =
        and_then-IsValid (validate_list render required arguments)
          (validate_fields properties arguments) in
      let (there, back) = validate_list-RequiredPresent arguments required in
      let (first, first_back) = validate_fields-Declared properties arguments in
      (λ e. (there (to e).0, first (to e).1), λ h. from (back h.0, first_back h.1))
  validate_against-Conforms (some (bool b)) required arguments = (λ e. absurd cc, λ h. elim h.1 [ ])
  validate_against-Conforms (some (int n)) required arguments = (λ e. absurd cc, λ h. elim h.1 [ ])
  validate_against-Conforms (some (negative n)) required arguments =
      (λ e. absurd cc, λ h. elim h.1 [ ])
  validate_against-Conforms (some (float s)) required arguments =
      (λ e. absurd cc, λ h. elim h.1 [ ])
  validate_against-Conforms (some (str s)) required arguments = (λ e. absurd cc, λ h. elim h.1 [ ])
  validate_against-Conforms (some (arr xs)) required arguments = (λ e. absurd cc, λ h. elim h.1 [ ])

  names_object-ObjectType : (o : Option Json) → (names_object o ≡ true) ↔ ObjectType o
  names_object-ObjectType none = (λ _. tt, λ _. refl)
  names_object-ObjectType (some (str s)) = eq_iff s "object"
  names_object-ObjectType (some null) = (λ e. absurd cc, λ h. elim h [ ])
  names_object-ObjectType (some (bool b)) = (λ e. absurd cc, λ h. elim h [ ])
  names_object-ObjectType (some (int n)) = (λ e. absurd cc, λ h. elim h [ ])
  names_object-ObjectType (some (negative n)) = (λ e. absurd cc, λ h. elim h [ ])
  names_object-ObjectType (some (float s)) = (λ e. absurd cc, λ h. elim h [ ])
  names_object-ObjectType (some (arr xs)) = (λ e. absurd cc, λ h. elim h [ ])
  names_object-ObjectType (some (obj fs)) = (λ e. absurd cc, λ h. elim h [ ])

  -- The validator finds no error exactly if the arguments conform to the parameters of the tool: the schema
  -- is of type object (or names no type), every required name is a text and an argument, and, where the
  -- schema has properties, each argument is one of them, whose schema is an object with no type, with a
  -- type that the value has, or with a list of types of which the value has one. A type that the validator
  -- does not know allows every value.
  pub validate-Conforms :
      (tool : ToolDefinition) (arguments : Fields)
      → (validate render tool arguments ≡ valid) ↔ Conforms tool arguments
  unfolding validate
  validate-Conforms tool arguments =
      let schema = tool.parameters in
      let (named, unnamed) = names_object-ObjectType (get_field "type" schema) in
      let (to, from) =
        validate_against-Conforms (get_field "properties" schema) (get_field "required" schema)
          arguments in
      elim (Bool-cases (names_object (get_field "type" schema))) [
        | inl e ↦ rw e (λ h. (named e, (to h).0, (to h).1), λ h. from (h.1, h.2))
        | inr e ↦ rw e (λ h. absurd cc, λ h. absurd (let k = unnamed h.0 in cc))
      ]
