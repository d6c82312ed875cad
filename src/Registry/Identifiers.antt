-- ===== src/Registry/Identifiers.antt =====
-- src/modelguard/registry/identifiers.py: which texts may name a model or a version.
use modelguard.Base.{ℕ, String, TextMethods, ◌≡◌, ◌↔◌, Bool, false, not, ◌||◌, Option, none, some}
use modelguard.Base.{
  ltb, ◌≤◌, ◌==◌, nat_eq, string_eq, if◌then◌else◌, code_count, any_code, is_control, arith,
}
use modelguard.Base.Result.{Result, ok, err}
use modelguard.Exceptions.{Exception, invalid_identifier}

abbrev pub max_identifier_length : ℕ
max_identifier_length = 200

abbrev pub is_separator : ℕ → Bool
is_separator c = c == b'/' || c == b'\\'

-- `_problem`
unfoldable pub problem : TextMethods → String → Option String
unfolding is_control
problem py value =
    if value == ""
    then some "must not be empty"
    else if ltb max_identifier_length (code_count value)
    then some "longer than 200 characters"
    else if value == "." || value == ".."
    then some "must not be '.' or '..'"
    else if any_code is_separator value
    then some "must not contain path separators"
    else if any_code is_control value
    then some "must not contain control characters"
    else if not (value == py.strip value)
    then some "must not have leading or trailing whitespace"
    else if not (py.nfc value == value)
    then some "must be Unicode NFC-normalized"
    else none

unfoldable pub validate_identifier : TextMethods → String → String → Result Exception String
validate_identifier py value field_name = elim (problem py value) [
  | none ↦ ok value
  | some why ↦ err (invalid_identifier field_name value why)
]

-- A text that can name nothing but one entry of the directory that it is looked up in.
pub record IsSafe (py : TextMethods) (value : String) : Type 0 where
  pub some_text : ¬ (value ≡ "")
  pub short : code_count value ≤ max_identifier_length
  pub no_dot : ¬ (value ≡ ".")
  pub no_dots : ¬ (value ≡ "..")
  pub no_separator : any_code is_separator value ≡ false
  pub no_control : any_code is_control value ≡ false
  pub trimmed : value ≡ py.strip value
  pub normal : py.nfc value ≡ value

problem-none : (py : TextMethods) (value : String) → (problem py value ≡ none) ↔ IsSafe py value
unfolding problem
problem-none py value = ground arith

-- An identifier is accepted exactly when it is safe, whatever the field is called, and is then
-- returned as it was given.
pub validate_identifier_iff :
    (py : TextMethods) (value field_name result : String)
    → (validate_identifier py value field_name ≡ ok result) ↔ (IsSafe py value × (result ≡ value))
unfolding validate_identifier
validate_identifier_iff py value field_name result = ground (arith, problem-none py value)
