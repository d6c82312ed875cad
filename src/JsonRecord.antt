-- ===== src/JsonRecord.antt =====
-- Reading the members of a parsed JSON object, `r["name"]` and `r.get("name")`, where the package
-- reads records of its logs.
use modelguard.Base.{String, Bool, false, Option, none, some}
use modelguard.Base.{◌==◌, string_eq, if◌then◌else◌}
use modelguard.Base.Json.{Json, text, null, object, Members, end, member}
use modelguard.Base.Result.{Result, ok, err, ◌>>=◌}
use modelguard.Exceptions.{Exception, key_error, validation_error, foreign}

-- A member of an object, or `KeyError`; of an object that names one twice, the last.
unfoldable pub find_member : Members → String → Option Json → Option Json
find_member end name found = found
find_member (member k v rest) name found =
    find_member rest name (if k == name then some v else found)

abbrev found_or_key_error : Option Json → Result Exception Json
found_or_key_error none = err key_error
found_or_key_error (some v) = ok v

unfoldable pub get_member : Json → String → Result Exception Json
get_member (object members) name = found_or_key_error (find_member members name none)
get_member _ name = err key_error

-- `value == s`, for a text `s`
unfoldable pub is_text : Json → String → Bool
is_text (text t) s = t == s
is_text _ s = false

-- The value of a field that the schema wants to be a text.
unfoldable pub text_member : Json → String → Result Exception String
text_member r name = do
  value ← get_member r name
  elim value [ text t ↦ ok t | _ ↦ err validation_error ]

-- A member that the annotations say is a text. Python takes any other value as it is; a log with one
-- is outside the model, and reading it is an error here.
unfoldable pub annotated_text : Json → String → Result Exception String
annotated_text r name = do
  value ← get_member r name
  elim value [ text t ↦ ok t | _ ↦ err (foreign "value outside the annotations") ]

-- The same for a member that may be absent or `null`.
unfoldable pub optional_text : Json → String → Result Exception (Option String)
optional_text r name = elim (get_member r name) [
  | err _ ↦ ok none
  | ok value ↦ elim value [
    | text t ↦ ok (some t)
    | null ↦ ok none
    | _ ↦ err (foreign "value outside the annotations")
  ]
]
