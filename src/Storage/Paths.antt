-- ===== src/Storage/Paths.antt =====
-- `_check_relative_path` of src/modelguard/storage/transfer.py: which paths of a manifest are followed.
use Prim.Native.Char.{code}
use modelguard.Base.{
  ℕ, String, ◌≡◌, ◌≤◌, ◌≢◌, Bool, false, ◌||◌, List, [], ◌∷◌, All, any, ◌<>◌, arith,
}
use modelguard.Base.{
  neither, ◌==◌, string_eq, nat_eq, contains, ltb, any_code, code_count, is_control, if◌then◌else◌,
}
use modelguard.Base.Result.{Result, ok, err}
use modelguard.Exceptions.{Exception, artifact_integrity}

abbrev pub max_segment : ℕ
max_segment = 255

abbrev pub max_path : ℕ
max_path = 4096

abbrev first_code_is : ℕ → String → Bool
first_code_is n String.[] = false
first_code_is n (String.◌∷◌ c s) = code c == n

-- `path.split("/")`
abbrev extend_first : String → List String → List String
extend_first c [] = c ∷ []
extend_first c (s ∷ ss) = (c <> s) ∷ ss

unfoldable pub segments : String → List String
segments String.[] = "" ∷ []
segments (String.◌∷◌ c s) =
    let rest = segments s in
    if code c == b'/' then "" ∷ rest else extend_first (String.◌∷◌ c String.[]) rest

unfoldable pub bad_segment : String → Bool
bad_segment s = contains ("" ∷ "." ∷ ".." ∷ []) s || ltb max_segment (code_count s)

unfoldable pub check_relative_path : String → Result Exception (Unit {0})
unfolding segments bad_segment is_control
check_relative_path path =
    if path == "" || ltb max_path (code_count path)
    then err (artifact_integrity "empty or too long")
    else if first_code_is b'/' path || any_code (λ c. c == b'\\') path
    then err (artifact_integrity "absolute or contains a backslash")
    else if any_code is_control path
    then err (artifact_integrity "contains control characters")
    else if any bad_segment (segments path)
    then err (artifact_integrity "has an empty, '.', '..' or over-long segment")
    else ok tt

-- A path that stays below the directory it is joined to: no part of it is empty or a `.` or `..`.
pub record IsSafePath (path : String) : Type 0 where
  pub short : code_count path ≤ max_path
  pub no_backslash : any_code (λ c. c == b'\\') path ≡ false
  pub no_control : any_code is_control path ≡ false
  pub parts :
      All (λ s. (s ≢ "") × (s ≢ ".") × (s ≢ "..") × (code_count s ≤ max_segment)) (segments path)

bad_segment-false :
    (s : String)
    → bad_segment s ≡ false
    → (s ≢ "") × (s ≢ ".") × (s ≢ "..") × (code_count s ≤ max_segment)
unfolding bad_segment
bad_segment-false s h = ground arith

pub not_above : (m n : ℕ) → ltb m n ≡ false → n ≤ m
not_above m n h = ground arith

parts_of :
    (ss : List String)
    → any bad_segment ss ≡ false
    → All (λ s. (s ≢ "") × (s ≢ ".") × (s ≢ "..") × (code_count s ≤ max_segment)) ss
parts_of [] h = tt
parts_of (s ∷ ss) h =
    let (here, there) = neither (bad_segment s) (any bad_segment ss) h in
    (bad_segment-false s here, parts_of ss there)

abbrev accepted : Result Exception (Unit {0})
accepted = ok tt

refusals_passed :
    (a b c d : Bool) (w x y z : Exception)
    → (if a then err w else if b then err x else if c then err y else if d then err z else ok tt)
      ≡ accepted
    → (a ≡ false) × (b ≡ false) × (c ≡ false) × (d ≡ false)
refusals_passed a b c d w x y z h = ground arith

-- A path is accepted only if it is safe.
pub check_relative_path-IsSafePath :
    (path : String) → check_relative_path path ≡ ok tt → IsSafePath path
unfolding check_relative_path
check_relative_path-IsSafePath path h =
    let (sized, rooted, control, parts) =
      refusals_passed (path == "" || ltb max_path (code_count path))
        (first_code_is b'/' path || any_code (λ c. c == b'\\') path) (any_code is_control path)
        (any bad_segment (segments path)) _ _ _ _ h in
    record {
      short = not_above max_path (code_count path) (neither (path == "") _ sized).1;
      no_backslash = (neither (first_code_is b'/' path) _ rooted).1;
      no_control = control;
      parts = parts_of (segments path) parts;
    }
