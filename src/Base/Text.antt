-- ===== src/Base/Text.antt =====
-- Texts by their code points: the tests that a `re.fullmatch` of a character class makes, `len`,
-- `in`, `removeprefix`, and the order of texts.
use Prim.Native.Nat.{ℕ, suc}
use Prim.Native.Char.{code}
use Prim.Native.String.{String, compare}
use mathlib.Core.Bool.{Bool, true, false, ◌&&◌, ◌||◌}
use mathlib.Core.Option.{Option, none, some}
use text.Mathlib.Text.{is_le}
use modelguard.Base.Equality.{◌==◌, nat_eq, if◌then◌else◌}
use modelguard.Base.Numbers.{leb}

abbrev pub all_codes : (ℕ → Bool) → String → Bool
all_codes p String.[] = true
all_codes p (String.◌∷◌ c s) = p (code c) && all_codes p s

abbrev pub any_code : (ℕ → Bool) → String → Bool
any_code p String.[] = false
any_code p (String.◌∷◌ c s) = p (code c) || any_code p s

-- `len(s)`
abbrev pub code_count : String → ℕ
code_count String.[] = 0
code_count (String.◌∷◌ c s) = suc (code_count s)

-- The rest of the second text behind the first, if it begins with it.
abbrev pub strip_prefix : String → String → Option String
strip_prefix String.[] s = some s
strip_prefix (String.◌∷◌ c p) String.[] = none
strip_prefix (String.◌∷◌ c p) (String.◌∷◌ d s) =
    let rest = strip_prefix p s in if code c == code d then rest else none

-- `s.removeprefix(p)`
abbrev pub remove_prefix : String → String → String
remove_prefix p s = elim (strip_prefix p s) [ none ↦ s | some rest ↦ rest ]

-- `s.split(sep, 1)[-1]`, for a separator of one character: what follows its first occurrence.
abbrev pub after_first : ℕ → String → Option String
after_first sep String.[] = none
after_first sep (String.◌∷◌ c s) =
    let rest = after_first sep s in if code c == sep then some s else rest

abbrev pub split_last : ℕ → String → String
split_last sep s = elim (after_first sep s) [ none ↦ s | some rest ↦ rest ]

-- `[0-9a-f]`
unfoldable pub is_lower_hex : ℕ → Bool
is_lower_hex c = leb b'0' c && leb c b'9' || leb b'a' c && leb c b'f'

-- `re.fullmatch("[0-9a-f]{64}", s)`
unfoldable pub is_sha256_hex : String → Bool
unfolding is_lower_hex
is_sha256_hex s = code_count s == 64 && all_codes is_lower_hex s

-- `s <= t`
abbrev pub text_le : String → String → Bool
text_le s t = is_le (compare s t)

-- The methods of a text whose tables of characters are Python's: `strip`, `lower`, and
-- `unicodedata.normalize("NFC", ...)`.
pub record TextMethods : Type 0 where
  pub strip : String → String
  pub lower : String → String
  pub nfc : String → String

-- `unicodedata.category(ch) == "Cc"`
unfoldable pub is_control : ℕ → Bool
is_control c = leb c 0x1f || leb 0x7f c && leb c 0x9f
