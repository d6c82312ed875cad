-- ===== src/Base/Truth.antt =====
-- Python's truth value of an optional text, and `a or b` on texts.
use Prim.Native.String.{String}
use mathlib.Core.Bool.{Bool, true, false, not}
use mathlib.Core.Option.{Option, none, some}
use modelguard.Base.Equality.{◌==◌, string_eq, if◌then◌else◌}

-- `bool(s)`
unfoldable pub text_truth : String → Bool
text_truth s = not (s == "")

-- `bool(o)` at a value that is `None` or a text
unfoldable pub truth : Option String → Bool
unfolding text_truth
truth none = false
truth (some s) = text_truth s

-- `o or fallback`
unfoldable pub or_text : Option String → String → String
unfolding truth
or_text none fallback = fallback
or_text (some s) fallback = if text_truth s then s else fallback

-- `o is not None`
abbrev pub is_some {ℓ} : {A : Type ℓ} → Option A → Bool
is_some none = false
is_some (some _) = true
