-- ===== src/Base/Json.antt =====
-- `json.dumps(value, sort_keys=True, separators=(",", ":")).encode("utf-8")`, with the ASCII escapes
-- that `dumps` writes by default. An object is the list of its members; a number is not negative.
use Prim.Native.Nat.{ℕ, zero, suc, ◌+◌, ◌-◌, ◌*◌, ◌/◌, ◌%◌, ◌<◌}
use Prim.Native.String.{String}
use mathlib.Core.Path.{◌≡◌, ap, ◌∙◌}
use mathlib.Core.Logic.{inl, inr}
use mathlib.Core.Bool.{Bool, true, false, ◌||◌}
use mathlib.Core.List.{List, [], ◌∷◌, ◌++◌}
use native.Mathlib.Omega.{arith}
use modelguard.Base.Equality.{◌==◌, nat_eq, if◌then◌else◌}
use modelguard.Base.Numbers.{ltb, Bool-cases}
use modelguard.Base.Text.{text_le}
use modelguard.Base.Bytes.{Bytes, codes, hex_digit}

mutual
  pub data Json : Type 0 where
    null : Json
    bool : Bool → Json
    number : ℕ → Json
    text : String → Json
    array : Items → Json
    object : Members → Json

  pub data Items : Type 0 where
    nil : Items
    cons : Json → Items → Items

  pub data Members : Type 0 where
    end : Members
    member : String → Json → Members → Members

-- The decimal digits of a number; a number below its fuel is written whole.
unfoldable pub decimal_onto : ℕ → ℕ → Bytes → Bytes
decimal_onto zero n out = out
decimal_onto (suc f) n out =
    let more = decimal_onto f (n / 10) ((n % 10 + b'0') ∷ out) in
    if ltb n 10 then (n + b'0') ∷ out else more

unfoldable pub decimal : ℕ → Bytes
unfolding decimal_onto
decimal n = decimal_onto (suc n) n []

-- `\uXXXX`
unfoldable pub unicode_escape : ℕ → Bytes
unfolding hex_digit
unicode_escape c =
    b'\\'
    ∷ b'u'
    ∷ hex_digit (c / 0x1000)
    ∷ hex_digit (c / 0x100 % 16)
    ∷ hex_digit (c / 16 % 16)
    ∷ hex_digit (c % 16)
    ∷ []

unfoldable pub escape_code : ℕ → Bytes
unfolding unicode_escape
escape_code c =
    if c == 0x22
    then b'\\' ∷ c ∷ []
    else if c == 0x5c
    then b'\\' ∷ c ∷ []
    else if c == 0x0a
    then b'\\' ∷ b'n' ∷ []
    else if c == 0x0d
    then b'\\' ∷ b'r' ∷ []
    else if c == 0x09
    then b'\\' ∷ b't' ∷ []
    else if c == 0x0c
    then b'\\' ∷ b'f' ∷ []
    else if c == 0x08
    then b'\\' ∷ b'b' ∷ []
    else if ltb c 0x20 || ltb 0x7e c
    then (if ltb c 0x10000
        then unicode_escape c
        else unicode_escape (0xd800 + (c - 0x10000) / 0x400)
          ++ unicode_escape (0xdc00 + (c - 0x10000) % 0x400))
    else c ∷ []

unfoldable pub escape_codes : List ℕ → Bytes
unfolding escape_code
escape_codes [] = []
escape_codes (c ∷ cs) = escape_code c ++ escape_codes cs

unfoldable pub quoted : String → Bytes
unfolding escape_codes
quoted s = 0x22 ∷ (escape_codes (codes s) ++ 0x22 ∷ [])

-- A member is put in the place that the order of the keys gives it.
unfoldable pub insert_member : String → Json → Members → Members
insert_member k v end = member k v end
insert_member k v (member j w ms) =
    if text_le k j then member k v (member j w ms) else member j w (insert_member k v ms)

-- All objects with their members sorted by key.
unfoldable mutual
  unfolding insert_member

  pub sort_keys : Json → Json
  sort_keys (array xs) = array (sort_items xs)
  sort_keys (object ms) = object (sort_members ms)
  sort_keys null = null
  sort_keys (bool b) = bool b
  sort_keys (number n) = number n
  sort_keys (text s) = text s

  pub sort_items : Items → Items
  sort_items nil = nil
  sort_items (cons x xs) = cons (sort_keys x) (sort_items xs)

  pub sort_members : Members → Members
  sort_members end = end
  sort_members (member k v ms) = insert_member k (sort_keys v) (sort_members ms)

-- The bytes of a value, behind `first`: what separates it from its neighbour.
unfoldable mutual
  unfolding decimal quoted

  pub print : Json → Bytes
  print null = codes "null"
  print (bool true) = codes "true"
  print (bool false) = codes "false"
  print (number n) = decimal n
  print (text s) = quoted s
  print (array xs) = b'[' ∷ print_items xs false
  print (object ms) = b'{' ∷ print_members ms false

  pub print_items : Items → Bool → Bytes
  print_items nil follows = b']' ∷ []
  print_items (cons x xs) true = b',' ∷ (print x ++ print_items xs true)
  print_items (cons x xs) false = print x ++ print_items xs true

  pub print_members : Members → Bool → Bytes
  print_members end follows = b'}' ∷ []
  print_members (member k v ms) true =
      b',' ∷ (quoted k ++ b':' ∷ (print v ++ print_members ms true))
  print_members (member k v ms) false = quoted k ++ b':' ∷ (print v ++ print_members ms true)

unfoldable pub dumps : Json → Bytes
unfolding sort_keys print
dumps value = print (sort_keys value)

-- What decimal digits stand for, read behind a number.
unfoldable pub read_decimal : Bytes → ℕ → ℕ
read_decimal [] n = n
read_decimal (c ∷ cs) n = read_decimal cs (n * 10 + (c - b'0'))

read_decimal-decimal_onto :
    (f n : ℕ) (out : Bytes) → n < f → read_decimal (decimal_onto f n out) 0 ≡ read_decimal out n
unfolding read_decimal decimal_onto
read_decimal-decimal_onto zero n out h = elim h [ ]
read_decimal-decimal_onto (suc f) n out h = elim (Bool-cases (ltb n 10)) [
  | inl small ↦ rw small (ap (read_decimal out) (omega arith))
  | inr large ↦ rw large (
      read_decimal-decimal_onto f (n / 10) ((n % 10 + b'0') ∷ out) (ground arith)
      ∙ ap (read_decimal out) (omega arith))
]

-- The fuel is enough: the digits of a number are read back as the number.
pub read_decimal-decimal : (n : ℕ) → read_decimal (decimal n) 0 ≡ n
unfolding decimal read_decimal
read_decimal-decimal n = read_decimal-decimal_onto (suc n) n [] (omega arith)
