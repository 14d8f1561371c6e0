-- ===== src/Common/Text.antt =====
-- The parts of Python's `str` that the code uses, on native texts.
use Prim.Native.Nat.{ℕ, ◌-◌, ◌<◌, compare, Ordering}
use Prim.Native.Char.{Char, char, code, IsScalar}
use Prim.Native.String.{String}
use mathlib.Core.Path.{◌≡◌, refl}
use mathlib.Core.Logic.{dite}
use native.Mathlib.Omega.{arith}
use native.Mathlib.Decide.{dec_le}
use mathlib.Core.Bool.{Bool, true, ◌&&◌, ◌||◌}
use daily_alpha_engine.Common.Tests.{leb, ◌==◌, if◌then◌else◌}

-- The characters that `str.strip` removes: those for which `str.isspace` holds.
unfoldable pub is_space : ℕ → Bool
is_space c =
    (leb 9 c && leb c 13)
    || (leb 28 c && leb c 32)
    || c == 133
    || c == 160
    || c == 5760
    || (leb 8192 c && leb c 8202)
    || c == 8232
    || c == 8233
    || c == 8239
    || c == 8287
    || c == 12288

-- `not text.strip()`
unfoldable pub is_blank : String → Bool
unfolding is_space
is_blank String.[] = true
is_blank (String.◌∷◌ c s) = is_space (code c) && is_blank s

-- `not text`
abbrev pub is_empty : String → Bool
is_empty String.[] = true
is_empty (String.◌∷◌ c s) = Bool.false

below_compare : (n k : ℕ) → n < k → compare n k ≡ Ordering.lt
below_compare n k h = ground arith

-- A code below 128 is a character.
pub IsScalar-below : (n : ℕ) → n < 128 → IsScalar n
IsScalar-below n h = rw (below_compare n 55296 (omega arith)) tt

-- `text.upper()` on ASCII letters; other characters are left as they are.
upper_char : Char → Char
upper_char c =
    dite (dec_le 97 (code c))
      (λ low.
        dite (dec_le (code c) 122)
          (λ high. char (code c - 32) (IsScalar-below (code c - 32) (omega arith))) (λ _. c))
      (λ _. c)

unfoldable pub upper : String → String
unfolding upper_char dec_le
upper String.[] = String.[]
upper (String.◌∷◌ c s) = String.◌∷◌ (upper_char c) (upper s)

upper_acme : upper "acMe-1" ≡ "ACME-1"
unfolding upper
upper_acme = refl

-- `text.rstrip()` and `text.strip()`
rstrip : String → String
unfolding is_blank
rstrip String.[] = String.[]
rstrip (String.◌∷◌ c s) =
    let rest = rstrip s in if is_space (code c) && is_blank s then String.[] else String.◌∷◌ c rest

unfoldable pub strip : String → String
unfolding is_space rstrip is_blank
strip String.[] = String.[]
strip (String.◌∷◌ c s) =
    let rest = strip s in if is_space (code c) then rest else rstrip (String.◌∷◌ c s)

strip_acme : strip "  a b " ≡ "a b"
unfolding strip
strip_acme = refl
