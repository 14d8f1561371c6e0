-- ===== src/Common/Results.antt =====
-- Code that may raise: `E` is the module's own type of errors, one constructor for each raise.
use mathlib.Core.Bool.{Bool, true, false}

pub data Result (E A : Type 0) : Type 0 where
  ok : A → Result E A
  err : E → Result E A

-- `if test: raise e`
abbrev pub raise_if : {E : Type 0} → Bool → E → Result E (Unit {0})
raise_if true e = err e
raise_if false e = ok tt

infixl 5 ◌>>=◌ ◌>>◌
abbrev pub ◌>>=◌ : {E A B : Type 0} → Result E A → (A → Result E B) → Result E B
ok result >>= rest = rest result
err raised >>= rest = err raised

abbrev pub ◌>>◌ : {E B : Type 0} → Result E (Unit {0}) → Result E B → Result E B
first >> second = first >>= λ _. second
