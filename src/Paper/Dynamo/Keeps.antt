-- ===== src/Paper/Dynamo/Keeps.antt =====
-- src/daily_alpha/dynamo_ledger.py: what the conditions of a transaction protect.
use Prim.Native.String.{String}
use text.Mathlib.Text.{◌==◌}
use daily_alpha_engine.Common.{
  Bool, true, false, Bool-cases, ◌≡◌, ap, inl, inr, not, ◌&&◌, Option, none, some, List, [], ◌∷◌,
  arith,
}
use daily_alpha_engine.Paper.Dynamo.{Key, Item, key_absent, trade_is, Write, put, delete}
use daily_alpha_engine.Paper.Dynamo.Table.{
  key_eq, key_eq_sound, Table, holds, all_hold, update, written,
}

and_left : (a b : Bool) → a && b ≡ true → a ≡ true
and_left a b h = ground arith

and_right : (a b : Bool) → a && b ≡ true → b ≡ true
and_right a b h = ground arith

module _ {F : Type 0} where
  -- The conditions of a transaction let it touch this item only if it is not of the trade named.
  unfoldable pub spares : List (Write F) → Key → Item F → Bool
  spares [] k item = true
  spares (put _ key_absent ∷ ws) k item = spares ws k item
  spares (put w (trade_is id) ∷ ws) k item =
      not (item.trade_id == id && key_eq w.key k) && spares ws k item
  spares (delete _ key_absent ∷ ws) k item = spares ws k item
  spares (delete key (trade_is id) ∷ ws) k item =
      not (item.trade_id == id && key_eq key k) && spares ws k item

  absent-elsewhere :
      (m : Table F) (key k : Key) (item : Item F)
      → m k ≡ some item
      → holds key_absent (m key) ≡ true
      → key_eq key k ≡ false
  absent-elsewhere m key k item h absent = elim (Bool-cases (key_eq key k)) [
    | inl eq ↦ absurd (ground (arith, ap m (key_eq_sound key k eq)))
    | inr neq ↦ neq
  ]

  named-elsewhere :
      (m : Table F) (key k : Key) (id : String) (item : Item F)
      → m k ≡ some item
      → holds (trade_is id) (m key) ≡ true
      → not (item.trade_id == id && key_eq key k) ≡ true
      → key_eq key k ≡ false
  named-elsewhere m key k id item h named spared = elim (Bool-cases (key_eq key k)) [
    | inl eq ↦ absurd (ground (arith, ap m (key_eq_sound key k eq)))
    | inr neq ↦ neq
  ]

  update-kept :
      (m : Table F) (key k : Key) (value : Option (Item F)) (item : Item F)
      → m k ≡ some item
      → key_eq key k ≡ false
      → update m key value k ≡ some item
  unfolding update
  update-kept m key k value item h neq = rw neq h

  pub written-kept :
      (ws : List (Write F)) (m₀ m : Table F) (k : Key) (item : Item F)
      → m₀ k ≡ some item
      → m k ≡ some item
      → all_hold ws m₀ ≡ true
      → spares ws k item ≡ true
      → written ws m k ≡ some item
  unfolding spares all_hold written
  written-kept [] m₀ m k item h₀ h holding spared = h
  written-kept (put w key_absent ∷ ws) m₀ m k item h₀ h holding spared =
      written-kept ws m₀ (update m w.key (some w)) k item h₀
        (update-kept m w.key k (some w) item h
          (absent-elsewhere m₀ w.key k item h₀ (and_left _ _ holding)))
        (and_right _ _ holding) spared
  written-kept (put w (trade_is id) ∷ ws) m₀ m k item h₀ h holding spared =
      written-kept ws m₀ (update m w.key (some w)) k item h₀
        (update-kept m w.key k (some w) item h
          (named-elsewhere m₀ w.key k id item h₀ (and_left _ _ holding) (and_left _ _ spared)))
        (and_right _ _ holding) (and_right _ _ spared)
  written-kept (delete key key_absent ∷ ws) m₀ m k item h₀ h holding spared =
      written-kept ws m₀ (update m key none) k item h₀
        (update-kept m key k none item h (absent-elsewhere m₀ key k item h₀ (and_left _ _ holding)))
        (and_right _ _ holding) spared
  written-kept (delete key (trade_is id) ∷ ws) m₀ m k item h₀ h holding spared =
      written-kept ws m₀ (update m key none) k item h₀
        (update-kept m key k none item h
          (named-elsewhere m₀ key k id item h₀ (and_left _ _ holding) (and_left _ _ spared)))
        (and_right _ _ holding) (and_right _ _ spared)
