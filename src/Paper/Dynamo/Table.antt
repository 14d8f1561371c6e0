-- ===== src/Paper/Dynamo/Table.antt =====
-- What DynamoDB documents of the two calls that src/daily_alpha/dynamo_ledger.py makes: a transaction
-- tests every condition on the table as it stands, and then writes all of its items or none.
use Prim.Native.String.{String}
use text.Mathlib.Text.{◌==◌}
use text.Mathlib.TextEquality.{path_by_compare}
use text.Mathlib.TextPositions.{eq_refl}
use daily_alpha_engine.Common.{
  Bool, true, false, ◌≡◌, ◌⊎◌, not, ◌&&◌, Option, none, some, List, [], ◌∷◌, ok, err, if◌then◌else◌,
  is_some, some_and, arith,
}
use daily_alpha_engine.Paper.Dynamo.{
  Key, Item, Condition, key_absent, trade_is, Write, put, delete, Client, is_conflict,
}

pub is_eq_sound : (a b : String) → (a == b) ≡ true → a ≡ b
is_eq_sound a b h = path_by_compare a b (ground arith)

unfoldable pub key_eq : Key → Key → Bool
key_eq a b = a.pk == b.pk && a.sk == b.sk

pub key_eq_sound : (a b : Key) → key_eq a b ≡ true → a ≡ b
unfolding key_eq
key_eq_sound a b h = ground (arith, is_eq_sound a.pk b.pk, is_eq_sound a.sk b.sk)

pub key_eq_refl : (a : Key) → key_eq a a ≡ true
unfolding key_eq
key_eq_refl a = rw (eq_refl a.pk) (eq_refl a.sk)

abbrev pub Table : Type 0 → Type 0
Table F = Key → Option (Item F)

module _ {F : Type 0} where
  abbrev pub holds : Condition → Option (Item F) → Bool
  holds key_absent found = not (is_some found)
  holds (trade_is id) found = some_and found (λ item. item.trade_id == id)

  unfoldable pub all_hold : List (Write F) → Table F → Bool
  all_hold [] m = true
  all_hold (put item condition ∷ ws) m = holds condition (m item.key) && all_hold ws m
  all_hold (delete key condition ∷ ws) m = holds condition (m key) && all_hold ws m

  unfoldable pub update : Table F → Key → Option (Item F) → Table F
  update m key value k = if key_eq key k then value else m k

  unfoldable pub written : List (Write F) → Table F → Table F
  written [] m = m
  written (put item _ ∷ ws) m = written ws (update m item.key (some item))
  written (delete key _ ∷ ws) m = written ws (update m key none)

  -- What a transaction may have done to a table, from the outside.
  abbrev pub Effect : List (Write F) → Table F → Table F → Type 0
  Effect ws m m' =
      ((k : Key) → m' k ≡ m k) ⊎ ((all_hold ws m ≡ true) × ((k : Key) → m' k ≡ written ws m k))

-- A request may fail at any time. A read changes nothing; a transaction that succeeds was written, one
-- that is cancelled was not, and one that fails otherwise (a lost answer) may have been.
pub record IsClient {S F : Type 0} (client : Client S F) (table : S → Table F) : Type 0 where
  pub get_keeps : (key : Key) (s : S) (k : Key) → table (client.get_item key s).0 k ≡ table s k
  pub get_reads :
      (key : Key) (s : S) (found : Option (Item F))
      → (client.get_item key s).1 ≡ ok found
      → found ≡ table s key
  pub write_ok :
      (ws : List (Write F)) (s : S)
      → (client.transact_write_items ws s).1 ≡ ok tt
      → (all_hold ws (table s) ≡ true)
        × ((k : Key) → table (client.transact_write_items ws s).0 k ≡ written ws (table s) k)
  pub write_cancelled :
      (ws : List (Write F)) (s : S) (code : String)
      → (client.transact_write_items ws s).1 ≡ err code
      → is_conflict code ≡ true
      → (k : Key) → table (client.transact_write_items ws s).0 k ≡ table s k
  pub write_failed :
      (ws : List (Write F)) (s : S) (code : String)
      → (client.transact_write_items ws s).1 ≡ err code
      → Effect ws (table s) (table (client.transact_write_items ws s).0)

-- While every request gets its answer, a transaction is written exactly when its conditions hold.
pub record IsAnswering {S F : Type 0} (client : Client S F) (table : S → Table F) : Type 0 where
  pub get : (key : Key) (s : S) → client.get_item key s ≡ (s, ok (table s key))
  pub write :
      (ws : List (Write F)) (s : S)
      → all_hold ws (table s) ≡ true
      → (s' : S) × (client.transact_write_items ws s ≡ (s', ok tt))
        × ((k : Key) → table s' k ≡ written ws (table s) k)
  pub cancel :
      (ws : List (Write F)) (s : S)
      → all_hold ws (table s) ≡ false
      → client.transact_write_items ws s ≡ (s, err "TransactionCanceledException")
