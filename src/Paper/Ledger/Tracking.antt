-- ===== src/Paper/Ledger/Tracking.antt =====
-- What the ledger finds open behind each operation.
use Prim.Native.String.{String}
use text.Mathlib.Text.{◌==◌}
use text.Mathlib.TextPositions.{eq_refl}
use daily_alpha_engine.Common.{
  ◌≡◌, refl, ap, ◌∙◌, subst, Bool, true, false, ◌⊎◌, inl, inr, not, Option, none, some, List, [],
  ◌∷◌, ◌++◌, ok, if◌then◌else◌, arith,
}
use daily_alpha_engine.Common.Floats.{Floats}
use daily_alpha_engine.Common.Text.{upper}
use daily_alpha_engine.Paper.Models.{InstrumentSelected, option, stock, no_instrument}
use daily_alpha_engine.Paper.Ledger.{
  PaperTrade, Fill, Event, Store, OpenRequest, open_event, add_event, partial_event, close_event,
  events_of, append, put_trade, pop_trade, apply_event, apply_events, find_open,
}
use daily_alpha_engine.Paper.Ledger.Operations.{
  opened_trade, open_trade, added_trade, add_fresh, add_trade, reduced_trade, partial_fresh,
  partial_trade, closed_trade, close_trade, signal_or,
}

matched : {A : Type 0} (b : Bool) (x y : A) → b ≡ true → (if not b then x else y) ≡ y
matched true x y h = refl
matched false x y h = cc

is_same : (a b : String) → a ≡ b → (a == b) ≡ true
is_same a b h = rw h (eq_refl b)

module _ {F : Type 0} where
  apply_events-append :
      (symbol : String) (d : List (PaperTrade F)) (es : List (Event F)) (e : Event F)
      → apply_events symbol d (es ++ (e ∷ [])) ≡ apply_event symbol (apply_events symbol d es) e
  unfolding apply_events
  apply_events-append symbol d [] e = refl
  apply_events-append symbol d (x ∷ es) e = apply_events-append symbol (apply_event symbol d x) es e

  events_of-append :
      (i : InstrumentSelected) (e : Event F) (s : Store F)
      → events_of i (append i e s) ≡ events_of i s ++ (e ∷ [])
  unfolding events_of append
  events_of-append option e s = refl
  events_of-append stock e s = refl
  events_of-append no_instrument e s = refl

  find_open-append :
      (symbol : String) (i : InstrumentSelected) (e : Event F) (s : Store F)
      → find_open symbol (some i) (append i e s)
        ≡ apply_event symbol (find_open symbol (some i) s) e
  unfolding find_open
  find_open-append symbol i e s =
      ap (apply_events symbol []) (events_of-append i e s)
      ∙ apply_events-append symbol [] (events_of i s) e

  put_trade-same : (t u : PaperTrade F) → t.trade_id ≡ u.trade_id → put_trade u (t ∷ []) ≡ u ∷ []
  unfolding put_trade
  put_trade-same t u h = rw h (rw (eq_refl u.trade_id) refl)

  pop_trade-same : (t u : PaperTrade F) → t.trade_id ≡ u.trade_id → pop_trade u (t ∷ []) ≡ []
  unfolding pop_trade
  pop_trade-same t u h = rw h (rw (eq_refl u.trade_id) refl)

module _ {F : Type 0} ⦃fl : Floats F⦄ where
  -- What `find_open` gives for the symbol and instrument of a trade, on the store that a call returns.
  Tracks : String → InstrumentSelected → Store F × PaperTrade F → Type 0
  Tracks symbol i (s, t) = find_open symbol (some i) s ≡ t ∷ []

  open_trade-ok :
      (new_id : String) (q : OpenRequest F) (s : Store F) (p : Store F × PaperTrade F)
      → open_trade new_id q s ≡ ok p
      → (find_open q.symbol (some q.instrument) s ≡ [])
        × ((
          append q.instrument
              (record {
                kind = open_event;
                signal_id = q.signal_id;
                fill = none;
                trade = opened_trade new_id q;
              })
              s,
          opened_trade new_id q,
        )
            ≡ p)
  unfolding open_trade
  open_trade-ok new_id q s p h = ground arith

  -- A trade that was opened is what the ledger then finds open for its symbol and instrument, and
  -- all that it finds.
  pub open_trade-find_open :
      (new_id : String) (q : OpenRequest F) (s s' : Store F) (t : PaperTrade F)
      → open_trade new_id q s ≡ ok (s', t)
      → find_open q.symbol (some q.instrument) s' ≡ t ∷ []
  unfolding Tracks apply_event opened_trade put_trade
  open_trade-find_open new_id q s s' t h =
      let (free, eq) = open_trade-ok new_id q s (s', t) h in
      subst (Tracks q.symbol q.instrument) eq (
        find_open-append q.symbol q.instrument _ s
        ∙ matched (upper q.symbol == upper q.symbol) _ _ (eq_refl (upper q.symbol))
        ∙ ap (put_trade (opened_trade new_id q)) free)

  add_trade-ok :
      (t : PaperTrade F) (signal_id : String) (f : Fill F) (s : Store F)
      (p : Store F × PaperTrade F)
      → add_trade t signal_id f s ≡ ok p
      → ((s, t) ≡ p)
        ⊎ ((
          append t.instrument
              (record {
                kind = add_event;
                signal_id = signal_id;
                fill = some f;
                trade = added_trade t signal_id f;
              })
              s,
          added_trade t signal_id f,
        )
            ≡ p)
  unfolding add_trade add_fresh
  add_trade-ok t signal_id f s p h = ground arith

  -- When a trade is all that is found open for its symbol and instrument, then behind an ADD to it,
  -- new or repeated, the trade that the ADD returns is.
  pub add_trade-find_open :
      (symbol : String) (t t' : PaperTrade F) (signal_id : String) (f : Fill F) (s s' : Store F)
      → find_open symbol (some t.instrument) s ≡ t ∷ []
      → t.symbol ≡ upper symbol
      → add_trade t signal_id f s ≡ ok (s', t')
      → find_open symbol (some t.instrument) s' ≡ t' ∷ []
  unfolding Tracks apply_event added_trade
  add_trade-find_open symbol t t' signal_id f s s' found same h =
      elim (add_trade-ok t signal_id f s (s', t') h) [
        | inl eq ↦ subst (Tracks symbol t.instrument) eq found
        | inr eq ↦ subst (Tracks symbol t.instrument) eq (
            find_open-append symbol t.instrument _ s
            ∙ matched (t.symbol == upper symbol) _ _ (is_same t.symbol (upper symbol) same)
            ∙ ap (put_trade (added_trade t signal_id f)) found
            ∙ put_trade-same t (added_trade t signal_id f) refl)
      ]

  partial_trade-ok :
      (t : PaperTrade F) (signal_id : String) (f : Fill F) (s : Store F)
      (p : Store F × PaperTrade F)
      → partial_trade t signal_id f s ≡ ok p
      → ((s, t) ≡ p)
        ⊎ ((
          append t.instrument
              (record {
                kind = partial_event;
                signal_id = signal_id;
                fill = some f;
                trade = reduced_trade t signal_id f;
              })
              s,
          reduced_trade t signal_id f,
        )
            ≡ p)
  unfolding partial_trade partial_fresh
  partial_trade-ok t signal_id f s p h = ground arith

  -- When a trade is all that is found open for its symbol and instrument, then behind a PARTIAL of
  -- it, new or repeated, the trade that the PARTIAL returns is.
  partial_trade-find_open :
      (symbol : String) (t t' : PaperTrade F) (signal_id : String) (f : Fill F) (s s' : Store F)
      → find_open symbol (some t.instrument) s ≡ t ∷ []
      → t.symbol ≡ upper symbol
      → partial_trade t signal_id f s ≡ ok (s', t')
      → find_open symbol (some t.instrument) s' ≡ t' ∷ []
  unfolding Tracks apply_event reduced_trade
  partial_trade-find_open symbol t t' signal_id f s s' found same h =
      elim (partial_trade-ok t signal_id f s (s', t') h) [
        | inl eq ↦ subst (Tracks symbol t.instrument) eq found
        | inr eq ↦ subst (Tracks symbol t.instrument) eq (
            find_open-append symbol t.instrument _ s
            ∙ matched (t.symbol == upper symbol) _ _ (is_same t.symbol (upper symbol) same)
            ∙ ap (put_trade (reduced_trade t signal_id f)) found
            ∙ put_trade-same t (reduced_trade t signal_id f) refl)
      ]

  close_trade-ok :
      (t : PaperTrade F) (price : F) (time : String) (signal : Option String) (s : Store F)
      (p : Store F × PaperTrade F)
      → close_trade t price time signal s ≡ ok p
      → (signal_id : String) × ((
        append t.instrument
            (record {
              kind = close_event;
              signal_id = signal_id;
              fill = none;
              trade = closed_trade t price time;
            })
            s,
        closed_trade t price time,
      )
          ≡ p)
  unfolding close_trade
  close_trade-ok t price time signal s p h = (signal_or signal t.signal_id, ground arith)

  -- When a trade is all that is found open for its symbol and instrument, nothing is behind its close.
  pub close_trade-find_open :
      (symbol : String) (t t' : PaperTrade F) (price : F) (time : String) (signal : Option String)
      (s s' : Store F)
      → find_open symbol (some t.instrument) s ≡ t ∷ []
      → t.symbol ≡ upper symbol
      → close_trade t price time signal s ≡ ok (s', t')
      → find_open symbol (some t.instrument) s' ≡ []
  unfolding apply_event closed_trade
  close_trade-find_open symbol t t' price time signal s s' found same h =
      let (signal_id, eq) = close_trade-ok t price time signal s (s', t') h in
      subst (λ (p : Store F × PaperTrade F). find_open symbol (some t.instrument) p.0 ≡ []) eq
        (find_open-append symbol t.instrument _ s
          ∙ matched (t.symbol == upper symbol) _ _ (is_same t.symbol (upper symbol) same)
          ∙ ap (pop_trade (closed_trade t price time)) found
          ∙ pop_trade-same t (closed_trade t price time) refl)
