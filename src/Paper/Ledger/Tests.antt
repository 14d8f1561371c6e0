-- ===== src/Paper/Ledger/Tests.antt =====
-- Runs of the ledger: a trade is opened, added to and closed.
use daily_alpha_engine.Common.{ℕ, ◌≡◌, refl, none, some, [], ◌∷◌, ok}
use daily_alpha_engine.Common.Int.{pos}
use daily_alpha_engine.Common.Fixed.{Fixed, fixed_floats, fixed_open}
use daily_alpha_engine.Common.Text.{upper}
use daily_alpha_engine.Paper.Models.{stock}
use daily_alpha_engine.Paper.Ledger.{
  Fill, Store, OpenRequest, open_event, add_event, close_event, is_opened, events_of, append,
  put_trade, pop_trade, apply_event, apply_events, find_open, target_or, expected_prior,
}
use daily_alpha_engine.Paper.Ledger.Operations.{
  opened_trade, open_trade, added_trade, add_fresh, add_trade, closed_trade, close_trade,
}
use daily_alpha_engine.Paper.Ledger.Tracking.{
  open_trade-find_open, add_trade-find_open, close_trade-find_open,
}

abbrev price : ℕ → Fixed
price n = fixed_floats.dec n 0

abbrev request : OpenRequest Fixed
request = record {
  signal_id = "s-1";
  symbol = "acme";
  instrument = stock;
  quantity = pos 2;
  entry_price = price 100;
  entry_time = "2026-01-02";
  fallback_reason = "";
  option_expiration = none;
  option_strike = none;
  option_type = none;
  target_quantity = some (pos 4);
  runner_stage = "STARTER";
  sector = "Technology";
  initial_risk_basis = none;
}

abbrev no_trades : Store Fixed
no_trades = record { option_events = []; stock_events = [] }

abbrev one_trade : Store Fixed
one_trade =
    append stock
      (record {
        kind = open_event;
        signal_id = "s-1";
        fill = none;
        trade = opened_trade "id-1" request;
      })
      no_trades

open_trade-opens : open_trade "id-1" request no_trades ≡ ok (one_trade, opened_trade "id-1" request)
unfolding open_trade find_open apply_events events_of target_or fixed_open
open_trade-opens = refl

open_trade-find_open_example :
    find_open "acme" (some stock) one_trade ≡ opened_trade "id-1" request ∷ []
open_trade-find_open_example =
    open_trade-find_open "id-1" request no_trades one_trade (opened_trade "id-1" request)
      open_trade-opens

abbrev first_add : Fill Fixed
first_add = record { price = price 110; quantity = pos 1; time = "2026-01-05"; stage = "ADD_1_ATR" }

abbrev added_store : Store Fixed
added_store =
    append (opened_trade "id-1" request).instrument
      (record {
        kind = add_event;
        signal_id = "s-2";
        fill = some first_add;
        trade = added_trade (opened_trade "id-1" request) "s-2" first_add;
      })
      one_trade

add_trade-adds :
    add_trade (opened_trade "id-1" request) "s-2" first_add one_trade
    ≡ ok (added_store, added_trade (opened_trade "id-1" request) "s-2" first_add)
unfolding add_trade add_fresh opened_trade is_opened expected_prior target_or fixed_open
add_trade-adds = refl

opened-symbol : (opened_trade "id-1" request).symbol ≡ upper "acme"
unfolding opened_trade
opened-symbol = refl

opened-found :
    find_open "acme" (some (opened_trade "id-1" request).instrument) one_trade
    ≡ opened_trade "id-1" request ∷ []
unfolding opened_trade find_open append events_of apply_events apply_event put_trade upper
opened-found = refl

add_trade-find_open_example :
    find_open "acme" (some (opened_trade "id-1" request).instrument) added_store
    ≡ added_trade (opened_trade "id-1" request) "s-2" first_add ∷ []
add_trade-find_open_example =
    add_trade-find_open "acme" (opened_trade "id-1" request)
      (added_trade (opened_trade "id-1" request) "s-2" first_add) "s-2" first_add one_trade
      added_store opened-found opened-symbol add_trade-adds

abbrev closed_store : Store Fixed
closed_store =
    append (opened_trade "id-1" request).instrument
      (record {
        kind = close_event;
        signal_id = "s-9";
        fill = none;
        trade = closed_trade (opened_trade "id-1" request) (price 120) "2026-01-09";
      })
      one_trade

close_trade-closes :
    close_trade (opened_trade "id-1" request) (price 120) "2026-01-09" (some "s-9") one_trade
    ≡ ok (closed_store, closed_trade (opened_trade "id-1" request) (price 120) "2026-01-09")
unfolding close_trade opened_trade is_opened fixed_open
close_trade-closes = refl

close_trade-find_open_example :
    find_open "acme" (some (opened_trade "id-1" request).instrument) closed_store ≡ []
close_trade-find_open_example =
    close_trade-find_open "acme" (opened_trade "id-1" request)
      (closed_trade (opened_trade "id-1" request) (price 120) "2026-01-09") (price 120) "2026-01-09"
      (some "s-9") one_trade closed_store opened-found opened-symbol close_trade-closes

-- A handle that was taken before the close still accepts an ADD, and the trade is open again.
add_trade-reopens :
    find_open "acme" (some stock) (
      append stock
        (record {
          kind = add_event;
          signal_id = "s-2";
          fill = some first_add;
          trade = added_trade (opened_trade "id-1" request) "s-2" first_add;
        })
        closed_store)
    ≡ added_trade (opened_trade "id-1" request) "s-2" first_add ∷ []
unfolding opened_trade closed_trade added_trade find_open append events_of apply_events apply_event
    put_trade pop_trade upper
add_trade-reopens = refl
