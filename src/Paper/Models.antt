-- ===== src/Paper/Models.antt =====
-- src/daily_alpha/models.py: the values that the paper-trading modules exchange.
use Prim.Native.String.{String}
use daily_alpha_engine.Common.{Bool, Option, if◌then◌else◌}
use daily_alpha_engine.Common.Int.{ℤ, pos, leb_ℤ}
use daily_alpha_engine.Common.Floats.{Floats, zero_f}

pub data InstrumentSelected : Type 0 where
  option stock no_instrument : InstrumentSelected

pub data DecisionStatus : Type 0 where
  selected no_trade data_error : DecisionStatus

pub record OptionCandidate (F : Type 0) : Type 0 where
  pub symbol : String
  pub expiration : String
  pub strike : F
  pub option_type : String
  pub dte : ℤ
  pub bid : F
  pub ask : F
  pub open_interest : ℤ
  pub volume : ℤ
  pub delta : Option F

pub record StockCandidate (F : Type 0) : Type 0 where
  pub symbol : String
  pub price : F
  pub average_daily_dollar_volume : F
  pub eligible : Bool

pub record Decision (F : Type 0) : Type 0 where
  pub symbol : String
  pub status : DecisionStatus
  pub instrument_selected : InstrumentSelected
  pub fallback_reason : String
  pub selected_contract : Option (OptionCandidate F)
  pub created_at : String

module _ {F : Type 0} ⦃fl : Floats F⦄ where
  pub midpoint : OptionCandidate F → F
  midpoint o = fl.div (fl.add o.bid o.ask) (fl.dec 2 0)

  unfoldable pub spread_pct : OptionCandidate F → F
  unfolding midpoint
  spread_pct o =
      let m = midpoint o in if fl.le m zero_f then fl.infinity else fl.div (fl.sub o.ask o.bid) m

  pub volume_to_open_interest : OptionCandidate F → F
  volume_to_open_interest o =
      if leb_ℤ o.open_interest (pos 0)
      then zero_f
      else fl.div (fl.of_int o.volume) (fl.of_int o.open_interest)
