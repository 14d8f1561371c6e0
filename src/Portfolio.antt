-- ===== src/Portfolio.antt =====
-- src/daily_alpha/portfolio.py: positions, snapshots and what is added up over them.
use Prim.Native.String.{String}
use text.Mathlib.Text.{◌==◌}
use daily_alpha_engine.Common.{
  Bool, true, false, not, ◌&&◌, ◌||◌, Option, none, some, List, [], ◌∷◌, map, Result, ok, ◌>>◌,
  raise_if, if◌then◌else◌, is_some,
}
use daily_alpha_engine.Common.Int.{ℤ, pos, leb_ℤ}
use daily_alpha_engine.Common.Floats.{Floats, zero_f}
use daily_alpha_engine.Common.Text.{is_blank}

pub data PortfolioDataStatus : Type 0 where
  available partial stale unavailable : PortfolioDataStatus

pub data AssetType : Type 0 where
  stock option : AssetType

pub record Greeks (F : Type 0) : Type 0 where
  pub delta : F
  pub gamma : F
  pub theta : F
  pub vega : F

pub record Position (F : Type 0) : Type 0 where
  pub symbol : String
  pub asset_type : AssetType
  pub quantity : F
  pub mark : F
  pub cost_basis : F
  pub multiplier : ℤ
  pub sector : String
  pub expiration : Option String
  pub greeks : Option (Greeks F)

pub record PortfolioSnapshot (F : Type 0) : Type 0 where
  pub snapshot_id : String
  pub account_id : String
  pub origin : String
  pub as_of : String
  pub ingested_at : String
  pub cash : F
  pub buying_power : F
  pub positions : List (Position F)
  pub data_status : PortfolioDataStatus
  pub reconciliation_errors : List String

pub data PortfolioError : Type 0 where
  symbol_required price_negative multiplier_not_positive greeks_required : PortfolioError

abbrev is_available : PortfolioDataStatus → Bool
is_available available = true
is_available partial = false
is_available stale = false
is_available unavailable = false

abbrev is_option_asset : AssetType → Bool
is_option_asset stock = false
is_option_asset option = true

abbrev is_none : List String → Bool
is_none [] = true
is_none (_ ∷ _) = false

module _ {F : Type 0} where
  unfoldable pub blocks_new_risk : PortfolioSnapshot F → Bool
  blocks_new_risk s = not (is_available s.data_status) || not (is_none s.reconciliation_errors)

  -- The positions that are options.
  unfoldable pub option_positions : List (Position F) → List (Position F)
  option_positions [] = []
  option_positions (p ∷ ps) =
      let rest = option_positions ps in if is_option_asset p.asset_type then p ∷ rest else rest

module _ {F : Type 0} ⦃fl : Floats F⦄ where
  -- `Position.__post_init__`
  unfoldable pub check_position : Position F → Result PortfolioError (Unit {0})
  check_position p = do
    raise_if (is_blank p.symbol) symbol_required
    raise_if (fl.lt p.mark zero_f || fl.lt p.cost_basis zero_f) price_negative
    raise_if (leb_ℤ p.multiplier (pos 0)) multiplier_not_positive
    raise_if (is_option_asset p.asset_type && not (is_some p.greeks)) greeks_required
    ok tt

  unfoldable pub scaled : Greeks F → F → ℤ → Greeks F
  scaled g quantity multiplier =
      let scale = fl.mul quantity (fl.of_int multiplier) in
      record {
        delta = fl.mul g.delta scale;
        gamma = fl.mul g.gamma scale;
        theta = fl.mul g.theta scale;
        vega = fl.mul g.vega scale;
      }

  unfoldable pub market_value : Position F → F
  market_value p = fl.mul (fl.mul p.quantity p.mark) (fl.of_int p.multiplier)

  unfoldable pub gross_market_value : Position F → F
  gross_market_value p = fl.abs (market_value p)

  unfoldable pub position_greeks : Position F → Option (Greeks F)
  position_greeks p = elim p.greeks [
    | none ↦ none
    | some g ↦ some (scaled g p.quantity p.multiplier)
  ]

  unfoldable pub net_liquidating_value : PortfolioSnapshot F → F
  net_liquidating_value s = fl.add s.cash (fl.sum (map market_value s.positions))

  unfoldable pub gross_exposure : PortfolioSnapshot F → F
  gross_exposure s = fl.sum (map gross_market_value s.positions)

  unfoldable pub net_exposure : PortfolioSnapshot F → F
  net_exposure s = fl.sum (map market_value s.positions)

  unfoldable pub add_greeks : Greeks F → Greeks F → Greeks F
  add_greeks t g = record {
    delta = fl.add t.delta g.delta;
    gamma = fl.add t.gamma g.gamma;
    theta = fl.add t.theta g.theta;
    vega = fl.add t.vega g.vega;
  }

  -- The totals over positions, or nothing as soon as one has no Greeks.
  unfoldable pub total_greeks : Greeks F → List (Position F) → Option (Greeks F)
  total_greeks t [] = some t
  total_greeks t (p ∷ ps) = elim (position_greeks p) [
    | none ↦ none
    | some g ↦ total_greeks (add_greeks t g) ps
  ]

  unfoldable pub aggregate_greeks : PortfolioSnapshot F → Option (Greeks F)
  aggregate_greeks s =
      total_greeks (record { delta = zero_f; gamma = zero_f; theta = zero_f; vega = zero_f })
        (option_positions s.positions)

  -- `exposure[sector] = exposure.get(sector, 0.0) + value` on a dictionary in insertion order.
  unfoldable pub add_exposure : String → F → List (String × F) → List (String × F)
  add_exposure sector value [] = (sector, fl.add zero_f value) ∷ []
  add_exposure sector value ((name, total) ∷ rest) =
      let later = add_exposure sector value rest in
      if name == sector then (name, fl.add total value) ∷ rest else (name, total) ∷ later

  unfoldable pub exposures : List (String × F) → List (Position F) → List (String × F)
  exposures d [] = d
  exposures d (p ∷ ps) = exposures (add_exposure p.sector (market_value p) d) ps

  unfoldable pub sector_exposure : PortfolioSnapshot F → List (String × F)
  sector_exposure s = exposures [] s.positions
