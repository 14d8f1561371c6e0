-- ===== src/Pine/Bars/Checks.antt =====
-- What the checks of V24Parameters and DailyBar leave behind.
use daily_alpha_engine.Common.{◌≤◌, ◌<◌, ◌≡◌, ◌≢◌, true, ok, arith}
use daily_alpha_engine.Common.Floats.{Floats}
use daily_alpha_engine.Pine.Bars.{V24Parameters, check_parameters, other_mode}

-- What `run_v24_parity` may rely on in accepted parameters.
pub record IsUsable {F : Type 0} (p : V24Parameters F) : Type 0 where
  pub entry_len : 1 ≤ p.entry_len
  pub exit_len : 1 ≤ p.exit_len
  pub atr_len : 1 ≤ p.atr_len
  pub efficiency_len : 1 ≤ p.efficiency_len
  pub rsi_len : 1 ≤ p.rsi_len
  pub adx_di_len : 1 ≤ p.adx_di_len
  pub adx_smooth : 1 ≤ p.adx_smooth
  pub failed_breakout_bars : 1 ≤ p.failed_breakout_bars
  pub min_prior_bull_bars : 1 ≤ p.min_prior_bull_bars
  pub known_mode : p.breakout_mode ≢ other_mode
  pub aware_start : p.start_time.aware ≡ true
  pub aware_end : p.end_time.aware ≡ true
  pub window : p.start_time.instant < p.end_time.instant

module _ {F : Type 0} ⦃fl : Floats F⦄ where
  pub check_parameters-IsUsable : (p : V24Parameters F) → check_parameters p ≡ ok tt → IsUsable p
  unfolding check_parameters
  check_parameters-IsUsable p h = ground arith
