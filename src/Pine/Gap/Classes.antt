-- ===== src/Pine/Gap/Classes.antt =====
-- How an earnings gap is classed.
use daily_alpha_engine.Common.{◌+◌, ◌≡◌, refl, Bool, none, some, Option, arith}
use daily_alpha_engine.Common.Floats.{Floats, IsOrdered}
use daily_alpha_engine.Pine.Bars.{DailyBar, V24Parameters}
use daily_alpha_engine.Pine.State.{Direction, BarContext}
use daily_alpha_engine.Pine.Gap.{GapView, classed, gap_behind, measures, gap_view}
use daily_alpha_engine.Pine.Coherent.{one}

module _ {F : Type 0} ⦃fl : Floats F⦄ (laws : IsOrdered F) where
  abbrev Classes : GapView F → Type 0
  Classes g =
      one g.earnings_gap_go + one g.earnings_gap_go_early + one g.earnings_gap_crap + one g.wait
      ≡ one g.is_earnings_upside_gap

  classed-Classes :
      (p : V24Parameters F) (m : GapView F) (upside quality crap : Bool)
      → Classes (classed p m upside quality crap)
  classed-Classes p m upside quality crap =
      ground (arith, laws.lt_not_le m.close_location (fl.sub p.min_gap_close_location (fl.dec 1 6)))

  behind-Classes :
      (p : V24Parameters F) (c : BarContext F) (trend : Direction) (prev : Option (DailyBar F))
      → Classes (gap_behind p c trend prev)
  behind-Classes p c trend none = refl
  behind-Classes p c trend (some prev) = classed-Classes p (measures c prev) _ _ _

  -- With IEEE comparison the four classes of an earnings gap are exclusive and cover just the
  -- earnings upside gaps: exactly one of the four flags is set on such a gap, and none on another bar.
  pub gap_view-one_class :
      (p : V24Parameters F) (c : BarContext F) (trend : Direction)
      → let g = gap_view p c trend in
        one g.earnings_gap_go + one g.earnings_gap_go_early + one g.earnings_gap_crap + one g.wait
        ≡ one g.is_earnings_upside_gap
  unfolding gap_view
  gap_view-one_class p c trend = behind-Classes p c trend c.previous_bar
