-- ===== src/Pine/Runner/Marks.antt =====
-- What a round does to the runner before any order is filled: it enters, or it marks one stage of a
-- runner that stands at the stage before, or it marks nothing.
use daily_alpha_engine.Common.{◌<◌, ◌≡◌, refl, ◌∙◌, Bool, true, false, inl, inr, Bool-cases, arith}
use daily_alpha_engine.Common.Floats.{Floats}
use daily_alpha_engine.Pine.Bars.{V24Parameters}
use daily_alpha_engine.Pine.State.{TrendState, RunnerState, BarContext}
use daily_alpha_engine.Pine.Trend.{TrendView}
use daily_alpha_engine.Pine.Entry.{EntryView}
use daily_alpha_engine.Pine.Coherent.{IsCoherent}
use daily_alpha_engine.Pine.Runner.{
  RunnerView, begin_entry, add1_signal, mark_add1, add2_signal, mark_add2, harvest_signal,
  mark_harvest, runner_trend_ok, runner_view,
}

pub record Fires {F : Type 0} (r : RunnerView F) (a1 a2 h : Bool) : Type 0 where
  pub add1 : r.add1 ≡ a1
  pub add2 : r.add2 ≡ a2
  pub harvest : r.harvest ≡ h

pub data RunnerCase {F : Type 0} (c : BarContext F) (e : EntryView) (s : RunnerState F)
    (r : RunnerView F) : Type 0 where
  entered :
      e.long_entry ≡ true
      → s.position_units ≡ 0
      → Fires r false false false
      → r.marked ≡ begin_entry c e s
      → RunnerCase c e s r
  kept : e.long_entry ≡ false → Fires r false false false → r.marked ≡ s → RunnerCase c e s r
  added1 :
      e.long_entry ≡ false
      → 0 < s.position_units
      → s.add1_done ≡ false
      → Fires r true false false
      → r.marked ≡ mark_add1 c true s
      → RunnerCase c e s r
  added2 :
      e.long_entry ≡ false
      → 0 < s.position_units
      → s.add1_done ≡ true
      → s.add2_done ≡ false
      → Fires r false true false
      → r.marked ≡ mark_add2 c true s
      → RunnerCase c e s r
  harvested :
      e.long_entry ≡ false
      → 0 < s.position_units
      → s.add2_done ≡ true
      → s.harvest_done ≡ false
      → Fires r false false true
      → r.marked ≡ mark_harvest true s
      → RunnerCase c e s r

module _ {F : Type 0} ⦃fl : Floats F⦄ (p : V24Parameters F) (c : BarContext F) where
  add1_needs :
      (trend_ok : Bool) (s : RunnerState F)
      → add1_signal p c trend_ok s ≡ true
      → (0 < s.position_units) × (s.add1_done ≡ false)
  unfolding add1_signal
  add1_needs trend_ok s h = ground arith

  add2_needs :
      (trend_ok : Bool) (s : RunnerState F)
      → add2_signal p c trend_ok s ≡ true
      → (0 < s.position_units) × (s.add1_done ≡ true) × (s.add2_done ≡ false)
  unfolding add2_signal
  add2_needs trend_ok s h = ground arith

  harvest_needs :
      (s : RunnerState F)
      → harvest_signal p c s ≡ true
      → (0 < s.position_units) × (s.add2_done ≡ true) × (s.harvest_done ≡ false)
  unfolding harvest_signal
  harvest_needs s h = ground arith

  -- The second add waits for a later bar than the first, and the harvest for one later still.
  add2_after_add1 :
      (trend_ok : Bool) (s : RunnerState F) → add2_signal p c trend_ok (mark_add1 c true s) ≡ false
  unfolding add2_signal mark_add1
  add2_after_add1 trend_ok s = ground arith

  harvest_after_add2 : (s : RunnerState F) → harvest_signal p c (mark_add2 c true s) ≡ false
  unfolding harvest_signal mark_add2
  harvest_after_add2 s = ground arith

  harvest_after_add1 :
      (s : RunnerState F) → s.add2_done ≡ false → harvest_signal p c (mark_add1 c true s) ≡ false
  unfolding harvest_signal mark_add1
  harvest_after_add1 s h = ground arith

  -- Nothing fires in a flat state without flags.
  entry_fires_nothing :
      (trend_ok : Bool) (s : RunnerState F)
      → s.position_units ≡ 0
      → (add1_signal p c trend_ok s ≡ false)
        × (add2_signal p c trend_ok s ≡ false)
        × (harvest_signal p c s ≡ false)
  unfolding add1_signal add2_signal harvest_signal
  entry_fires_nothing trend_ok s h = ground arith

  begin_entry-units :
      (e : EntryView) (s : RunnerState F) → (begin_entry c e s).position_units ≡ s.position_units
  unfolding begin_entry
  begin_entry-units e s = ground arith

  begin_entry_none :
      (e : EntryView) (s : RunnerState F) → e.long_entry ≡ false → begin_entry c e s ≡ s
  unfolding begin_entry
  begin_entry_none e s h = rw h

  mark_add1_none : (s : RunnerState F) → mark_add1 c false s ≡ s
  unfolding mark_add1
  mark_add1_none s = refl

  mark_add2_none : (s : RunnerState F) → mark_add2 c false s ≡ s
  unfolding mark_add2
  mark_add2_none s = refl

  mark_harvest_none : (s : RunnerState F) → mark_harvest false s ≡ s
  unfolding mark_harvest
  mark_harvest_none s = refl

  module _ (t : TrendState F) (v : TrendView F) (e : EntryView) (s : RunnerState F)
      (coherent : IsCoherent c.index s)
      (enters_flat : e.long_entry ≡ true → s.position_units ≡ 0) where
    runner_view-entered : e.long_entry ≡ true → RunnerCase c e s (runner_view p c t v e s)
    unfolding runner_view
    runner_view-entered enters =
        let s1 = begin_entry c e s in
        let (no1, no2, no3) =
          entry_fires_nothing (runner_trend_ok p c t) s1
            (begin_entry-units e s ∙ enters_flat enters) in
        entered enters (enters_flat enters)
          (record {
            add1 = no1;
            add2 = cc (no1, no2, mark_add1_none s1);
            harvest = cc (no1, no2, no3, mark_add1_none s1, mark_add2_none s1);
          })
          (cc (no1, no2, no3, mark_add1_none s1, mark_add2_none s1, mark_harvest_none s1))

    runner_view-waited : e.long_entry ≡ false → RunnerCase c e s (runner_view p c t v e s)
    unfolding runner_view
    runner_view-waited waits =
        let same = begin_entry_none e s waits in
        let ok = runner_trend_ok p c t in
        let m1 = mark_add1_none s in
        let m2 = mark_add2_none s in
        elim (Bool-cases (add1_signal p c ok s)) [
          | inl yes1 ↦
              let (held, fresh) = add1_needs ok s yes1 in
              let marked = mark_add1 c true s in
              let no2 = add2_after_add1 ok s in
              let no3 = harvest_after_add1 s (ground (arith, coherent.add1_first)) in
              added1 waits held fresh
                (record {
                  add1 = cc (same, yes1);
                  add2 = cc (same, yes1, no2);
                  harvest = cc (same, yes1, no2, no3, mark_add2_none marked);
                })
                (cc (same, yes1, no2, no3, mark_add2_none marked, mark_harvest_none marked))
          | inr no1 ↦ elim (Bool-cases (add2_signal p c ok s)) [
            | inl yes2 ↦
                let (held, first, fresh) = add2_needs ok s yes2 in
                let marked = mark_add2 c true s in
                let no3 = harvest_after_add2 s in
                added2 waits held first fresh
                  (record {
                    add1 = cc (same, no1);
                    add2 = cc (same, no1, m1, yes2);
                    harvest = cc (same, no1, m1, yes2, no3);
                  })
                  (cc (same, no1, m1, yes2, no3, mark_harvest_none marked))
            | inr no2 ↦ elim (Bool-cases (harvest_signal p c s)) [
              | inl yes3 ↦
                  let (held, full, fresh) = harvest_needs s yes3 in
                  harvested waits held full fresh
                    (record {
                      add1 = cc (same, no1);
                      add2 = cc (same, no1, m1, no2);
                      harvest = cc (same, no1, m1, no2, m2, yes3);
                    })
                    (cc (same, no1, m1, no2, m2, yes3))
              | inr no3 ↦
                  kept waits
                    (record {
                      add1 = cc (same, no1);
                      add2 = cc (same, no1, m1, no2);
                      harvest = cc (same, no1, m1, no2, m2, no3);
                    })
                    (cc (same, no1, m1, no2, m2, no3, mark_harvest_none s))
            ]
          ]
        ]

    pub runner_view-cases : RunnerCase c e s (runner_view p c t v e s)
    runner_view-cases = elim (Bool-cases e.long_entry) [
      | inl enters ↦ runner_view-entered enters
      | inr waits ↦ runner_view-waited waits
    ]
