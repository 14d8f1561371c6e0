-- ===== src/Pine/Armed/Origin.antt =====
-- Where an armed breakout comes from, and what has held since.
use daily_alpha_engine.Common.{
  ℕ, ◌≡◌, refl, sym, ap, ◌∙◌, subst, ◌⊎◌, inl, inr, true, false, ◌&&◌, some, List, [], ◌∷◌, ◌++◌,
  All, ok,
}
use daily_alpha_engine.Common.Int.{pos, ◌-ℤ◌, leb_ℤ}
use daily_alpha_engine.Common.Floats.{Floats}
use daily_alpha_engine.Pine.Trend.{is_bullish}
use daily_alpha_engine.Pine.Armed.{
  V25ArmedParameters, V25ArmedInputs, V25ArmedSnapshot, ArmedState, unarmed, wants_arm, arm,
  snapshot_of, settle, step,
}
use daily_alpha_engine.Pine.Armed.Steps.{
  IsHeld, armed_state, arm-cases, snapshot-IsHeld, snapshot-confirmed, snapshot-unarmed,
  settle-cases, settle-unarmed, step_split, settle-shot,
}

module _ {F : Type 0} ⦃fl : Floats F⦄ where
  -- The states of the machine behind the inputs of some bars, the latest first.
  pub data IsReached (p : V25ArmedParameters F)
      : List (V25ArmedInputs F) → ArmedState F → Type 0 where
    started : IsReached p [] unarmed
    stepped :
        (past : List (V25ArmedInputs F)) (s s' : ArmedState F) (x : V25ArmedInputs F)
        (shot : V25ArmedSnapshot F)
        → IsReached p past s
        → step p x s ≡ ok (shot, s')
        → IsReached p (x ∷ past) s'
    was_reset :
        (past : List (V25ArmedInputs F)) (s : ArmedState F)
        → IsReached p past s
        → IsReached p past unarmed

  -- The bars split at the one that armed, and the arm has held on it and ever since.
  pub record IsArmedBy (p : V25ArmedParameters F) (past : List (V25ArmedInputs F)) (level a : F)
      (b : ℕ) : Type 0 where
    pub later : List (V25ArmedInputs F)
    pub origin : V25ArmedInputs F
    pub earlier : List (V25ArmedInputs F)
    pub split : past ≡ later ++ (origin ∷ earlier)
    pub armed : wants_arm p origin ≡ true
    pub upper : origin.upper20 ≡ some level
    pub atr : origin.atr ≡ some a
    pub bar : origin.bar_index ≡ b
    pub held : All (IsHeld p b level a) later
    pub held_at_first : IsHeld p b level a origin

  abbrev IsFounded : V25ArmedParameters F → List (V25ArmedInputs F) → ArmedState F → Type 0
  IsFounded p past s =
      (s.breakout_armed ≡ false)
      ⊎ ((level : F) × (a : F) × (b : ℕ) × (s ≡ armed_state level a b) × IsArmedBy p past level a b)

  -- The same behind the arming of bar `x`, whose own close is still to be looked at.
  abbrev IsBase :
      V25ArmedParameters F → V25ArmedInputs F → List (V25ArmedInputs F) → ArmedState F → Type 0
  IsBase p x past s =
      (s.breakout_armed ≡ false)
      ⊎ ((level : F) × (a : F) × (b : ℕ) × (s ≡ armed_state level a b)
          × (IsHeld p b level a x → IsArmedBy p (x ∷ past) level a b))

  arm-IsBase :
      (p : V25ArmedParameters F) (x : V25ArmedInputs F) (past : List (V25ArmedInputs F))
      (s s1 : ArmedState F)
      → IsFounded p past s
      → arm p x s ≡ ok s1
      → IsBase p x past s1
  arm-IsBase p x past s s1 founded h = elim (arm-cases p x s s1 h) [
    | inl (_, e) ↦ elim founded [
      | inl off ↦ inl (ap (λ (t : ArmedState F). t.breakout_armed) e ∙ off)
      | inr (level, a, b, es, by) ↦ inr (
        level,
        a,
        b,
        e ∙ es,
        λ held. record {
          later = x ∷ by.later;
          origin = by.origin;
          earlier = by.earlier;
          split = ap (λ l. x ∷ l) by.split;
          armed = by.armed;
          upper = by.upper;
          atr = by.atr;
          bar = by.bar;
          held = (held, by.held);
          held_at_first = by.held_at_first;
        },
      )
    ]
    | inr (w, (level, a, u, v, e)) ↦ inr (
      level,
      a,
      x.bar_index,
      e,
      λ held. record {
        later = [];
        origin = x;
        earlier = past;
        split = refl;
        armed = w;
        upper = u;
        atr = v;
        bar = refl;
        held = tt;
        held_at_first = held;
      },
    )
  ]

  settle-IsFounded :
      (p : V25ArmedParameters F) (x : V25ArmedInputs F) (past : List (V25ArmedInputs F))
      (s1 : ArmedState F)
      → IsBase p x past s1
      → IsFounded p (x ∷ past) (settle p x s1).1
  settle-IsFounded p x past s1 base = elim base [
    | inl off ↦ inl (settle-unarmed p x s1 off)
    | inr (level, a, b, e, by) ↦
        subst (λ t. IsFounded p (x ∷ past) (settle p x t).1) (sym e)
          (elim (settle-cases p x level a b) [
            | inl off ↦ inl off
            | inr (eq, on) ↦
                inr (level, a, b, eq, by (snapshot-IsHeld p x (wants_arm p x) level a b on))
          ])
  ]

  IsReached-IsFounded :
      (p : V25ArmedParameters F) (past : List (V25ArmedInputs F)) (s : ArmedState F)
      → IsReached p past s
      → IsFounded p past s
  unfolding step
  IsReached-IsFounded p _ _ started = inl refl
  IsReached-IsFounded p _ _ (was_reset past s h) = inl refl
  IsReached-IsFounded p _ _ (stepped past s s' x shot h e) =
      let (s1, armed, eq) = step_split p x (arm p x s) (shot, s') e in
      subst (λ (r : V25ArmedSnapshot F × ArmedState F). IsFounded p (x ∷ past) r.1) eq
        (settle-IsFounded p x past s1
          (arm-IsBase p x past s s1 (IsReached-IsFounded p past s h) armed))

  -- What a confirmed entry at bar `x` is made of.
  pub record IsConfirmed (p : V25ArmedParameters F) (x : V25ArmedInputs F)
      (past : List (V25ArmedInputs F)) : Type 0 where
    pub level : F
    pub a : F
    pub b : ℕ
    pub armed : IsArmedBy p (x ∷ past) level a b
    pub young : leb_ℤ (pos x.bar_index -ℤ pos b) (pos p.armed_max_bars) ≡ true
    pub above : fl.le level x.close ≡ true
    pub no_chase : fl.le x.close (fl.add level (fl.mul a p.max_chase_atr)) ≡ true
    pub ready : x.position_is_flat && x.quality_entry_ok && x.bar_confirmed ≡ true
    pub trend : is_bullish x.trend_state && x.normal_trend_mature && x.fresh_trend_ok ≡ true

  base-IsConfirmed :
      (p : V25ArmedParameters F) (x : V25ArmedInputs F) (past : List (V25ArmedInputs F))
      (s1 : ArmedState F)
      → IsBase p x past s1
      → (snapshot_of p x (wants_arm p x) s1).armed_confirmed_entry ≡ true
      → IsConfirmed p x past
  base-IsConfirmed p x past s1 base h = elim base [
    | inl off ↦ absurd (cc (h, (snapshot-unarmed p x (wants_arm p x) s1 off).1))
    | inr (level, a, b, e, by) ↦
        let (young, above, chase, on, ready, trend) =
          snapshot-confirmed p x (wants_arm p x) level a b
            (subst (λ t. (snapshot_of p x (wants_arm p x) t).armed_confirmed_entry ≡ true) e h) in
        record {
          level = level;
          a = a;
          b = b;
          armed = by (snapshot-IsHeld p x (wants_arm p x) level a b on);
          young = young;
          above = above;
          no_chase = chase;
          ready = ready;
          trend = trend;
        }
  ]

  -- An armed entry is confirmed only behind a breakout of an earlier or the same bar that armed, at
  -- most `armed_max_bars` before, at a close from its level up to the chase limit, from flat, with the
  -- trend and the quality gates open; since that bar no bar from flat was too old or closed below
  -- the invalidation level. The machine is then reset.
  pub step-IsConfirmed :
      (p : V25ArmedParameters F) (past : List (V25ArmedInputs F)) (s s' : ArmedState F)
      (x : V25ArmedInputs F) (shot : V25ArmedSnapshot F)
      → IsReached p past s
      → step p x s ≡ ok (shot, s')
      → shot.armed_confirmed_entry ≡ true
      → IsConfirmed p x past × (s' ≡ unarmed)
  unfolding step
  step-IsConfirmed p past s s' x shot reached e confirmed =
      let (s1, armed, eq) = step_split p x (arm p x s) (shot, s') e in
      let base = arm-IsBase p x past s s1 (IsReached-IsFounded p past s reached) armed in
      let (same, after) = settle-shot p x s1 in
      subst
        (λ (r : V25ArmedSnapshot F × ArmedState F).
          r.0.armed_confirmed_entry ≡ true → IsConfirmed p x past × (r.1 ≡ unarmed))
        eq
        (λ c. (
          base-IsConfirmed p x past s1 base
              (ap (λ (t : V25ArmedSnapshot F). t.armed_confirmed_entry) (sym same) ∙ c),
          elim after [ inl off ↦ absurd (cc (c, off)) | inr u ↦ u ],
        ))
        confirmed
