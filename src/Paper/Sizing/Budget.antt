-- ===== src/Paper/Sizing/Budget.antt =====
-- What a sized and split position satisfies.
use native.Mathlib.Decide.{dec_le}
use daily_alpha_engine.Common.{
  ℕ, zero, suc, ◌+◌, ◌*◌, ◌/◌, ◌≤◌, ◌<◌, ◌≡◌, refl, sym, ◌∙◌, ◌⊎◌, inl, inr, subst, Result, ok, err,
  arith,
}
use daily_alpha_engine.Common.Int.{ℤ, pos, negsuc, ◌*ℤ◌, ◌≤ℤ◌, ◌<ℤ◌, floor_div}
use daily_alpha_engine.Paper.Sizing.{
  SizingError, raw_quantity_not_positive, runner_too_small, RunnerAllocation, allocate_runner,
}

-- A target of four or more units, split 50/25/25, no larger than what was asked for and less than one
-- unit of four below it; the starter and the two adds make up the target, and the harvest is one add.
pub record IsSplit (raw : ℕ) (a : RunnerAllocation) : Type 0 where
  pub unit : ℕ
  pub positive : 1 ≤ unit
  pub add : a.add_quantity ≡ pos unit
  pub harvest : a.harvest_quantity ≡ pos unit
  pub starter : a.starter_quantity ≡ pos (2 * unit)
  pub target : a.target_quantity ≡ pos (4 * unit)
  pub fits : 4 * unit ≤ raw
  pub tight : raw < 4 * unit + 4

pos_times : (n k : ℕ) → pos n *ℤ pos k ≡ pos (n * k)
unfolding ◌*ℤ◌
pos_times n k = ground arith

quarter : (n : ℕ) → n * 4 / 4 ≡ n
quarter n = omega arith

-- From four units up the split is accepted.
allocate_runner-IsSplit :
    (raw : ℕ)
    → 4 ≤ raw
    → (a : RunnerAllocation) × (allocate_runner (pos raw) ≡ ok a) × IsSplit raw a
unfolding allocate_runner floor_div
allocate_runner-IsSplit raw h = (
  record {
    raw_quantity = pos raw;
    target_quantity = pos (4 * (raw / 4));
    starter_quantity = pos (2 * (raw / 4));
    add_quantity = pos (raw / 4);
    harvest_quantity = pos (raw / 4);
  },
  rw (pos_times (raw / 4) 4) (rw (quarter (raw / 4)) (rw (pos_times (raw / 4) 2) (ground arith))),
  record {
    unit = raw / 4;
    positive = omega arith;
    add = refl;
    harvest = refl;
    starter = refl;
    target = refl;
    fits = omega arith;
    tight = omega arith;
  },
)

refuses_negative : (n : ℕ) (a : RunnerAllocation) → allocate_runner (negsuc n) ≡ ok a → ⊥
unfolding allocate_runner
refuses_negative n a h = ground arith

refuses_small : (n : ℕ) (a : RunnerAllocation) → n < 4 → allocate_runner (pos n) ≡ ok a → ⊥
unfolding allocate_runner floor_div ◌*ℤ◌
refuses_small zero a lt h = ground arith
refuses_small (suc zero) a lt h = ground arith
refuses_small (suc (suc zero)) a lt h = ground arith
refuses_small (suc (suc (suc zero))) a lt h = ground arith
refuses_small (suc (suc (suc (suc n)))) a lt h = absurd (omega arith)

same_result :
    (b a : RunnerAllocation) → ◌≡◌ {A = Result SizingError RunnerAllocation} (ok b) (ok a) → b ≡ a
same_result b a e = cc

-- Whatever is accepted was at least four units, and is split so.
pub allocate_runner-ok :
    (z : ℤ) (a : RunnerAllocation)
    → allocate_runner z ≡ ok a
    → (raw : ℕ) × (z ≡ pos raw) × IsSplit raw a
allocate_runner-ok (negsuc n) a h = absurd (refuses_negative n a h)
allocate_runner-ok (pos n) a h = elim (dec_le 4 n) [
  | yes le ↦
      let (b, eq, split) = allocate_runner-IsSplit n le in
      (n, refl, subst (IsSplit n) (same_result b a (sym eq ∙ h)) split)
  | no lt ↦ absurd (refuses_small n a (omega arith) h)
]

too_small : (n : ℕ) → 0 < n → n < 4 → allocate_runner (pos n) ≡ err runner_too_small
unfolding allocate_runner floor_div ◌*ℤ◌
too_small zero low lt = absurd (omega arith)
too_small (suc zero) low lt = refl
too_small (suc (suc zero)) low lt = refl
too_small (suc (suc (suc zero))) low lt = refl
too_small (suc (suc (suc (suc n)))) low lt = absurd (omega arith)

-- An allocation is accepted exactly from four raw units up, and is then split 50/25/25 over the largest
-- multiple of four within the raw quantity; below, it is refused as too small, and at zero or less as
-- not positive.
pub allocate_runner_cases :
    (z : ℤ)
    → (z ≤ℤ pos 0) × (allocate_runner z ≡ err raw_quantity_not_positive)
      ⊎ (pos 0 <ℤ z) × (z <ℤ pos 4) × (allocate_runner z ≡ err runner_too_small)
      ⊎ ((raw : ℕ) × (a : RunnerAllocation) × (z ≡ pos raw)
          × (4 ≤ raw)
          × (allocate_runner z ≡ ok a)
          × IsSplit raw a)
unfolding allocate_runner
allocate_runner_cases (negsuc n) = inl (omega arith, ground arith)
allocate_runner_cases (pos zero) = inl (omega arith, refl)
allocate_runner_cases (pos (suc n)) = elim (dec_le 4 (suc n)) [
  | yes le ↦
      let (a, eq, split) = allocate_runner-IsSplit (suc n) le in
      inr (inr (suc n, a, refl, le, eq, split))
  | no lt ↦ inr (inl (omega arith, omega arith, too_small (suc n) (omega arith) (omega arith)))
]
