-- ===== src/Engagement/Levels.antt =====
-- The levels of `XPManager` (app/engagement/xp.py). `xp_for_next_level level` is the code's
-- `int(base_xp * level ** multiplier)`, a power of floats, and a parameter here.
use ai_modrator.Common.{
  ℕ, zero, suc, ◌+◌, ◌≤◌, ◌<◌, ◌≡◌, refl, ◌⊎◌, inl, inr, ltb, leb, ◌==◌, if◌then◌else◌, arith,
  Bool-cases,
}

module _ (xp_for_next_level : ℕ → ℕ) where
  -- The loop at `level`, with `needed` the XP that this level needs. It leaves at level 1000, before
  -- the fuel is used up.
  unfoldable pub level_loop : ℕ → ℕ → ℕ → ℕ → ℕ
  level_loop zero total level needed = 1000
  level_loop (suc fuel) total level needed =
      let rest = level_loop fuel total (level + 1) (needed + xp_for_next_level level) in
      if ltb total (needed + xp_for_next_level level)
      then level
      else if ltb 1000 (level + 1)
      then 1000
      else rest

  unfoldable pub calculate_level_from_xp : ℕ → ℕ
  calculate_level_from_xp total = if total == 0 then 1 else level_loop 1000 total 1 0

  -- What the levels from 1 up to, and without, level `n + 1` cost together.
  unfoldable pub cumulative : ℕ → ℕ
  cumulative zero = 0
  cumulative (suc n) = cumulative n + xp_for_next_level (n + 1)

  -- Level `n + 1` is the one of `total`: it is paid for, and the next is not, unless it is the last.
  abbrev pub IsLevelOf : ℕ → ℕ → Type 0
  IsLevelOf total n =
      (n < 1000) × (cumulative n ≤ total) × ((n ≡ 999) ⊎ (total < cumulative (suc n)))

  level_loop-IsLevelOf :
      (fuel total n : ℕ)
      → fuel + n ≡ 1000
      → n < 1000
      → cumulative n ≤ total
      → (m : ℕ) × (level_loop fuel total (n + 1) (cumulative n) ≡ m + 1) × IsLevelOf total m
  unfolding level_loop cumulative
  level_loop-IsLevelOf zero total n e l h = ground arith
  level_loop-IsLevelOf (suc fuel) total n e l h =
      elim (Bool-cases (ltb total (cumulative n + xp_for_next_level (n + 1)))) [
        | inl b ↦ (n, ground (arith, b), (l, h, ground (arith, b)))
        | inr b ↦ elim (Bool-cases (ltb 1000 (n + 1 + 1))) [
          | inl c ↦ (n, ground (arith, b, c), (l, h, ground (arith, c)))
          | inr c ↦
              let (m, found, is_level) =
                level_loop-IsLevelOf fuel total (n + 1) (ground arith) (ground (arith, c))
                  (ground (arith, b)) in
              (m, ground (arith, b, c, found), is_level)
        ]
      ]

  -- For a positive total the level is from 1 to 1000, its cumulative cost is at most the total,
  -- and the next level's is more, unless the level is 1000.
  pub calculate_level_from_xp-IsLevelOf :
      (total : ℕ)
      → 1 ≤ total
      → (n : ℕ) × (calculate_level_from_xp total ≡ n + 1) × IsLevelOf total n
  unfolding calculate_level_from_xp cumulative
  calculate_level_from_xp-IsLevelOf total h =
      let (n, found, is_level) =
        level_loop-IsLevelOf 1000 total 0 refl (ground arith) (ground arith) in
      (n, ground (arith, found), is_level)

  cumulative_monotone : (m n : ℕ) → m ≤ n → cumulative m ≤ cumulative n
  unfolding cumulative
  cumulative_monotone m zero h = ground arith
  cumulative_monotone m (suc n) h = elim (Bool-cases (leb m n)) [
    | inl e ↦ ground (arith, cumulative_monotone m n (ground (arith, e)))
    | inr e ↦ let same : m ≡ suc n = ground (arith, e) in rw same (ground arith)
  ]

  level_order :
      (total total' m n : ℕ) → total ≤ total' → IsLevelOf total m → IsLevelOf total' n → m ≤ n
  level_order total total' m n h a b = ground (arith, cumulative_monotone (suc n) m)

  -- More XP in total never gives a lower level.
  pub calculate_level_from_xp_monotone :
      (total total' : ℕ)
      → total ≤ total'
      → calculate_level_from_xp total ≤ calculate_level_from_xp total'
  unfolding calculate_level_from_xp
  calculate_level_from_xp_monotone zero zero h = ground arith
  calculate_level_from_xp_monotone zero (suc t) h =
      let (n, found, is_level) = calculate_level_from_xp-IsLevelOf (suc t) (ground arith) in
      ground (arith, found)
  calculate_level_from_xp_monotone (suc t) zero h = ground arith
  calculate_level_from_xp_monotone (suc t) (suc u) h =
      let (m, at_m, level_m) = calculate_level_from_xp-IsLevelOf (suc t) (ground arith) in
      let (n, at_n, level_n) = calculate_level_from_xp-IsLevelOf (suc u) (ground arith) in
      ground (arith, at_m, at_n, level_order (suc t) (suc u) m n h level_m level_n)
