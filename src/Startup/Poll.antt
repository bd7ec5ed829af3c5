-- ===== src/Startup/Poll.antt =====
-- `awaitAnalysis` of integration-tests/tests.js: polls `window.Dark.analysis.lastRun`, which both
-- analyses set, until it is newer than a time.
use dark.Common.{
  ℕ, zero, suc, ◌+◌, ◌*◌, ◌<◌, ◌≤◌, ◌≡◌, refl, ◌⊎◌, inl, inr, arith, ltb, if◌then◌else◌, Bool-cases,
  ℕ_discrete,
}

pub data Result : Type 0 where
  -- How long it waited, in milliseconds.
  analysed : ℕ → Result
  exceeded : Result

-- `last_run k` is what the k-th poll reads. The first argument bounds the recursion: it is never used
-- up, since `trial > 10` ends it before.
unfoldable pub poll : ℕ → (ℕ → ℕ) → ℕ → ℕ → Result
poll zero last_run ts trial = exceeded
poll (suc fuel) last_run ts trial =
    let later = poll fuel last_run ts (trial + 1) in
    if ltb 10 trial
    then exceeded
    else if ltb ts (last_run trial)
    then analysed (trial * 1000)
    else later

unfoldable pub await_analysis : (ℕ → ℕ) → ℕ → Result
await_analysis last_run ts = poll 12 last_run ts 0

-- The first poll, from one on, that reads a time after `ts`.
abbrev pub FirstAt : (ℕ → ℕ) → ℕ → ℕ → ℕ → Type 0
FirstAt last_run ts from k =
    (from ≤ k) × (ts < last_run k) × ((j : ℕ) → from ≤ j → j < k → last_run j ≤ ts)

-- How a wait from a poll on ends: at the first that reads a new time, or, if none of the 11 does, by
-- failing.
abbrev pub Ends : (ℕ → ℕ) → ℕ → ℕ → Result → Type 0
Ends last_run ts from r =
    ((k : ℕ) × (k < 11) × FirstAt last_run ts from k × (r ≡ analysed (k * 1000)))
    ⊎ (((j : ℕ) → from ≤ j → j < 11 → last_run j ≤ ts) × (r ≡ exceeded))

Ends-step :
    (last_run : ℕ → ℕ) (ts trial : ℕ) (r : Result)
    → last_run trial ≤ ts
    → Ends last_run ts (trial + 1) r
    → Ends last_run ts trial r
Ends-step last_run ts trial r h (inl (k, lt, (from, newer, before), e)) = inl (
  k,
  lt,
  (
    omega arith,
    newer,
    λ j a b. elim (ℕ_discrete j trial) [
      | yes same ↦ rw same h
      | no other ↦ before j (omega arith) b
    ],
  ),
  e,
)
Ends-step last_run ts trial r h (inr (none_newer, e)) = inr (
  λ j a b. elim (ℕ_discrete j trial) [
    | yes same ↦ rw same h
    | no other ↦ none_newer j (omega arith) b
  ],
  e,
)

poll_lem :
    (fuel : ℕ) (last_run : ℕ → ℕ) (ts trial : ℕ)
    → trial + fuel ≡ 12
    → Ends last_run ts trial (poll fuel last_run ts trial)
unfolding poll
poll_lem zero last_run ts trial e = inr (λ j a b. absurd (omega arith), refl)
poll_lem (suc fuel) last_run ts trial e = elim (Bool-cases (ltb 10 trial)) [
  | inl over ↦ inr (λ j a b. absurd (ground arith), rw over)
  | inr within ↦ elim (Bool-cases (ltb ts (last_run trial))) [
    | inl newer ↦ inl (
      trial,
      ground arith,
      (omega arith, ground arith, λ j a b. absurd (omega arith)),
      rw (within, newer),
    )
    | inr old ↦
        rw (within, old)
          (Ends-step last_run ts trial _ (ground arith)
            (poll_lem fuel last_run ts (trial + 1) (omega arith)))
  ]
]

-- The wait ends at the first of 11 polls that reads a time after `ts`, a second for each poll before
-- it; only if none of them does, it fails.
pub await_analysis_lem :
    (last_run : ℕ → ℕ) (ts : ℕ) → Ends last_run ts 0 (await_analysis last_run ts)
unfolding await_analysis
await_analysis_lem last_run ts = poll_lem 12 last_run ts 0 refl
