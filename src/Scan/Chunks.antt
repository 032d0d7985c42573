-- ===== src/Scan/Chunks.antt =====
-- The block ranges of the `eth_getLogs` loop of `scan`.
use state_keeper.Prelude.{
  ℕ, zero, suc, ◌+◌, ◌-◌, ◌^◌, ◌≤◌, ◌<◌, min, ◌&&◌, Option, none, some, List, [], ◌∷◌, leb, ltb,
  if◌then◌else◌, ◌≡◌, refl, arith, Bool-cases, leb→le, inl, inr,
}
use mathlib.Core.Option

abbrev pub log_chunk : ℕ
log_chunk = 90000

-- `u64::saturating_add`
abbrev pub saturating_add : ℕ → ℕ → ℕ
saturating_add a b = min (a + b) (2 ^ 64 - 1)

-- `hi` of the chunk that begins at `lo`.
unfoldable pub chunk_end : ℕ → ℕ → ℕ
chunk_end lo head = min (saturating_add lo (log_chunk - 1)) head

-- The loop `while lo <= head`, with fuel for its rounds: the ranges in the order of the queries.
-- `none` is fuel that ran out. `hi.checked_add(1)` is `None` at the last `u64` and leaves the loop.
unfoldable pub chunk_ranges : ℕ → ℕ → ℕ → Option (List (ℕ × ℕ))
unfolding chunk_end
chunk_ranges zero lo head = none
chunk_ranges (suc fuel) lo head =
    let hi : ℕ = chunk_end lo head in
    let rest = Option.map (λ rs. (lo, hi) ∷ rs) (chunk_ranges fuel (hi + 1) head) in
    if leb lo head then (if ltb (hi + 1) (2 ^ 64) then rest else some ((lo, hi) ∷ [])) else some []

-- Ranges that follow one another from `lo` to `head`, none longer than a chunk.
abbrev pub Covers : ℕ → ℕ → List (ℕ × ℕ) → Type 0
Covers lo head [] = head < lo
Covers lo head ((a, b) ∷ rs) =
    (a ≡ lo) × (a ≤ b) × (b ≤ head) × (b < a + log_chunk) × Covers (b + 1) head rs

chunk_end-bounds :
    (lo head : ℕ)
    → head < 2 ^ 64
    → lo ≤ head
    → (lo ≤ chunk_end lo head) × (chunk_end lo head ≤ head) × (chunk_end lo head < lo + log_chunk)
unfolding chunk_end
chunk_end-bounds lo head h l = omega arith

-- With fuel above the number of blocks left, the loop ends, and its ranges cover the blocks from
-- `lo` to `head` without gap or overlap, each within the span that an endpoint accepts.
pub chunk_ranges-Covers :
    (fuel lo head : ℕ)
    → head < 2 ^ 64
    → head + 1 - lo < fuel
    → (rs : List (ℕ × ℕ)) × (chunk_ranges fuel lo head ≡ some rs) × Covers lo head rs
unfolding chunk_ranges
chunk_ranges-Covers zero lo head h f = elim f [ ]
chunk_ranges-Covers (suc fuel) lo head h f = elim (Bool-cases (leb lo head)) [
  | inr past ↦ ([], rw past, ground arith)
  | inl within ↦
      let hi : ℕ = chunk_end lo head in
      let bounds = chunk_end-bounds lo head h (leb→le lo head within) in
      elim (Bool-cases (ltb (hi + 1) (2 ^ 64))) [
        | inl more ↦
            let (rs, e, c) = chunk_ranges-Covers fuel (hi + 1) head h (omega arith) in
            ((lo, hi) ∷ rs, rw (within, more, e), (refl, bounds.0, bounds.1, bounds.2, c))
        | inr last ↦
            ((lo, hi) ∷ [], rw (within, last), (refl, bounds.0, bounds.1, bounds.2, ground (arith)))
      ]
]

-- How many of the ranges hold the block.
abbrev pub times_queried : ℕ → List (ℕ × ℕ) → ℕ
times_queried k [] = 0
times_queried k ((a, b) ∷ rs) = (if leb a k && leb k b then 1 else 0) + times_queried k rs

times_queried-Covers :
    (k lo head : ℕ) (rs : List (ℕ × ℕ))
    → Covers lo head rs
    → times_queried k rs ≡ (if leb lo k && leb k head then 1 else 0)
times_queried-Covers k lo head [] c = ground arith
times_queried-Covers k lo head ((a, b) ∷ rs) c =
    ground (arith, times_queried-Covers k (b + 1) head rs c.4)

-- The loop from the deploy block ends, and queries every block up to the head once and no other.
pub chunk_ranges-once :
    (deploy_block head : ℕ)
    → head < 2 ^ 64
    → (rs : List (ℕ × ℕ)) × (chunk_ranges (head + 2) deploy_block head ≡ some rs)
      × ((k : ℕ) → times_queried k rs ≡ (if leb deploy_block k && leb k head then 1 else 0))
chunk_ranges-once deploy_block head h =
    let (rs, e, c) = chunk_ranges-Covers (head + 2) deploy_block head h (omega arith) in
    (rs, e, λ k. times_queried-Covers k deploy_block head rs c)
