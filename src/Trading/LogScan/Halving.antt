-- ===== src/Trading/LogScan/Halving.antt =====
-- The halving fetch, fetchInAdaptiveBlockRange, against the logs of a range of blocks.
use mathlib.Core.List.{append_assoc}
use native.Mathlib.Nat.{zero-add, add-zero}
use protocol_monorepo.Common.{
  ℕ, zero, suc, ◌+◌, ◌-◌, ◌/◌, ◌≤◌, ◌<◌, ◌≡◌, ◌≢◌, refl, sym, ◌⊎◌, inl, inr, true, List, [], ◌++◌,
  Option, none, some, Result, ok, err, arith, Result-cases, Option-cases,
}
use protocol_monorepo.Trading.LogScan.{
  Thrown, is_log_block_range_limit_error, block_range_span, both, fetch_in_adaptive_block_range,
}

-- The logs of `count` blocks from `from_block` on, when `logs` are those of each block.
unfoldable pub logs_in : {T : Type 0} → (ℕ → List T) → ℕ → ℕ → List T
logs_in logs from_block zero = []
logs_in logs from_block (suc count) = logs from_block ++ logs_in logs (from_block + 1) count

logs_in-add :
    {T : Type 0} (logs : ℕ → List T) (b m n c : ℕ)
    → b + m ≡ c
    → logs_in logs b (m + n) ≡ logs_in logs b m ++ logs_in logs c n
unfolding logs_in
logs_in-add logs b zero n c h = rw (zero-add, ← h, add-zero)
logs_in-add logs b (suc m) n c h =
    let e : suc m + n ≡ suc (m + n) = omega arith in
    rw (e, logs_in-add logs (b + 1) m n c (omega arith))
      (sym (append_assoc (logs b) (logs_in logs (b + 1) m) (logs_in logs c n)))

-- The logs of a range of blocks, both ends included.
unfoldable pub logs_between : {T : Type 0} → (ℕ → List T) → ℕ → ℕ → List T
unfolding logs_in
logs_between logs from_block to_block = logs_in logs from_block (to_block + 1 - from_block)

pub logs_between-split :
    {T : Type 0} (logs : ℕ → List T) (from_block mid next to_block : ℕ)
    → from_block ≤ mid + 1
    → mid ≤ to_block
    → mid + 1 ≡ next
    → logs_between logs from_block to_block
      ≡ logs_between logs from_block mid ++ logs_between logs next to_block
unfolding logs_between
logs_between-split logs from_block mid next to_block h k n =
    let e : to_block + 1 - from_block ≡ mid + 1 - from_block + (to_block + 1 - next) =
      omega arith in
    rw e
      (logs_in-add logs from_block (mid + 1 - from_block) (to_block + 1 - next) next (omega arith))

pub logs_between_empty : {T : Type 0} (logs : ℕ → List T) (b : ℕ) → logs_between logs (b + 1) b ≡ []
unfolding logs_between
logs_between_empty logs b = let e : b + 1 - (b + 1) ≡ 0 = omega arith in rw e

pub both-ne-none :
    {T : Type 0} (race : Thrown → Thrown → Thrown) (l r : Option (Result Thrown (List T)))
    → l ≢ none
    → r ≢ none
    → both race l r ≢ none
unfolding both
both-ne-none race none r h k = absurd (h refl)
both-ne-none race (some (ok l)) none h k = absurd (k refl)
both-ne-none race (some (err l)) none h k = absurd (k refl)
both-ne-none race (some (ok l)) (some (ok r)) h k = cc
both-ne-none race (some (ok l)) (some (err r)) h k = cc
both-ne-none race (some (err l)) (some (ok r)) h k = cc
both-ne-none race (some (err l)) (some (err r)) h k = cc

pub both-eq-ok :
    {T : Type 0} (race : Thrown → Thrown → Thrown) (l r : Option (Result Thrown (List T)))
    {xs : List T}
    → both race l r ≡ some (ok xs)
    → (ls : List T) × (rs : List T) × (l ≡ some (ok ls)) × (r ≡ some (ok rs)) × (ls ++ rs ≡ xs)
unfolding both
both-eq-ok race none none e = cc
both-eq-ok race none (some (ok r)) e = cc
both-eq-ok race none (some (err r)) e = cc
both-eq-ok race (some (ok l)) none e = cc
both-eq-ok race (some (err l)) none e = cc
both-eq-ok race (some (ok l)) (some (ok r)) e = (l, r, refl, refl, ground arith)
both-eq-ok race (some (ok l)) (some (err r)) e = cc
both-eq-ok race (some (err l)) (some (ok r)) e = cc
both-eq-ok race (some (err l)) (some (err r)) e = cc

module _ {T : Type 0} (fetch : ℕ → ℕ → Result Thrown (List T)) (race : Thrown → Thrown → Thrown)
    (min_block_range : ℕ) where
  pub halving-ne-none :
      (fuel from_block to_block : ℕ)
      → 2 ≤ min_block_range
      → block_range_span from_block to_block < fuel
      → fetch_in_adaptive_block_range fetch race min_block_range fuel from_block to_block ≢ none
  unfolding fetch_in_adaptive_block_range block_range_span
  halving-ne-none zero from_block to_block h k = absurd (omega arith)
  halving-ne-none (suc fuel) from_block to_block h k =
      let mid = from_block + (to_block + 1 - from_block) / 2 in
      ground (
        arith,
        both-ne-none race
            (fetch_in_adaptive_block_range fetch race min_block_range fuel from_block mid)
            (fetch_in_adaptive_block_range fetch race min_block_range fuel (mid + 1) to_block),
        halving-ne-none fuel from_block mid h,
        halving-ne-none fuel (mid + 1) to_block h,
      )

  -- With a smallest range of two blocks or more, as many rounds as the range has blocks are enough.
  pub fetch_in_adaptive_block_range-total :
      (fuel from_block to_block : ℕ)
      → 2 ≤ min_block_range
      → block_range_span from_block to_block < fuel
      → (r : Result Thrown (List T)) × (fetch_in_adaptive_block_range fetch race min_block_range
            fuel from_block to_block
          ≡ some r)
  fetch_in_adaptive_block_range-total fuel from_block to_block h k =
      elim (Option-cases
        (fetch_in_adaptive_block_range fetch race min_block_range fuel from_block to_block)) [
          | inl e ↦ absurd (halving-ne-none fuel from_block to_block h k e)
          | inr r ↦ r
        ]

  -- A provider that answers with the logs of exactly the blocks of the range.
  abbrev pub Answers : (ℕ → List T) → Type 0
  Answers logs =
      (from_block to_block : ℕ) (xs : List T)
      → fetch from_block to_block ≡ ok xs
      → xs ≡ logs_between logs from_block to_block

  -- However often the range is halved, a result holds every log of the range once and in order.
  pub fetch_in_adaptive_block_range-logs_between :
      (logs : ℕ → List T)
      → Answers logs
      → (fuel from_block to_block : ℕ) (xs : List T)
      → fetch_in_adaptive_block_range fetch race min_block_range fuel from_block to_block
        ≡ some (ok xs)
      → xs ≡ logs_between logs from_block to_block
  unfolding fetch_in_adaptive_block_range block_range_span
  fetch_in_adaptive_block_range-logs_between logs h zero from_block to_block xs e = cc
  fetch_in_adaptive_block_range-logs_between logs h (suc fuel) from_block to_block xs e =
      let mid = from_block + (to_block + 1 - from_block) / 2 in
      let left = fetch_in_adaptive_block_range fetch race min_block_range fuel from_block mid in
      let right =
        fetch_in_adaptive_block_range fetch race min_block_range fuel (mid + 1) to_block in
      elim (Result-cases (fetch from_block to_block)) [
        | inl (ys, f) ↦ h from_block to_block xs (ground arith)
        | inr (t, f) ↦
            let b : both race left right ≡ some (ok xs) = ground arith in
            let k : mid ≤ to_block = ground arith in
            let (ls, rs, el, er, sum) = both-eq-ok race left right b in
            let ihl = fetch_in_adaptive_block_range-logs_between logs h fuel from_block mid ls el in
            let ihr =
              fetch_in_adaptive_block_range-logs_between logs h fuel (mid + 1) to_block rs er in
            rw (← sum, ihl, ihr)
              (sym (logs_between-split logs from_block mid (mid + 1) to_block (omega arith) k refl))
      ]

  -- A provider that answers every range of at most `min_block_range` blocks, and refuses a longer one
  -- only by saying that it is too long.
  abbrev pub IsCapped : Type 0
  IsCapped =
      (from_block to_block : ℕ)
      → ((xs : List T) × (fetch from_block to_block ≡ ok xs))
        ⊎ ((t : Thrown) × (fetch from_block to_block ≡ err t)
            × (is_log_block_range_limit_error t ≡ true)
            × (min_block_range < block_range_span from_block to_block))

  -- With such a provider the fetch succeeds, and returns exactly the logs of the range.
  pub fetch_in_adaptive_block_range_succeeds :
      (logs : ℕ → List T)
      → Answers logs
      → IsCapped
      → (fuel from_block to_block : ℕ) → 2 ≤ min_block_range
      → block_range_span from_block to_block < fuel
      → fetch_in_adaptive_block_range fetch race min_block_range fuel from_block to_block
        ≡ some (ok (logs_between logs from_block to_block))
  unfolding fetch_in_adaptive_block_range block_range_span both
  fetch_in_adaptive_block_range_succeeds logs h c zero from_block to_block m k =
      absurd (omega arith)
  fetch_in_adaptive_block_range_succeeds logs h c (suc fuel) from_block to_block m k =
      let mid = from_block + (to_block + 1 - from_block) / 2 in
      elim (c from_block to_block) [
        | inl (ys, f) ↦ ground (arith, h from_block to_block ys f)
        | inr (t, f, lim, wide) ↦
            let ihl =
              fetch_in_adaptive_block_range_succeeds logs h c fuel from_block mid m (omega arith) in
            let ihr =
              fetch_in_adaptive_block_range_succeeds logs h c fuel (mid + 1) to_block m
                (omega arith) in
            ground (arith, ihl, ihr, logs_between-split logs from_block mid (mid + 1) to_block)
      ]
