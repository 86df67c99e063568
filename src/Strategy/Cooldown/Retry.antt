-- ===== src/Strategy/Cooldown/Retry.antt =====
-- The waiting time that getStrategyRunCooldown tells a refused run.
use protocol_monorepo.Common.{
  ℕ, ◌+◌, ◌*◌, ◌/◌, ◌≤◌, ◌<◌, ◌≡◌, ◌↔◌, Bool-cases, inl, inr, ◌==◌, Option, none, some,
  Option-cases, [], ◌∷◌, arith,
}
use protocol_monorepo.Common.Int.{ℤ, pos, ◌+ℤ◌, ◌-ℤ◌, pos_part, ◌≤ℤ◌, +ℤ_parts, -ℤ_parts}
use protocol_monorepo.Common.Text.{Text}
use protocol_monorepo.Strategy.Cooldown.{
  allowed, retry_after, cooldown_since, get_strategy_run_cooldown,
}

since_iff :
    (last now : ℤ) (cd : ℕ) → (cooldown_since last cd now ≡ allowed) ↔ (pos cd ≤ℤ now -ℤ last)
unfolding cooldown_since
since_iff last now cd = ground arith

since_seconds :
    (last now : ℤ) (cd s : ℕ)
    → cooldown_since last cd now ≡ retry_after s
    → (pos cd ≤ℤ now -ℤ last → ⊥) × (s ≡ (pos_part (pos cd -ℤ (now -ℤ last)) + 999) / 1000)
unfolding cooldown_since
since_seconds last now cd s h = ground arith

retry_since :
    (last now : ℤ) (cd s k : ℕ)
    → cooldown_since last cd now ≡ retry_after s
    → (cooldown_since last cd (now +ℤ pos (k * 1000)) ≡ allowed) ↔ (s ≤ k)
retry_since last now cd s k h =
    let later = now +ℤ pos (k * 1000) in
    let (refused, seconds) = since_seconds last now cd s h in
    ground (
      arith,
      since_iff last later cd,
      +ℤ_parts now (pos (k * 1000)),
      -ℤ_parts later last,
      -ℤ_parts now last,
      -ℤ_parts (pos cd) (now -ℤ last),
    )

positive : (last now : ℤ) (cd s : ℕ) → cooldown_since last cd now ≡ retry_after s → 0 < s
positive last now cd s h =
    let (refused, seconds) = since_seconds last now cd s h in
    ground (arith, -ℤ_parts now last, -ℤ_parts (pos cd) (now -ℤ last))

-- A run that is refused with a number of seconds would, asked again after any whole number of
-- seconds, be allowed exactly when at least that many have passed; and the number is not 0.
pub get_strategy_run_cooldown_retry :
    (date_parse : Text → Option ℤ) (last : Option Text) (cooldown_ms : ℕ) (now : ℤ) (s k : ℕ)
    → get_strategy_run_cooldown date_parse last cooldown_ms now ≡ retry_after s
    → (0 < s)
      × ((get_strategy_run_cooldown date_parse last cooldown_ms (now +ℤ pos (k * 1000)) ≡ allowed)
          ↔ (s ≤ k))
unfolding get_strategy_run_cooldown
get_strategy_run_cooldown_retry date_parse none cd now s k h = absurd (ground arith)
get_strategy_run_cooldown_retry date_parse (some []) cd now s k h = absurd (ground arith)
get_strategy_run_cooldown_retry date_parse (some (c ∷ t)) cd now s k h =
    elim (Bool-cases (cd == 0)) [
      | inl zero_cd ↦ absurd (ground (arith, zero_cd))
      | inr some_cd ↦ elim (Option-cases (date_parse (c ∷ t))) [
        | inl unparsed ↦ absurd (ground (arith, some_cd, unparsed))
        | inr (l, parsed) ↦
            let e : cooldown_since l cd now ≡ retry_after s = ground (arith, some_cd, parsed) in
            (positive l now cd s e, rw (some_cd, parsed) (retry_since l now cd s k e))
      ]
    ]
