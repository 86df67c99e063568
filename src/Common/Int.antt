-- ===== src/Common/Int.antt =====
-- JavaScript's BigInt (and its safe integers) over the native numbers, under the library's names.
use native.Mathlib.Nat.{zero-div, add-zero}
use protocol_monorepo.Common.{
  ℕ, zero, suc, ◌+◌, ◌-◌, ◌*◌, ◌/◌, ◌≤◌, ◌<◌, ◌≡◌, refl, ◌⊎◌, Bool, true, arith, ltb, leb, ◌==◌,
  if◌then◌else◌,
}

-- `negsuc n` is -(n + 1).
pub data ℤ : Type 0 where
  pos : ℕ → ℤ
  negsuc : ℕ → ℤ

abbrev pub pos_part : ℤ → ℕ
pos_part (pos n) = n
pos_part (negsuc n) = 0

abbrev pub neg_part : ℤ → ℕ
neg_part (pos n) = 0
neg_part (negsuc n) = suc n

-- a - b, as an integer.
abbrev pub sub_ℕ : ℕ → ℕ → ℤ
sub_ℕ a b = if leb b a then pos (a - b) else negsuc (b - a - 1)

infixl 65 ◌+ℤ◌ ◌-ℤ◌
infix 50 ◌≤ℤ◌ ◌<ℤ◌
unfoldable pub ◌+ℤ◌ : ℤ → ℤ → ℤ
a +ℤ b = sub_ℕ (pos_part a + pos_part b) (neg_part a + neg_part b)

unfoldable pub ◌-ℤ◌ : ℤ → ℤ → ℤ
a -ℤ b = sub_ℕ (pos_part a + neg_part b) (neg_part a + pos_part b)

abbrev pub ◌≤ℤ◌ : ℤ → ℤ → Type 0
a ≤ℤ b = pos_part a + neg_part b ≤ pos_part b + neg_part a

abbrev pub ◌<ℤ◌ : ℤ → ℤ → Type 0
a <ℤ b = pos_part a + neg_part b < pos_part b + neg_part a

abbrev pub ltb_ℤ : ℤ → ℤ → Bool
ltb_ℤ a b = ltb (pos_part a + neg_part b) (pos_part b + neg_part a)

abbrev pub leb_ℤ : ℤ → ℤ → Bool
leb_ℤ a b = leb (pos_part a + neg_part b) (pos_part b + neg_part a)

-- `-n` for a natural n.
abbrev pub neg_ℕ : ℕ → ℤ
neg_ℕ n = sub_ℕ 0 n

-- The magnitude.
abbrev pub abs_ℕ : ℤ → ℕ
abs_ℕ a = pos_part a + neg_part a

-- `a * n` for a natural n.
unfoldable pub scale : ℤ → ℕ → ℤ
scale (pos a) n = pos (a * n)
scale (negsuc a) n = neg_ℕ (suc a * n)

-- BigInt division by a positive divisor: the quotient is truncated towards zero.
unfoldable pub quot : ℤ → ℕ → ℤ
quot (pos a) d = pos (a / d)
quot (negsuc a) d = neg_ℕ (suc a / d)

-- One lemma for each operation lets `omega` work with the operations shut, at any depth.
pub +ℤ_parts :
    (a b : ℤ)
    → pos_part (a +ℤ b) + neg_part a + neg_part b ≡ neg_part (a +ℤ b) + pos_part a + pos_part b
unfolding ◌+ℤ◌
+ℤ_parts a b = ground arith

pub -ℤ_parts :
    (a b : ℤ)
    → pos_part (a -ℤ b) + neg_part a + pos_part b ≡ neg_part (a -ℤ b) + pos_part a + neg_part b
unfolding ◌-ℤ◌
-ℤ_parts a b = ground arith

pub eq_of_parts : (a b : ℤ) → pos_part a + neg_part b ≡ pos_part b + neg_part a → a ≡ b
eq_of_parts a b h = ground arith

pub ruleset int_laws = (arith, +ℤ_parts, -ℤ_parts, eq_of_parts)

pub scale_parts :
    (a : ℤ) (n : ℕ)
    → (pos_part (scale a n) ≡ pos_part a * n) × (neg_part (scale a n) ≡ neg_part a * n)
unfolding scale
scale_parts (pos a) n = ground arith
scale_parts (negsuc a) n = ground arith

pub quot_parts :
    (a : ℤ) (d : ℕ)
    → (pos_part (quot a d) ≡ pos_part a / d) × (neg_part (quot a d) ≡ neg_part a / d)
unfolding quot
quot_parts (pos a) d = ground (arith, zero-div d)
quot_parts (negsuc a) d = ground (arith, zero-div d)

pub abs_ℕ-quot : (a : ℤ) (d : ℕ) → abs_ℕ (quot a d) ≡ abs_ℕ a / d
unfolding quot
abs_ℕ-quot (pos a) d = simp add-zero
abs_ℕ-quot (negsuc a) d = ground (arith, quot_parts (negsuc a) d, zero-div d)

pub quot_sign :
    (a : ℤ) (d : ℕ) → (pos 0 ≤ℤ a → pos 0 ≤ℤ quot a d) × (a ≤ℤ pos 0 → quot a d ≤ℤ pos 0)
unfolding quot
quot_sign (pos zero) d = (λ _. omega arith, λ _. ground (arith, zero-div d))
quot_sign (pos (suc a)) d = (λ _. omega arith, λ h. absurd (omega arith))
quot_sign (negsuc a) d = (λ h. absurd (omega arith), λ _. ground arith)
