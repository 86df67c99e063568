-- ===== src/Tokens/Usd.antt =====
-- api/src/lib/tokens/utils.ts: an amount of USDC as a text in dollars. The amount is a uint256.
pub mod Shown
use protocol_monorepo.Common.{
  ℕ, zero, suc, ◌+◌, ◌-◌, ◌/◌, ◌%◌, ◌^◌, List, [], ◌∷◌, ◌++◌, ◌==◌, if◌then◌else◌, length,
  replicate,
}
use protocol_monorepo.Common.Text.{Text}
use protocol_monorepo.Common.Decimal.Print.{to_string}

-- `s.padStart(n, '0')`
unfoldable pub pad_start : Text → ℕ → Text
pad_start s n = replicate (n - length s) b'0' ++ s

-- A character that is a zero goes if nothing is left behind it.
abbrev pub drop_last_zero : ℕ → Text → Text
drop_last_zero c [] = if c == b'0' then [] else c ∷ []
drop_last_zero c (d ∷ s) = c ∷ d ∷ s

-- `s.replace(/0+$/, '')`
unfoldable pub without_last_zeros : Text → Text
without_last_zeros [] = []
without_last_zeros (c ∷ s) = drop_last_zero c (without_last_zeros s)

unfoldable pub atomic_usdc_to_usd_string : ℕ → ℕ → Text
atomic_usdc_to_usd_string amount decimals =
    let whole = amount / 10 ^ decimals in
    let frac = amount % 10 ^ decimals in
    if frac == 0
    then b'$' ∷ to_string whole
    else (b'$' ∷ to_string whole ++ b'.' ∷ without_last_zeros (pad_start (to_string frac) decimals))
