-- ===== src/Common/Decimal.antt =====
-- JavaScript's `trim`, `split`, `padEnd` and `BigInt(text)`, and the numbers that digits spell.
pub mod Value
pub mod Print
use mathlib.Core.Option
use protocol_monorepo.Common.{
  ℕ, zero, suc, ◌+◌, ◌-◌, ◌*◌, Bool, true, false, ◌&&◌, ◌||◌, Option, none, some, List, [], ◌∷◌,
  ◌++◌, ltb, leb, ◌==◌, if◌then◌else◌, any, length, replicate,
}
use protocol_monorepo.Common.Int.{ℤ, pos, neg_ℕ}
use protocol_monorepo.Common.Text.{Text}

-- White space and line terminators.
abbrev pub spaces : List ℕ
spaces =
    9 ∷ 10 ∷ 11 ∷ 12 ∷ 13 ∷ 32 ∷ 160 ∷ 0x1680 ∷ 0x2028 ∷ 0x2029 ∷ 0x202f ∷ 0x205f ∷ 0x3000 ∷ 0xfeff
    ∷ []

unfoldable pub is_space : ℕ → Bool
is_space c = any (λ s. s == c) spaces || leb 0x2000 c && leb c 0x200a

unfoldable pub trim_start : Text → Text
trim_start [] = []
trim_start (c ∷ s) = let rest = trim_start s in if is_space c then rest else c ∷ s

-- A character that is a space goes if nothing is left behind it.
abbrev drop_last_space : ℕ → Text → Text
drop_last_space c [] = if is_space c then [] else c ∷ []
drop_last_space c (d ∷ s) = c ∷ d ∷ s

pub trim_end : Text → Text
trim_end [] = []
trim_end (c ∷ s) = drop_last_space c (trim_end s)

unfoldable pub trim : Text → Text
unfolding trim_start trim_end is_space
trim s = trim_end (trim_start s)

-- The parts of `s.split('.')`: the first, and those behind it.
abbrev longer : ℕ → Text × List Text → Text × List Text
longer c (first, rest) = (c ∷ first, rest)

abbrev pub dot_next : Text × List Text → Text × List Text
dot_next (first, rest) = ([], first ∷ rest)

unfoldable pub split_dot : Text → Text × List Text
split_dot [] = ([], [])
split_dot (c ∷ s) = let parts = split_dot s in if c == b'.' then dot_next parts else longer c parts

-- `const [whole, fraction = ''] = s.split('.')`
abbrev pub second_part : List Text → Text
second_part [] = []
second_part (t ∷ ts) = t

-- `s.padEnd(n, '0')`
unfoldable pub pad_end : Text → ℕ → Text
pad_end s n = s ++ replicate (n - length s) b'0'

-- The value of a digit or a letter as a digit; 36 for any other character.
unfoldable pub digit_value : ℕ → ℕ
digit_value c =
    if leb b'0' c && leb c b'9'
    then c - b'0'
    else if leb b'a' c && leb c b'z'
    then c - b'a' + 10
    else if leb b'A' c && leb c b'Z'
    then c - b'A' + 10
    else 36

unfoldable pub scan_digits : ℕ → ℕ → Text → Option ℕ
scan_digits radix acc [] = some acc
scan_digits radix acc (c ∷ s) =
    let rest = scan_digits radix (acc * radix + digit_value c) s in
    if ltb (digit_value c) radix then rest else none

pub digits_literal : ℕ → Text → Option ℕ
digits_literal radix [] = none
digits_literal radix (c ∷ s) = scan_digits radix 0 (c ∷ s)

-- The radix that a literal's second character asks for after a leading zero.
pub radix_of : ℕ → Option ℕ
radix_of c =
    if c == b'x' || c == b'X'
    then some 16
    else if c == b'o' || c == b'O'
    then some 8
    else if c == b'b' || c == b'B'
    then some 2
    else none

pub unsigned_literal : Text → Option ℕ
unsigned_literal [] = none
unsigned_literal (c ∷ []) = digits_literal 10 (c ∷ [])
unsigned_literal (c ∷ d ∷ s) = elim (radix_of d) [
  | none ↦ digits_literal 10 (c ∷ d ∷ s)
  | some radix ↦ if c == b'0' then digits_literal radix s else none
]

pub integer_literal : Text → Option ℤ
integer_literal [] = some (pos 0)
integer_literal (c ∷ s) =
    if c == b'-'
    then Option.map neg_ℕ (digits_literal 10 s)
    else if c == b'+'
    then Option.map pos (digits_literal 10 s)
    else Option.map pos (unsigned_literal (c ∷ s))

-- `BigInt(text)`; `none` is the SyntaxError.
unfoldable pub big_int : Text → Option ℤ
unfolding trim integer_literal unsigned_literal digits_literal radix_of scan_digits digit_value
big_int s = integer_literal (trim s)
