-- ===== src/Common/Text.antt =====
-- JavaScript strings that the program takes apart, as lists of UTF-16 code units.
use Prim.Native.Char.{Char, code}
use protocol_monorepo.Common.{
  ℕ, ◌+◌, String, Bool, true, false, ◌&&◌, ◌||◌, List, [], ◌∷◌, ◌++◌, leb, ◌==◌, if◌then◌else◌, ◌≡◌,
  ◌↔◌, arith,
}

abbrev pub Text : Type 0
Text = List ℕ

-- A literal; its code points are its code units when it is ASCII.
abbrev pub codes : String → Text
codes String.[] = []
codes (String.◌∷◌ c s) = code c ∷ codes s

-- `toLowerCase` on the ASCII letters.
unfoldable pub to_lower : ℕ → ℕ
to_lower c = if leb b'A' c && leb c b'Z' then c + 32 else c

-- `toUpperCase` on the ASCII letters: the character at the place where the first text has it.
replace_from : String → String → Char → Char
replace_from String.[] _ c = c
replace_from (String.◌∷◌ _ _) String.[] c = c
replace_from (String.◌∷◌ a s) (String.◌∷◌ b t) c =
    if code a == code c then b else replace_from s t c

unfoldable pub to_upper_case : String → String
unfolding replace_from
to_upper_case String.[] = String.[]
to_upper_case (String.◌∷◌ c s) =
    String.◌∷◌ (replace_from "abcdefghijklmnopqrstuvwxyz" "ABCDEFGHIJKLMNOPQRSTUVWXYZ" c)
      (to_upper_case s)

abbrev pub has_prefix : Text → Text → Bool
has_prefix [] s = true
has_prefix (p ∷ ps) [] = false
has_prefix (p ∷ ps) (c ∷ s) = p == c && has_prefix ps s

-- `s.includes(p)`
unfoldable pub includes : Text → Text → Bool
includes p [] = has_prefix p []
includes p (c ∷ s) = has_prefix p (c ∷ s) || includes p s

-- `parts.join(sep)`
unfoldable pub join : Text → List Text → Text
join sep [] = []
join sep (t ∷ []) = t
join sep (t ∷ u ∷ ts) = t ++ sep ++ join sep (u ∷ ts)

abbrev pub text_eq : Text → Text → Bool
text_eq [] [] = true
text_eq [] (d ∷ t) = false
text_eq (c ∷ s) [] = false
text_eq (c ∷ s) (d ∷ t) = c == d && text_eq s t

pub text_eq_iff : (s t : Text) → (text_eq s t ≡ true) ↔ (s ≡ t)
text_eq_iff [] [] = ground arith
text_eq_iff [] (d ∷ t) = ground arith
text_eq_iff (c ∷ s) [] = ground arith
text_eq_iff (c ∷ s) (d ∷ t) = ground (arith, text_eq_iff s t)
