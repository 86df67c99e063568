-- ===== src/Db/Keys.antt =====
-- The partial unique indexes of api/src/db/schema.ts, and the order of texts in SQLite.
use protocol_monorepo.Common.{
  String, str_eq, Bool, true, false, not, ◌&&◌, ◌||◌, ◌==◌, ltb, if◌then◌else◌, Option, none, some,
  List, [], ◌∷◌,
}
use protocol_monorepo.Common.Text.{Text}

-- Whether a key is there; rows outside the index have none.
abbrev pub has_key : String → List (Option String) → Bool
has_key k [] = false
has_key k (none ∷ ks) = has_key k ks
has_key k (some j ∷ ks) = str_eq j k || has_key k ks

abbrev pub distinct_keys : List (Option String) → Bool
distinct_keys [] = true
distinct_keys (none ∷ ks) = distinct_keys ks
distinct_keys (some k ∷ ks) = not (has_key k ks) && distinct_keys ks

abbrev pub text_leb : Text → Text → Bool
text_leb [] t = true
text_leb (c ∷ s) [] = false
text_leb (c ∷ s) (d ∷ t) = if c == d then text_leb s t else ltb c d

abbrev pub text_ltb : Text → Text → Bool
text_ltb s t = not (text_leb t s)

-- `ORDER BY key ASC` and `ORDER BY key DESC`; rows with equal keys keep their order.
module _ {A : Type 0} (key : A → Text) where
  unfoldable pub insert_ascending : A → List A → List A
  insert_ascending x [] = x ∷ []
  insert_ascending x (y ∷ ys) =
      let rest = insert_ascending x ys in if text_leb (key x) (key y) then x ∷ y ∷ ys else y ∷ rest

  unfoldable pub order_ascending : List A → List A
  order_ascending [] = []
  order_ascending (x ∷ xs) = insert_ascending x (order_ascending xs)

  unfoldable pub insert_descending : A → List A → List A
  insert_descending x [] = x ∷ []
  insert_descending x (y ∷ ys) =
      let rest = insert_descending x ys in if text_leb (key y) (key x) then x ∷ y ∷ ys else y ∷ rest

  unfoldable pub order_descending : List A → List A
  order_descending [] = []
  order_descending (x ∷ xs) = insert_descending x (order_descending xs)
