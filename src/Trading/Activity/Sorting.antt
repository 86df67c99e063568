-- ===== src/Trading/Activity/Sorting.antt =====
-- The order of the activities and their sort, sortActivitiesNewestFirst.
use mathlib.Core.List.{Perm}
use mathlib.Core.List.Perm
use protocol_monorepo.Common.{
  ℕ, zero, suc, ◌≡◌, inl, inr, true, false, List, [], ◌∷◌, arith, All, Bool-cases, take, drop,
  All-drop, All-take, length, refl,
}
use protocol_monorepo.Trading.Activity.{RawActivity, newest_first, insert_newest, sort_newest_first}

abbrev pub Newer : RawActivity → RawActivity → Type 0
Newer a b = newest_first a b ≡ true

Newer-trans : (a b c : RawActivity) → Newer a b → Newer b c → Newer a c
unfolding newest_first
Newer-trans a b c h k = ground arith

Newer-total : (a b : RawActivity) → newest_first a b ≡ false → Newer b a
unfolding newest_first
Newer-total a b h = ground arith

-- Every activity stands before those that are no newer.
abbrev pub IsNewestFirst : List RawActivity → Type 0
IsNewestFirst [] = Unit
IsNewestFirst (x ∷ xs) = All (Newer x) xs × IsNewestFirst xs

All-Newer_trans :
    (a b : RawActivity) (xs : List RawActivity) → Newer a b → All (Newer b) xs → All (Newer a) xs
All-Newer_trans a b [] h k = tt
All-Newer_trans a b (x ∷ xs) h (k, ks) = (Newer-trans a b x h k, All-Newer_trans a b xs h ks)

All-insert_newest :
    (P : RawActivity → Type 0) (x : RawActivity) (xs : List RawActivity)
    → P x
    → All P xs
    → All P (insert_newest x xs)
unfolding insert_newest
All-insert_newest P x [] p h = (p, tt)
All-insert_newest P x (y ∷ ys) p (q, h) = elim (Bool-cases (newest_first x y)) [
  | inl e ↦ rw e (p, (q, h))
  | inr e ↦ rw e (q, All-insert_newest P x ys p h)
]

insert_newest-IsNewestFirst :
    (x : RawActivity) (xs : List RawActivity)
    → IsNewestFirst xs
    → IsNewestFirst (insert_newest x xs)
unfolding insert_newest
insert_newest-IsNewestFirst x [] h = (tt, tt)
insert_newest-IsNewestFirst x (y ∷ ys) (all, h) = elim (Bool-cases (newest_first x y)) [
  | inl e ↦ rw e ((e, All-Newer_trans x y ys e all), (all, h))
  | inr e ↦
      rw e (
        All-insert_newest (Newer y) x ys (Newer-total x y e) all,
        insert_newest-IsNewestFirst x ys h,
      )
]

pub sort_newest_first-IsNewestFirst : (xs : List RawActivity) → IsNewestFirst (sort_newest_first xs)
unfolding sort_newest_first
sort_newest_first-IsNewestFirst [] = tt
sort_newest_first-IsNewestFirst (x ∷ xs) =
    insert_newest-IsNewestFirst x (sort_newest_first xs) (sort_newest_first-IsNewestFirst xs)

insert_newest-perm : (x : RawActivity) (xs : List RawActivity) → Perm (insert_newest x xs) (x ∷ xs)
unfolding insert_newest
insert_newest-perm x [] = Perm.refl (x ∷ [])
insert_newest-perm x (y ∷ ys) = elim (Bool-cases (newest_first x y)) [
  | inl e ↦ rw e (Perm.refl (x ∷ y ∷ ys))
  | inr e ↦ rw e (Perm.trans (Perm.cons y (insert_newest-perm x ys)) (Perm.swap x y ys))
]

pub sort_newest_first-perm : (xs : List RawActivity) → Perm (sort_newest_first xs) xs
unfolding sort_newest_first
sort_newest_first-perm [] = Perm.refl []
sort_newest_first-perm (x ∷ xs) =
    Perm.trans (insert_newest-perm x (sort_newest_first xs))
      (Perm.cons x (sort_newest_first-perm xs))

-- What is cut off from a sorted list is no newer than anything that is kept.
pub All-Newer-drop :
    (n : ℕ) (xs : List RawActivity)
    → IsNewestFirst xs
    → All (λ x. All (Newer x) (drop n xs)) (take n xs)
All-Newer-drop zero xs h = tt
All-Newer-drop (suc n) [] h = tt
All-Newer-drop (suc n) (x ∷ xs) (all, h) = (All-drop (Newer x) n xs all, All-Newer-drop n xs h)

pub take-IsNewestFirst :
    (n : ℕ) (xs : List RawActivity) → IsNewestFirst xs → IsNewestFirst (take n xs)
take-IsNewestFirst zero xs h = tt
take-IsNewestFirst (suc n) [] h = tt
take-IsNewestFirst (suc n) (x ∷ xs) (all, h) =
    (All-take (Newer x) n xs all, take-IsNewestFirst n xs h)

length-insert_newest :
    (x : RawActivity) (xs : List RawActivity) → length (insert_newest x xs) ≡ suc (length xs)
unfolding insert_newest
length-insert_newest x [] = refl
length-insert_newest x (y ∷ ys) = ground (arith, length-insert_newest x ys)

pub length-sort_newest_first : (xs : List RawActivity) → length (sort_newest_first xs) ≡ length xs
unfolding sort_newest_first
length-sort_newest_first [] = refl
length-sort_newest_first (x ∷ xs) =
    omega (arith, length-insert_newest x (sort_newest_first xs), length-sort_newest_first xs)
