-- ===== src/Orders/Closed/Batches.antt =====
-- Lists that are taken in batches, and the ids of a batch.
use Prim.Native.Nat.{max}
use protocol_monorepo.Common.{
  ℕ, zero, suc, ◌+◌, ◌-◌, ◌≤◌, ◌≡◌, refl, sym, ap, ◌∙◌, Bool, ◌++◌, List, [], ◌∷◌, map, take,
  filter_by, length, leb, Bool-cases, inl, inr, arith, length-append,
}
use protocol_monorepo.Orders.Closed.{ids_down}

module _ {A : Type 0} where
  pub append_nil : (xs : List A) → xs ++ [] ≡ xs
  append_nil [] = refl
  append_nil (x ∷ xs) = ap (◌∷◌ x) (append_nil xs)

  pub append_assoc : (xs ys zs : List A) → xs ++ ys ++ zs ≡ xs ++ (ys ++ zs)
  append_assoc [] ys zs = refl
  append_assoc (x ∷ xs) ys zs = ap (◌∷◌ x) (append_assoc xs ys zs)

  pub filter_by-append :
      (p : A → Bool) (xs ys : List A) → filter_by p (xs ++ ys) ≡ filter_by p xs ++ filter_by p ys
  filter_by-append p [] ys = refl
  filter_by-append p (x ∷ xs) ys = elim (Bool-cases (p x)) [
    | inl kept ↦ rw (kept, filter_by-append p xs ys) refl
    | inr out ↦ rw (out, filter_by-append p xs ys) refl
  ]

  -- The first `n` of two lists.
  pub take-append :
      (n : ℕ) (xs ys : List A) → take n (xs ++ ys) ≡ take n xs ++ take (n - length (take n xs)) ys
  take-append zero xs ys = refl
  take-append (suc n) [] ys = let e : suc n ≡ suc n - 0 = omega arith in ap (λ k. take k ys) e
  take-append (suc n) (x ∷ xs) ys =
      let e : n - length (take n xs) ≡ suc n - suc (length (take n xs)) = omega arith in
      ap (◌∷◌ x) (take-append n xs ys ∙ ap (λ k. take n xs ++ take k ys) e)

  take-none : (n : ℕ) (xs : List A) → n ≡ 0 → take n xs ≡ []
  take-none zero xs h = refl
  take-none (suc n) xs h = absurd (omega arith)

  pub take-nil : (n : ℕ) → take n (◌++◌ {A = A} [] []) ≡ []
  take-nil zero = refl
  take-nil (suc n) = refl

-- A batch is taken up to the limit, and then what is below it.
pub take-batches :
    {A : Type 0} (limit : ℕ) (found xs ys : List A)
    → (let all = found ++ take (limit - length found) xs in all ++ take (limit - length all) ys)
      ≡ found ++ take (limit - length found) (xs ++ ys)
take-batches limit found xs ys =
    let batch = take (limit - length found) xs in
    let e : limit - length (found ++ batch) ≡ limit - length found - length batch =
      omega (arith, length-append found batch) in
    append_assoc found batch (take (limit - length (found ++ batch)) ys)
    ∙ ap (λ k. found ++ (batch ++ take k ys)) e
    ∙ ap (λ zs. found ++ zs) (sym (take-append (limit - length found) xs ys))

pub map-append :
    {A B : Type 0} (f : A → B) (xs ys : List A) → map f (xs ++ ys) ≡ map f xs ++ map f ys
map-append f [] ys = refl
map-append f (x ∷ xs) ys = ap (◌∷◌ (f x)) (map-append f xs ys)

pub ids_down-append : (m n end : ℕ) → ids_down (m + n) end ≡ ids_down m end ++ ids_down n (end - m)
unfolding ids_down
ids_down-append zero n end =
    let e1 : 0 + n ≡ n = omega arith in
    let e2 : end ≡ end - 0 = omega arith in ap (λ k. ids_down k end) e1 ∙ ap (ids_down n) e2
ids_down-append (suc m) n end =
    let e1 : suc m + n ≡ suc (m + n) = omega arith in
    let e2 : end - 1 - m ≡ end - suc m = omega arith in
    ap (λ k. ids_down k end) e1
    ∙ ap (◌∷◌ end)
        (ids_down-append m n (end - 1) ∙ ap (λ e. ids_down m (end - 1) ++ ids_down n e) e2)

abbrev pub batch_ids : ℕ → ℕ → List ℕ
batch_ids scan_start batch_end =
    ids_down (batch_end + 1 - max scan_start (batch_end + 1 - 50)) batch_end

-- The ids from a batch's end down to the start are those of the batch and those below it.
pub split_ids :
    (scan_start batch_end : ℕ)
    → 1 ≤ scan_start
    → ids_down (batch_end + 1 - scan_start) batch_end
      ≡ batch_ids scan_start batch_end
        ++ ids_down (batch_end - 50 + 1 - scan_start) (batch_end - 50)
unfolding ids_down
split_ids scan_start batch_end h = elim (Bool-cases (leb scan_start (batch_end + 1 - 50))) [
  | inl many ↦
      let e1 : batch_end + 1 - max scan_start (batch_end + 1 - 50) ≡ 50 = ground arith in
      let e2 : batch_end + 1 - scan_start ≡ 50 + (batch_end - 50 + 1 - scan_start) = ground arith in
      ap (λ k. ids_down k batch_end) e2
      ∙ ids_down-append 50 (batch_end - 50 + 1 - scan_start) batch_end
      ∙ ap
          (λ k. ids_down k batch_end ++ ids_down (batch_end - 50 + 1 - scan_start) (batch_end - 50))
          (sym e1)
  | inr few ↦
      let e1 : batch_end + 1 - max scan_start (batch_end + 1 - 50) ≡ batch_end + 1 - scan_start =
        ground arith in
      let e2 : batch_end - 50 + 1 - scan_start ≡ 0 = ground arith in
      sym (append_nil (ids_down (batch_end + 1 - scan_start) batch_end))
      ∙ ap (λ k. ids_down (batch_end + 1 - scan_start) batch_end ++ ids_down k (batch_end - 50))
          (sym e2)
      ∙ ap
          (λ k. ids_down k batch_end ++ ids_down (batch_end - 50 + 1 - scan_start) (batch_end - 50))
          (sym e1)
]
