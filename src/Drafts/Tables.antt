-- ===== src/Drafts/Tables.antt =====
-- The indexes of the table of drafts.
use protocol_monorepo.Common.{
  String, str_eq, true, false, List, [], ◌∷◌, map, Option, none, some, ok, ◌≡◌, ◌⊎◌, inl, inr, refl,
  sym, eq_iff, arith, Bool-cases,
}
use protocol_monorepo.Db.Keys.{has_key, distinct_keys}
use protocol_monorepo.Db.DraftRows.{
  AgentDraftRow, draft_id, active_handle, commit_drafts, find_draft, change_draft,
}
use protocol_monorepo.Drafts.Lifecycle.{Only}

-- Both indexes hold.
abbrev pub IsTable : List AgentDraftRow → Type 0
IsTable rows =
    (distinct_keys (map draft_id rows) ≡ true) × (distinct_keys (map active_handle rows) ≡ true)

pub commit_drafts-IsTable :
    (rows after : List AgentDraftRow)
    → commit_drafts rows ≡ ok after
    → (after ≡ rows) × IsTable after
unfolding commit_drafts
commit_drafts-IsTable rows after e = elim (Bool-cases (distinct_keys (map draft_id rows))) [
  | inr p ↦ absurd (ground (arith, e, p))
  | inl p ↦ elim (Bool-cases (distinct_keys (map active_handle rows))) [
    | inr q ↦ absurd (ground (arith, e, p, q))
    | inl q ↦ ground (arith, e, p, q)
  ]
]

pub IsTable-commit_drafts :
    (rows : List AgentDraftRow) → IsTable rows → commit_drafts rows ≡ ok rows
unfolding commit_drafts
IsTable-commit_drafts rows (ids, handles) = rw (ids, handles) refl

lacks-Only :
    (id : String) (row : AgentDraftRow) (rows : List AgentDraftRow)
    → has_key id (map draft_id rows) ≡ false
    → Only id row rows
lacks-Only id row [] h = tt
lacks-Only id row (r ∷ rows) h = elim (Bool-cases (str_eq r.id id)) [
  | inl e ↦ absurd (ground (arith, h, e))
  | inr e ↦ (inl (ground (arith, eq_iff r.id id, e)), lacks-Only id row rows (ground (arith, h, e)))
]

-- With distinct ids, the row that is found is the only one.
pub find_draft-Only :
    (id : String) (row : AgentDraftRow) (rows : List AgentDraftRow)
    → distinct_keys (map draft_id rows) ≡ true
    → find_draft id rows ≡ some row
    → Only id row rows
find_draft-Only id row [] d f = tt
find_draft-Only id row (r ∷ rows) d f = elim (Bool-cases (str_eq r.id id)) [
  | inl e ↦
      let same : r.id ≡ id = (eq_iff r.id id).0 e in
      (inr (ground (arith, f, e)), lacks-Only id row rows (rw (sym same) (ground (arith, d))))
  | inr e ↦ (
    inl (ground (arith, eq_iff r.id id, e)),
    find_draft-Only id row rows (ground (arith, d)) (ground (arith, f, e)),
  )
]

-- The same keys, but for some that are gone.
abbrev pub Thins : List (Option String) → List (Option String) → Type 0
Thins [] [] = Unit {0}
Thins [] (j ∷ js) = ⊥
Thins (k ∷ ks) [] = ⊥
Thins (k ∷ ks) (j ∷ js) = ((j ≡ k) ⊎ (j ≡ none)) × Thins ks js

has_key_same :
    (i : String) (k : Option String) (ks js : List (Option String))
    → (has_key i ks ≡ false → has_key i js ≡ false)
    → has_key i (k ∷ ks) ≡ false
    → has_key i (k ∷ js) ≡ false
has_key_same i none ks js f h = f h
has_key_same i (some k) ks js f h = ground (arith, h, f (ground (arith, h)))

has_key_tail :
    (i : String) (k : Option String) (ks : List (Option String))
    → has_key i (k ∷ ks) ≡ false
    → has_key i ks ≡ false
has_key_tail i none ks h = h
has_key_tail i (some k) ks h = ground (arith, h)

Thins-has_key :
    (i : String) (ks js : List (Option String))
    → Thins ks js
    → has_key i ks ≡ false
    → has_key i js ≡ false
Thins-has_key i [] [] t h = refl
Thins-has_key i [] (j ∷ js) t h = absurd t
Thins-has_key i (k ∷ ks) [] t h = absurd t
Thins-has_key i (k ∷ ks) (j ∷ js) (inl e, t) h =
    rw e (has_key_same i k ks js (Thins-has_key i ks js t) h)
Thins-has_key i (k ∷ ks) (j ∷ js) (inr e, t) h =
    rw e (Thins-has_key i ks js t (has_key_tail i k ks h))

distinct_same :
    (k : Option String) (ks js : List (Option String))
    → Thins ks js
    → (distinct_keys ks ≡ true → distinct_keys js ≡ true)
    → distinct_keys (k ∷ ks) ≡ true
    → distinct_keys (k ∷ js) ≡ true
distinct_same none ks js t f h = f h
distinct_same (some k) ks js t f h =
    ground (arith, f (ground (arith, h)), Thins-has_key k ks js t (ground (arith, h)))

distinct_tail :
    (k : Option String) (ks : List (Option String))
    → distinct_keys (k ∷ ks) ≡ true
    → distinct_keys ks ≡ true
distinct_tail none ks h = h
distinct_tail (some k) ks h = ground (arith, h)

pub Thins-distinct_keys :
    (ks js : List (Option String)) → Thins ks js → distinct_keys ks ≡ true → distinct_keys js ≡ true
Thins-distinct_keys [] [] t h = refl
Thins-distinct_keys [] (j ∷ js) t h = absurd t
Thins-distinct_keys (k ∷ ks) [] t h = absurd t
Thins-distinct_keys (k ∷ ks) (j ∷ js) (inl e, t) h =
    rw e (distinct_same k ks js t (Thins-distinct_keys ks js t) h)
Thins-distinct_keys (k ∷ ks) (j ∷ js) (inr e, t) h =
    rw e (Thins-distinct_keys ks js t (distinct_tail k ks h))

pub Thins-refl : (ks : List (Option String)) → Thins ks ks
Thins-refl [] = tt
Thins-refl (k ∷ ks) = (inl refl, Thins-refl ks)

module _ (id : String) (f : AgentDraftRow → AgentDraftRow) where
  pub change_draft-ids :
      (rows : List AgentDraftRow)
      → ((r : AgentDraftRow) → draft_id (f r) ≡ draft_id r)
      → map draft_id (change_draft id f rows) ≡ map draft_id rows
  change_draft-ids [] keeps = refl
  change_draft-ids (r ∷ rows) keeps = elim (Bool-cases (str_eq r.id id)) [
    | inl e ↦ rw (e, keeps r, change_draft-ids rows keeps) refl
    | inr e ↦ rw (e, change_draft-ids rows keeps) refl
  ]

  change_draft-Thins :
      (rows : List AgentDraftRow)
      → ((r : AgentDraftRow) → active_handle (f r) ≡ none)
      → Thins (map active_handle rows) (map active_handle (change_draft id f rows))
  change_draft-Thins [] gone = tt
  change_draft-Thins (r ∷ rows) gone = elim (Bool-cases (str_eq r.id id)) [
    | inl e ↦ rw e (inr (gone r), change_draft-Thins rows gone)
    | inr e ↦ rw e (inl refl, change_draft-Thins rows gone)
  ]

  -- A change that takes the handle out of use keeps both indexes.
  pub change_draft-IsTable :
      (rows : List AgentDraftRow)
      → ((r : AgentDraftRow) → draft_id (f r) ≡ draft_id r)
      → ((r : AgentDraftRow) → active_handle (f r) ≡ none)
      → IsTable rows
      → IsTable (change_draft id f rows)
  change_draft-IsTable rows keeps gone (d, h) = (
    rw (change_draft-ids rows keeps) d,
    Thins-distinct_keys (map active_handle rows) (map active_handle (change_draft id f rows))
        (change_draft-Thins rows gone) h,
  )
