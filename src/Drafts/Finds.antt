-- ===== src/Drafts/Finds.antt =====
-- What is found in a table after a write.
use protocol_monorepo.Common.{
  String, str_eq, true, false, List, [], ◌∷◌, ◌++◌, map, any, some, ok, ◌≡◌, inl, inr, refl, sym,
  eq_iff, arith, Bool-cases,
}
use protocol_monorepo.Db.Keys.{has_key, distinct_keys}
use protocol_monorepo.Db.Profiles.{
  AgentProfileRow, profile_id, active_profile_handle, find_profile, commit_profiles, create_profile,
}
use protocol_monorepo.Db.Signers.{AgentSignerRow, find_signer, create_signer}
use protocol_monorepo.Db.DraftRows.{AgentDraftRow, find_draft, change_draft}

pub find_draft-change_draft :
    (id : String) (f : AgentDraftRow → AgentDraftRow) (row : AgentDraftRow)
    (rows : List AgentDraftRow)
    → ((r : AgentDraftRow) → (f r).id ≡ r.id)
    → find_draft id rows ≡ some row
    → find_draft id (change_draft id f rows) ≡ some (f row)
find_draft-change_draft id f row [] keeps e = absurd (ground (arith, e))
find_draft-change_draft id f row (r ∷ rows) keeps e = elim (Bool-cases (str_eq r.id id)) [
  | inl same ↦
      let first : some r ≡ some row = ground (arith, e, same) in
      let keeps_id : str_eq (f r).id id ≡ true = rw (keeps r) same in
      simp (same, keeps_id) (cc first)
  | inr other ↦
      rw (other, other) (find_draft-change_draft id f row rows keeps (ground (arith, e, other)))
]

last_signer :
    (row : AgentSignerRow) (rows : List AgentSignerRow)
    → any (λ r. str_eq r.agent_id row.agent_id) rows ≡ false
    → find_signer row.agent_id (rows ++ row ∷ []) ≡ some row
last_signer row [] e = rw ((eq_iff row.agent_id row.agent_id).1 refl) refl
last_signer row (r ∷ rows) e = elim (Bool-cases (str_eq r.agent_id row.agent_id)) [
  | inl same ↦ absurd (ground (arith, e, same))
  | inr other ↦ rw other (last_signer row rows (ground (arith, e, other)))
]

pub find_signer-create_signer :
    (row : AgentSignerRow) (rows after : List AgentSignerRow)
    → create_signer row rows ≡ ok after
    → find_signer row.agent_id after ≡ some row
unfolding create_signer
find_signer-create_signer row rows after e =
    elim (Bool-cases (any (λ r. str_eq r.agent_id row.agent_id) rows)) [
      | inl there ↦ absurd (ground (arith, e, there))
      | inr new ↦
          let same : rows ++ row ∷ [] ≡ after = ground (arith, e, new) in
          rw (sym same) (last_signer row rows new)
    ]

has_key_last :
    (row : AgentProfileRow) (rows : List AgentProfileRow)
    → has_key row.agent_id (map profile_id (rows ++ row ∷ [])) ≡ true
has_key_last row [] = rw ((eq_iff row.agent_id row.agent_id).1 refl) refl
has_key_last row (r ∷ rows) = elim (Bool-cases (str_eq r.agent_id row.agent_id)) [
  | inl same ↦ rw same refl
  | inr other ↦ rw other (has_key_last row rows)
]

last_profile :
    (row : AgentProfileRow) (rows : List AgentProfileRow)
    → distinct_keys (map profile_id (rows ++ row ∷ [])) ≡ true
    → find_profile row.agent_id (rows ++ row ∷ []) ≡ some row
last_profile row [] d = rw ((eq_iff row.agent_id row.agent_id).1 refl) refl
last_profile row (r ∷ rows) d = elim (Bool-cases (str_eq r.agent_id row.agent_id)) [
  | inl same ↦
      let is : r.agent_id ≡ row.agent_id = (eq_iff r.agent_id row.agent_id).0 same in
      let there : has_key r.agent_id (map profile_id (rows ++ row ∷ [])) ≡ true =
        rw is (has_key_last row rows) in
      absurd (ground (arith, d, there))
  | inr other ↦ rw other (last_profile row rows (ground (arith, d)))
]

pub find_profile-create_profile :
    (row : AgentProfileRow) (rows after : List AgentProfileRow)
    → create_profile row rows ≡ ok after
    → find_profile row.agent_id after ≡ some row
unfolding create_profile commit_profiles
find_profile-create_profile row rows after e =
    elim (Bool-cases (distinct_keys (map profile_id (rows ++ row ∷ [])))) [
      | inr taken ↦ absurd (ground (arith, e, taken))
      | inl ids ↦ elim (Bool-cases (distinct_keys (map active_profile_handle (rows ++ row ∷ [])))) [
        | inr taken ↦ absurd (ground (arith, e, ids, taken))
        | inl handles ↦
            let same : rows ++ row ∷ [] ≡ after = ground (arith, e, ids, handles) in
            rw (sym same) (last_profile row rows ids)
      ]
    ]
