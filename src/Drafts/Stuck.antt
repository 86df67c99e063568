-- ===== src/Drafts/Stuck.antt =====
-- Launches that leave their draft launching (api/src/services/agent-launch.service.ts).
use protocol_monorepo.Common.{
  String, str_eq, true, false, List, [], ◌∷◌, map, Option, none, some, ok, err, ◌≡◌, ◌≢◌, refl, sym,
  ◌∙◌, ap, inl, inr, ◌⊎◌, eq_iff, arith, Bool-cases,
}
use protocol_monorepo.Common.Text.{Text}
use protocol_monorepo.Db.Actions.{Failure, unique_violation}
use protocol_monorepo.Db.Keys.{has_key, distinct_keys}
use protocol_monorepo.Db.DraftRows.{
  AgentDraftRow, draft, launching, draft_id, active_handle, is_status_draft, commit_drafts,
  find_draft, change_draft, patch_draft,
}
use protocol_monorepo.Db.Database.{Database}
use protocol_monorepo.Drafts.Service.{Deployment, UpdateAgentDraftBody, update_draft}
use protocol_monorepo.Drafts.Wallet.{KeyPair, provision_wallet}
use protocol_monorepo.Drafts.Signing.{LaunchServices, LaunchTimes}
use protocol_monorepo.Drafts.Launch.{
  Prepared, status_patch, launch_failure, finish_launch, launch_draft,
}
use protocol_monorepo.Drafts.Finds.{find_draft-change_draft}
use protocol_monorepo.Drafts.Access.{owns, not_editable, settled_draft_refused}
use protocol_monorepo.Drafts.Gaps.{
  registered, restored, finish_launch_fee_failed, finish_launch_restore_refused,
}

has_key_head :
    (h : String) (k : Option String) (ks : List (Option String))
    → k ≡ some h
    → has_key h (k ∷ ks) ≡ true
has_key_head h k ks e = rw (e, (eq_iff h h).1 refl) refl

has_key_tail :
    (h : String) (k : Option String) (ks : List (Option String))
    → has_key h ks ≡ true
    → has_key h (k ∷ ks) ≡ true
has_key_tail h none ks e = e
has_key_tail h (some j) ks e = ground (arith, e)

distinct_keys_head :
    (h : String) (k : Option String) (ks : List (Option String))
    → k ≡ some h
    → has_key h ks ≡ true
    → distinct_keys (k ∷ ks) ≡ false
distinct_keys_head h k ks e there = rw (e, there) refl

distinct_keys_tail :
    (k : Option String) (ks : List (Option String))
    → distinct_keys ks ≡ false
    → distinct_keys (k ∷ ks) ≡ false
distinct_keys_tail none ks e = e
distinct_keys_tail (some j) ks e = ground (arith, e)

found_head :
    (id : String) (row r : AgentDraftRow) (rows : List AgentDraftRow)
    → str_eq r.id id ≡ true
    → find_draft id (r ∷ rows) ≡ some row
    → r ≡ row
found_head id row r rows same found = let e : some r ≡ some row = ground (arith, found, same) in cc

-- A draft that is found has its handle in the index.
found_handle :
    (id h : String) (row : AgentDraftRow) (rows : List AgentDraftRow)
    → find_draft id rows ≡ some row
    → active_handle row ≡ some h
    → has_key h (map active_handle rows) ≡ true
found_handle id h row [] found own = absurd (ground (arith, found))
found_handle id h row (r ∷ rows) found own = elim (Bool-cases (str_eq r.id id)) [
  | inl same ↦
      has_key_head h (active_handle r) (map active_handle rows)
        (ap active_handle (found_head id row r rows same found) ∙ own)
  | inr other ↦
      has_key_tail h (active_handle r) (map active_handle rows)
        (found_handle id h row rows (ground (arith, found, other)) own)
]

ids_apart : (a b c : String) → c ≢ b → str_eq a c ≡ true → str_eq a b ≡ false
ids_apart a b c apart e = elim (Bool-cases (str_eq a b)) [
  | inr out ↦ out
  | inl same ↦ absurd (apart (sym ((eq_iff a c).0 e) ∙ (eq_iff a b).0 same))
]

-- A change of one row leaves the others.
find_draft-change_other :
    (id : String) (f : AgentDraftRow → AgentDraftRow) (other : String) (row : AgentDraftRow)
    (rows : List AgentDraftRow)
    → ((r : AgentDraftRow) → (f r).id ≡ r.id)
    → other ≢ id
    → find_draft other rows ≡ some row
    → find_draft other (change_draft id f rows) ≡ some row
find_draft-change_other id f other row [] keeps apart found = absurd (ground (arith, found))
find_draft-change_other id f other row (r ∷ rows) keeps apart found =
    elim (Bool-cases (str_eq r.id other)) [
      | inl here ↦
          let unlike : str_eq r.id id ≡ false = ids_apart r.id id other apart here in
          let first : some r ≡ some row = ground (arith, found, here) in rw (unlike, here) first
      | inr past ↦
          let later =
            find_draft-change_other id f other row rows keeps apart (ground (arith, found, past)) in
          elim (Bool-cases (str_eq r.id id)) [
            | inl own ↦
                let past' : str_eq (f r).id other ≡ false = rw (keeps r) past in
                simp (own, past') later
            | inr out ↦ rw (out, past) later
          ]
    ]

-- Two drafts of one handle violate the index.
two_of_handle :
    (id other h : String) (row rival : AgentDraftRow) (rows : List AgentDraftRow)
    → other ≢ id
    → find_draft id rows ≡ some row
    → find_draft other rows ≡ some rival
    → active_handle row ≡ some h
    → active_handle rival ≡ some h
    → distinct_keys (map active_handle rows) ≡ false
two_of_handle id other h row rival [] apart found found2 own own2 = absurd (ground (arith, found))
two_of_handle id other h row rival (r ∷ rows) apart found found2 own own2 =
    let tail = map active_handle rows in
    elim (Bool-cases (str_eq r.id id)) [
      | inl mine ↦
          let unlike : str_eq r.id other ≡ false =
            ids_apart r.id other id (λ e. apart (sym e)) mine in
          distinct_keys_head h (active_handle r) tail
            (ap active_handle (found_head id row r rows mine found) ∙ own)
            (found_handle other h rival rows (ground (arith, found2, unlike)) own2)
      | inr past ↦ elim (Bool-cases (str_eq r.id other)) [
        | inl theirs ↦
            distinct_keys_head h (active_handle r) tail
              (ap active_handle (found_head other rival r rows theirs found2) ∙ own2)
              (found_handle id h row rows (ground (arith, found, past)) own)
        | inr past2 ↦ distinct_keys_tail (active_handle r) tail (
            two_of_handle id other h row rival rows apart (ground (arith, found, past))
              (ground (arith, found2, past2)) own own2)
      ]
    ]

commit_refused :
    (rows : List AgentDraftRow)
    → distinct_keys (map active_handle rows) ≡ false
    → commit_drafts rows ≡ err unique_violation
unfolding commit_drafts
commit_refused rows e = elim (Bool-cases (distinct_keys (map draft_id rows))) [
  | inl d ↦ rw (d, e) refl
  | inr d ↦ rw d refl
]

module _ (services : LaunchServices) (times : LaunchTimes) (p : Prepared) (s : Database)
    (row : AgentDraftRow) where
  -- The fee cannot be read behind a registration that is through.
  pub record FeeFails (f : Failure) : Type 0 where
    pub agent_id : String
    pub tx_hash : Text
    pub thrown : Failure
    pub is_registered : registered services times p s ≡ ok (agent_id, tx_hash)
    pub failed : services.registration_fee ≡ err thrown
    pub answer : f ≡ launch_failure thrown

  -- The registration fails, and another draft has taken the handle meanwhile.
  pub record HandleTaken (f : Failure) : Type 0 where
    pub thrown : Failure
    pub handle : String
    pub rival_id : String
    pub rival : AgentDraftRow
    pub failed : registered services times p s ≡ err thrown
    pub own_handle : row.handle ≡ some handle
    pub other_id : rival_id ≢ p.draft_id
    pub other_found : find_draft rival_id s.drafts ≡ some rival
    pub other_status : rival.status ≡ draft
    pub other_handle : rival.handle ≡ some handle
    pub answer : f ≡ unique_violation

  fee_fails : (f : Failure) → FeeFails f → finish_launch services times p s ≡ (s, err f)
  fee_fails f c = rw c.answer (
      finish_launch_fee_failed services times p s c.agent_id c.tx_hash c.thrown c.is_registered
        c.failed)

  handle_taken :
      find_draft p.draft_id s.drafts ≡ some row
      → (f : Failure) → HandleTaken f
      → finish_launch services times p s ≡ (s, err f)
  unfolding patch_draft
  handle_taken found f c =
      let change = patch_draft (status_patch draft times.failed_at) in
      let clash =
        two_of_handle p.draft_id c.rival_id c.handle (change row) c.rival
          (restored services times p s) c.other_id
          (find_draft-change_draft p.draft_id change row s.drafts (λ r. refl) found)
          (find_draft-change_other p.draft_id change c.rival_id c.rival s.drafts (λ r. refl)
            c.other_id c.other_found)
          c.own_handle (rw (c.other_status, c.other_handle) refl) in
      rw c.answer (
        finish_launch_restore_refused services times p s row c.thrown unique_violation c.failed
          found (commit_refused (restored services times p s) clash))

  -- When a launch's draft is launching, and either the fee cannot be read behind a registration
  -- that is through, or the registration fails while another draft has taken the handle, then the
  -- launch throws (in the second case the refusal of the index, not the registration's error) and
  -- leaves the database as it was. The draft is found launching, and its owner is refused by an
  -- update, by the wallet and by another launch, none of which changes the database.
  pub finish_launch_stuck :
      (f : Failure) (deployment : Deployment) (again : LaunchServices) (later : LaunchTimes)
      (pair : KeyPair) (caller updated_at : Text) (body : UpdateAgentDraftBody)
      → find_draft p.draft_id s.drafts ≡ some row
      → row.status ≡ launching
      → owns caller (some row) ≡ true
      → FeeFails f ⊎ HandleTaken f
      → (after : Database) × (finish_launch services times p s ≡ (after, err f))
        × (after ≡ s)
        × (find_draft p.draft_id after.drafts ≡ some row)
        × (update_draft deployment p.draft_id caller updated_at body after
            ≡ (after, err not_editable))
        × (provision_wallet p.draft_id caller pair updated_at after ≡ (after, err not_editable))
        × (launch_draft again later p.draft_id caller after ≡ (after, err not_editable))
  finish_launch_stuck f deployment again later pair caller updated_at body found status own cause =
      let ended : finish_launch services times p s ≡ (s, err f) = elim cause [
        | inl c ↦ fee_fails f c
        | inr c ↦ handle_taken found f c
      ] in
      let settled : is_status_draft row.status ≡ false = rw status refl in
      let refused =
        settled_draft_refused p.draft_id caller s deployment again later pair updated_at body row
          found own settled in
      (s, ended, refl, found, refused.0, refused.1, refused.2)
