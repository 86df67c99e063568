-- ===== src/Drafts/Rules.antt =====
-- The outcomes of the requests' reads and writes of the table of drafts.
use protocol_monorepo.Common.{
  String, true, not, List, [], ◌∷◌, ◌++◌, map, Option, none, some, Result, ok, err, ◌≡◌, inl, inr,
  refl, sym, arith, Result-cases,
}
use protocol_monorepo.Common.Text.{Text, text_eq, to_lower}
use protocol_monorepo.Db.Actions.{
  Failure, app_error, Action, continue_with, pure, ◌>>◌, throw_if, require,
}
use protocol_monorepo.Db.Outcomes.{Ends, require-Ends, >>=-Ends, throw_if-Ends, Ends-weaken}
use protocol_monorepo.Db.DraftRows.{
  draft, AgentDraftRow, UpdateAgentDraftInput, is_status_draft, commit_drafts, find_draft,
  change_draft, draft_not_found, update_draft_row, update_found, patch_draft, insert_draft,
  no_value, abandon_draft_row, abandon_found, abandoned_row,
}
use protocol_monorepo.Db.Database.{Database, stored_drafts, on_drafts}
use protocol_monorepo.Drafts.Service.{require_owned_draft, require_editable_draft}
use protocol_monorepo.Drafts.Lifecycle.{
  Only, Follows, Evolves, onward, here, give_up, change-Evolves, change-Only, Evolves-refl,
  Evolves-trans, Evolves-append, IsSound,
}
use protocol_monorepo.Drafts.Tables.{
  IsTable, commit_drafts-IsTable, find_draft-Only, change_draft-IsTable,
}

-- The row that a request works on.
abbrev pub Found : String → Text → Database → AgentDraftRow → Database → Type 0
Found id owner db row s =
    (s ≡ db)
    × (find_draft id db.drafts ≡ some row)
    × (text_eq (map to_lower row.owner_address) (map to_lower owner) ≡ true)

abbrev pub Editable : String → Text → Database → AgentDraftRow → Database → Type 0
Editable id owner db row s = Found id owner db row s × (is_status_draft row.status ≡ true)

-- `Q` is what a request that throws leaves true.
module _ (id : String) (owner : Text) (db : Database) (Q : Database → Type 0) (q : Q db) where
  abbrev Read : AgentDraftRow → Database → Type 0
  Read row s = (s ≡ db) × (find_draft id db.drafts ≡ some row)

  abbrev owned_or_fail : AgentDraftRow → Action Database AgentDraftRow
  owned_or_fail row =
      throw_if (not (text_eq (map to_lower row.owner_address) (map to_lower owner))) draft_not_found
      >> pure row

  pub require_owned_draft-Ends : Ends Q (Found id owner db) (require_owned_draft id owner db)
  unfolding require_owned_draft
  require_owned_draft-Ends =
      >>=-Ends Q Read (Found id owner db) (require (find_draft id db.drafts) draft_not_found db)
        owned_or_fail
        (require-Ends Q Read (find_draft id db.drafts) draft_not_found db q (λ row f. (refl, f)))
        (λ row s h.
          throw_if-Ends Q (Found id owner db)
            (not (text_eq (map to_lower row.owner_address) (map to_lower owner))) draft_not_found
            (pure row) s (rw h.0 q) (λ same. (h.0, h.1, ground (arith, same))))

  abbrev not_editable : Failure
  not_editable = app_error "Agent draft is not editable" 400

  abbrev editable_or_fail : AgentDraftRow → Action Database AgentDraftRow
  editable_or_fail row = throw_if (not (is_status_draft row.status)) not_editable >> pure row

  pub require_editable_draft-Ends :
      Ends Q (Editable id owner db) (require_editable_draft id owner db)
  unfolding require_editable_draft
  require_editable_draft-Ends =
      >>=-Ends Q (Found id owner db) (Editable id owner db) (require_owned_draft id owner db)
        editable_or_fail require_owned_draft-Ends
        (λ row s h.
          throw_if-Ends Q (Editable id owner db) (not (is_status_draft row.status)) not_editable
            (pure row) s (rw h.0 q) (λ e. (h, ground (arith, e))))

-- The table of a state is later than these rows, and its indexes hold.
abbrev pub Later : List AgentDraftRow → Database → Type 0
Later rows s = Evolves rows s.drafts × IsTable s.drafts

module _ (rows : List AgentDraftRow) (id : String) (row : AgentDraftRow) where
  -- The same, with one row that has this id.
  abbrev pub Holds : Database → Type 0
  Holds s = Later rows s × Only id row s.drafts

module _ (rows : List AgentDraftRow) (id : String) (row : AgentDraftRow)
    (input : UpdateAgentDraftInput) (s : Database) where
  update_found-Ends :
      (o : Option AgentDraftRow)
      → Holds rows id row s
      → Follows row (patch_draft input row)
      → Ends
          (Holds rows id row)
          (λ (_ : AgentDraftRow). Holds rows id (patch_draft input row))
          (stored_drafts s (update_found o id input s.drafts))
  update_found-Ends none h step = h
  update_found-Ends (some r) ((later, table), only) step =
      elim (Result-cases (commit_drafts (change_draft id (patch_draft input) s.drafts))) [
        | inr (f, e) ↦ rw e ((later, table), only)
        | inl (after, e) ↦
            let (same, indexed) =
              commit_drafts-IsTable (change_draft id (patch_draft input) s.drafts) after e in
            rw (e, same)
              (
                (
                  Evolves-trans rows s.drafts (change_draft id (patch_draft input) s.drafts) later
                      (change-Evolves id (patch_draft input) row s.drafts only step),
                  rw (sym same) indexed,
                ),
                change-Only id (patch_draft input) row s.drafts only,
              )
      ]

  pub update_draft_row-Ends :
      Holds rows id row s
      → Follows row (patch_draft input row)
      → Ends
          (Holds rows id row)
          (λ (_ : AgentDraftRow). Holds rows id (patch_draft input row))
          (on_drafts (update_draft_row id input) s)
  unfolding update_draft_row
  update_draft_row-Ends = update_found-Ends (find_draft id s.drafts)

module _ {A : Type 0} (rows : List AgentDraftRow) (id : String) (row : AgentDraftRow)
    (input : UpdateAgentDraftInput) (s : Database) (After : A → Database → Type 0) where
  -- An update, and what follows it.
  pub update_then-Ends :
      (next : AgentDraftRow → Action Database A)
      → Holds rows id row s
      → Follows row (patch_draft input row)
      → ((r : AgentDraftRow) (t : Database)
          → Holds rows id (patch_draft input row) t
          → Ends (Later rows) After (next r t))
      → Ends (Later rows) After (continue_with next (on_drafts (update_draft_row id input) s))
  update_then-Ends next holds step k =
      >>=-Ends (Later rows) (λ _. Holds rows id (patch_draft input row)) After
        (on_drafts (update_draft_row id input) s) next
        (Ends-weaken (Holds rows id row) (Later rows) (λ _. Holds rows id (patch_draft input row))
          (λ _. Holds rows id (patch_draft input row)) (λ t h. h.0) (λ r t h. h)
          (on_drafts (update_draft_row id input) s)
          (update_draft_row-Ends rows id row input s holds step))
        k

module _ (rows : List AgentDraftRow) (s : Database) where
  inserted-Ends :
      (row : AgentDraftRow) (r : Result Failure (List AgentDraftRow))
      → commit_drafts (s.drafts ++ row ∷ []) ≡ r
      → Later rows s
      → row.status ≡ draft
      → IsSound row
      → Ends (Later rows) (λ _. Later rows) (stored_drafts s (no_value r))
  inserted-Ends row (err e) c h new sound = h
  inserted-Ends row (ok after) c (later, table) new sound =
      let (same, indexed) = commit_drafts-IsTable (s.drafts ++ row ∷ []) after c in
      (
        rw same (
            Evolves-trans rows s.drafts (s.drafts ++ row ∷ []) later
              (Evolves-append s.drafts row new sound)),
        indexed,
      )

  pub insert_draft-Ends :
      (row : AgentDraftRow)
      → Later rows s
      → row.status ≡ draft
      → IsSound row
      → Ends (Later rows) (λ _. Later rows) (on_drafts (insert_draft row) s)
  unfolding insert_draft
  insert_draft-Ends row = inserted-Ends row (commit_drafts (s.drafts ++ row ∷ [])) refl

  abandon_found-Ends :
      (id : String) (updated_at : Text) (row : AgentDraftRow) (o : Option AgentDraftRow)
      → Holds rows id row s
      → Ends
          (Later rows)
          (λ _. Later rows)
          (stored_drafts s (abandon_found o id updated_at s.drafts))
  unfolding abandoned_row
  abandon_found-Ends id updated_at row none h = h.0
  abandon_found-Ends id updated_at row (some r) ((later, table), only) = (
    Evolves-trans rows s.drafts (change_draft id (abandoned_row updated_at) s.drafts) later (
        change-Evolves id (abandoned_row updated_at) row s.drafts only
          (refl, onward give_up here, λ h. (refl, refl))),
    change_draft-IsTable id (abandoned_row updated_at) s.drafts (λ r. refl) (λ r. refl) table,
  )

  pub abandon_draft_row-Ends :
      (id : String) (updated_at : Text) (row : AgentDraftRow)
      → Holds rows id row s
      → Ends (Later rows) (λ _. Later rows) (on_drafts (abandon_draft_row id updated_at) s)
  unfolding abandon_draft_row
  abandon_draft_row-Ends id updated_at row =
      abandon_found-Ends id updated_at row (find_draft id s.drafts)

-- A table is later than itself, and its row that is found is the only one with its id.
pub Found-Holds :
    (db s : Database) (id : String) (owner : Text) (row : AgentDraftRow)
    → IsTable db.drafts
    → Found id owner db row s
    → Holds db.drafts id row s
Found-Holds db s id owner row table (same, found, _) =
    rw same ((Evolves-refl db.drafts, table), find_draft-Only id row db.drafts table.0 found)
