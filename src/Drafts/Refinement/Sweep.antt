-- ===== src/Drafts/Refinement/Sweep.antt =====
-- The job that abandons stale drafts, and the life cycle of a draft.
use protocol_monorepo.Common.{
  ℕ, Bool, true, false, List, [], ◌∷◌, map, String, Option, ◌≡◌, inl, inr, refl,
}
use protocol_monorepo.Common.Text.{Text}
use protocol_monorepo.Db.DraftRows.{
  AgentDraftRow, draft_id, active_handle, is_stale, sweep_row, abandoned_row, abandon_stale,
}
use protocol_monorepo.Db.Database.{Database}
use protocol_monorepo.Drafts.Lifecycle.{Evolves, here, onward, give_up}
use protocol_monorepo.Drafts.Tables.{IsTable, Thins, Thins-distinct_keys}
use protocol_monorepo.Drafts.Rules.{Later}
use protocol_monorepo.Drafts.Requests.{abandon_stale_agent_drafts}

module _ (updated_at : Text) (row : AgentDraftRow) where
  sweep_row-Evolves :
      (b : Bool) (p : ℕ × List AgentDraftRow) (rows : List AgentDraftRow)
      → Evolves rows p.1
      → Evolves (row ∷ rows) (sweep_row b updated_at row p).1
  unfolding abandoned_row
  sweep_row-Evolves true (n, rest) rows h = ((refl, onward give_up here, λ s. (refl, refl)), h)
  sweep_row-Evolves false (n, rest) rows h = ((refl, here, λ s. s), h)

  sweep_row-ids :
      (b : Bool) (p : ℕ × List AgentDraftRow) (ids : List (Option String))
      → map draft_id p.1 ≡ ids
      → map draft_id (sweep_row b updated_at row p).1 ≡ draft_id row ∷ ids
  unfolding abandoned_row
  sweep_row-ids true (n, rest) ids h = rw h refl
  sweep_row-ids false (n, rest) ids h = rw h refl

  sweep_row-Thins :
      (b : Bool) (p : ℕ × List AgentDraftRow) (handles : List (Option String))
      → Thins handles (map active_handle p.1)
      → Thins (active_handle row ∷ handles) (map active_handle (sweep_row b updated_at row p).1)
  unfolding abandoned_row
  sweep_row-Thins true (n, rest) handles h = (inr refl, h)
  sweep_row-Thins false (n, rest) handles h = (inl refl, h)

module _ (cutoff updated_at : Text) where
  abbrev swept : List AgentDraftRow → List AgentDraftRow
  swept rows = (abandon_stale cutoff updated_at rows).1

  swept-Evolves : (rows : List AgentDraftRow) → Evolves rows (swept rows)
  unfolding abandon_stale
  swept-Evolves [] = tt
  swept-Evolves (row ∷ rows) =
      sweep_row-Evolves updated_at row (is_stale cutoff row) (abandon_stale cutoff updated_at rows)
        rows (swept-Evolves rows)

  swept-ids : (rows : List AgentDraftRow) → map draft_id (swept rows) ≡ map draft_id rows
  unfolding abandon_stale
  swept-ids [] = refl
  swept-ids (row ∷ rows) =
      sweep_row-ids updated_at row (is_stale cutoff row) (abandon_stale cutoff updated_at rows)
        (map draft_id rows) (swept-ids rows)

  swept-Thins :
      (rows : List AgentDraftRow) → Thins (map active_handle rows) (map active_handle (swept rows))
  unfolding abandon_stale
  swept-Thins [] = tt
  swept-Thins (row ∷ rows) =
      sweep_row-Thins updated_at row (is_stale cutoff row) (abandon_stale cutoff updated_at rows)
        (map active_handle rows) (swept-Thins rows)

  pub sweep-Later :
      (db : Database)
      → IsTable db.drafts
      → Later db.drafts (abandon_stale_agent_drafts cutoff updated_at db)
  sweep-Later db (ids, handles) = (
    swept-Evolves db.drafts,
    (
      rw (swept-ids db.drafts) ids,
      Thins-distinct_keys (map active_handle db.drafts) (map active_handle (swept db.drafts))
          (swept-Thins db.drafts) handles,
    ),
  )
