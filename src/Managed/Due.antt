-- ===== src/Managed/Due.antt =====
-- The agents that the tick reads as due, after one has been archived.
use protocol_monorepo.Common.{
  ℕ, String, true, not, ◌&&◌, List, [], ◌∷◌, filter_by, is_some, ok, ◌≡◌, ◌≢◌, ◌⊎◌, inl, inr, All,
  All-take, Bool-cases,
}
use protocol_monorepo.Common.Text.{Text}
use protocol_monorepo.Db.Keys.{text_leb, order_ascending, insert_ascending}
use protocol_monorepo.Db.Profiles.{AgentProfileRow, list_due}
use protocol_monorepo.Db.Database.{Database}
use protocol_monorepo.Managed.{ManagedAgentProfile, Registration, archive_managed_agent}
use protocol_monorepo.Managed.Archive.{archive_managed_agent-IsRetired}

module _ (P : AgentProfileRow → Type 0) (key : AgentProfileRow → Text) where
  insert_ascending-All :
      (row : AgentProfileRow) (rows : List AgentProfileRow)
      → P row
      → All P rows
      → All P (insert_ascending key row rows)
  unfolding insert_ascending
  insert_ascending-All row [] h hs = (h, tt)
  insert_ascending-All row (r ∷ rows) h (k, hs) = elim (Bool-cases (text_leb (key row) (key r))) [
    | inl e ↦ rw e (h, (k, hs))
    | inr e ↦ rw e (k, insert_ascending-All row rows h hs)
  ]

  order_ascending-All :
      (rows : List AgentProfileRow) → All P rows → All P (order_ascending key rows)
  unfolding order_ascending
  order_ascending-All [] h = tt
  order_ascending-All (r ∷ rows) (h, hs) =
      insert_ascending-All r (order_ascending key rows) h (order_ascending-All rows hs)

-- A row that is live is not the retired agent's.
live_rows :
    (agent_id : String) (now : Text) (rows : List AgentProfileRow)
    → All (λ row. (row.agent_id ≢ agent_id) ⊎ (is_some row.archived_at ≡ true)) rows
    → All
        (λ row. row.agent_id ≢ agent_id)
        (filter_by (λ row. not (is_some row.archived_at) && text_leb row.next_run_at now) rows)
live_rows agent_id now [] h = tt
live_rows agent_id now (row ∷ rows) (inl other, hs) =
    elim (Bool-cases (not (is_some row.archived_at) && text_leb row.next_run_at now)) [
      | inl e ↦ rw e (other, live_rows agent_id now rows hs)
      | inr e ↦ rw e (live_rows agent_id now rows hs)
    ]
live_rows agent_id now (row ∷ rows) (inr gone, hs) = rw gone (live_rows agent_id now rows hs)

-- Once an agent's archiving has returned, the tick reads no profile of the agent as due, at any time
-- and with any limit, and no signer of the agent has a key.
pub archived_agent_not_due :
    (registration : Registration) (archived_at : Text) (agent_id : String) (caller : Text)
    (db after : Database) (profile : ManagedAgentProfile) (now : Text) (limit : ℕ)
    → archive_managed_agent registration archived_at agent_id caller db ≡ (after, ok profile)
    → All (λ row. row.agent_id ≢ agent_id) (list_due now limit after.profiles)
      × All (λ r. (r.agent_id ≢ agent_id) ⊎ (r.encrypted_signer_key ≡ [])) after.signers
unfolding list_due
archived_agent_not_due registration archived_at agent_id caller db after profile now limit e =
    let (profiles, signers) =
      archive_managed_agent-IsRetired registration archived_at agent_id caller db profile after e in
    (
      All-take (λ row. row.agent_id ≢ agent_id) limit
          (order_ascending (λ row. row.next_run_at)
            (filter_by (λ row. not (is_some row.archived_at) && text_leb row.next_run_at now)
              after.profiles))
          (order_ascending-All (λ row. row.agent_id ≢ agent_id) (λ row. row.next_run_at)
            (filter_by (λ row. not (is_some row.archived_at) && text_leb row.next_run_at now)
              after.profiles)
            (live_rows agent_id now after.profiles profiles)),
      signers,
    )
