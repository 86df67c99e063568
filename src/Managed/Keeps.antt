-- ===== src/Managed/Keeps.antt =====
-- What the requests on managed agents do not write: the table of drafts.
use protocol_monorepo.Common.{
  String, List, [], ◌∷◌, map, Option, none, some, inl, inr, Bool-cases, Result-cases,
}
use protocol_monorepo.Common.Text.{Text, text_eq, to_lower}
use protocol_monorepo.Db.Actions.{Action, pure, gets, ◌>>=◌}
use protocol_monorepo.Db.Outcomes.{Ends, >>=-Ends, lift_then-Ends}
use protocol_monorepo.Db.Profiles.{AgentProfileRow, find_profile}
use protocol_monorepo.Db.DraftRows.{AgentDraftRow}
use protocol_monorepo.Db.Database.{Database}
use protocol_monorepo.Managed.{
  ManagedAgentProfile, sync_signer, sync_profile, reconcile_owner_if_needed, to_managed_profile,
  with_profile, managed_of, list_of, Registration, list_managed_for_owner,
  count_active_managed_for_owner,
}

module _ (Q : List AgentDraftRow → Type 0) where
  abbrev pub Keeps : Database → Type 0
  Keeps s = Q s.drafts

  module _ {A : Type 0} where
    abbrev pub AllKeep : Action Database A → Type 0
    AllKeep step = (s : Database) → Q s.drafts → Ends Keeps (λ _. Keeps) (step s)

  synced-AllKeep :
      (agent_id : String) (owner : Text) (o : Option AgentProfileRow)
      → AllKeep (sync_signer agent_id owner o)
  synced-AllKeep agent_id owner none s h = h
  synced-AllKeep agent_id owner (some row) s h = h

  reconcile_owner_if_needed-AllKeep :
      (agent_id : String) (owner : Text) (o : Option AgentProfileRow)
      → AllKeep (reconcile_owner_if_needed agent_id owner o)
  unfolding reconcile_owner_if_needed
  reconcile_owner_if_needed-AllKeep agent_id owner none s h = h
  reconcile_owner_if_needed-AllKeep agent_id owner (some row) s h =
      elim (Bool-cases (text_eq (map to_lower row.owner_address) (map to_lower owner))) [
        | inl e ↦ rw e h
        | inr e ↦ rw e (
            synced-AllKeep agent_id (map to_lower owner)
              (sync_profile agent_id (map to_lower owner) s.profiles).0 _ h)
      ]

  with_profile-AllKeep :
      (o : Option AgentProfileRow) (rest : Action Database (List ManagedAgentProfile))
      → AllKeep rest
      → AllKeep (with_profile o rest)
  with_profile-AllKeep none rest k s h = k s h
  with_profile-AllKeep (some row) rest k s h = elim (Result-cases (to_managed_profile row)) [
    | inr (e, failed) ↦ rw failed h
    | inl (profile, e) ↦ rw e (
        >>=-Ends Keeps (λ _. Keeps) (λ _. Keeps) (rest s) (λ profiles. pure (profile ∷ profiles))
          (k s h) (λ profiles t q. q))
  ]

  managed_of-AllKeep :
      (rows : List AgentProfileRow) (agents : List (String × Text))
      → AllKeep (managed_of rows agents)
  unfolding managed_of
  managed_of-AllKeep rows [] s h = h
  managed_of-AllKeep rows ((agent_id, owner) ∷ more) s h =
      >>=-Ends Keeps (λ _. Keeps) (λ _. Keeps)
        (reconcile_owner_if_needed agent_id owner (find_profile agent_id rows) s)
        (λ o. with_profile o (managed_of rows more))
        (reconcile_owner_if_needed-AllKeep agent_id owner (find_profile agent_id rows) s h)
        (λ o t k. with_profile-AllKeep o (managed_of rows more) (managed_of-AllKeep rows more) t k)

  module _ (registration : Registration) (owner : Text) where
    list_managed_for_owner-AllKeep : AllKeep (list_managed_for_owner registration owner)
    unfolding list_managed_for_owner
    list_managed_for_owner-AllKeep s h =
        lift_then-Ends Keeps (λ _. Keeps) (registration.list_agents_by_owner owner)
          (λ on_chain. gets (λ db. db.profiles) >>= λ rows.
            managed_of rows on_chain >>= λ agents. pure (list_of agents))
          s h
          (λ on_chain _.
            >>=-Ends Keeps (λ _. Keeps) (λ _. Keeps) (managed_of s.profiles on_chain s)
              (λ agents. pure (list_of agents)) (managed_of-AllKeep s.profiles on_chain s h)
              (λ agents t k. k))

    pub count_active_managed_for_owner-AllKeep :
        AllKeep (count_active_managed_for_owner registration owner)
    unfolding count_active_managed_for_owner
    count_active_managed_for_owner-AllKeep s h =
        >>=-Ends Keeps (λ _. Keeps) (λ _. Keeps) (list_managed_for_owner registration owner s)
          (λ listed. pure listed.active_count) (list_managed_for_owner-AllKeep s h) (λ l t k. k)
