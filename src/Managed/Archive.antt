-- ===== src/Managed/Archive.antt =====
-- Who may act on a managed agent, and what archiving leaves.
use protocol_monorepo.Common.{
  String, str_eq, true, false, List, [], ◌∷◌, map, is_some, Option, ok, err, ◌≡◌, ◌≢◌, ◌⊎◌, inl,
  inr, refl, All, eq_iff, arith, Bool-cases,
}
use protocol_monorepo.Common.Int.{ℤ}
use protocol_monorepo.Common.Text.{Text, text_eq, to_lower}
use protocol_monorepo.Strategy.Cooldown.{BotFrequency}
use protocol_monorepo.Db.Actions.{Failure, app_error, Action, lift, ◌>>=◌, ◌>>◌, throw_if, require}
use protocol_monorepo.Db.Outcomes.{
  Ends, Always, any-Ends, Ends-ok, lift-Ends, >>=-Ends, throw_if-Ends, require_then-Ends,
}
use protocol_monorepo.Db.Profiles.{AgentProfileRow, archive_profile}
use protocol_monorepo.Db.Signers.{AgentSignerRow, wipe_signer_key}
use protocol_monorepo.Db.Database.{Database, on_profiles, map_signers}
use protocol_monorepo.Managed.{
  ManagedAgentProfile, Registration, forbidden, require_managed_owner, to_managed_profile,
  get_managed_profile, update_managed_profile, archive_managed_agent,
}

module _ (registration : Registration) (agent_id : String) (caller : Text) (db : Database) where
  module _ (owner : Text) where
    denied :
        registration.get_agent_owner agent_id ≡ ok owner
        → text_eq (map to_lower owner) (map to_lower caller) ≡ false
        → require_managed_owner registration agent_id caller db ≡ (db, err forbidden)
    unfolding require_managed_owner
    denied e other = rw (e, other) refl

    -- A caller who is not the owner of the agent on chain is answered 403 by each request on the
    -- managed agent, and the database stays as it was.
    pub managed_requests_denied :
        (to_iso : ℤ → Text) (now_ms : ℤ) (strategy : Option Text)
        (bot_frequency : Option BotFrequency) (archived_at : Text)
        → registration.get_agent_owner agent_id ≡ ok owner
        → text_eq (map to_lower owner) (map to_lower caller) ≡ false
        → (get_managed_profile registration agent_id caller db ≡ (db, err forbidden))
          × (update_managed_profile registration to_iso now_ms agent_id caller strategy
                bot_frequency db
              ≡ (db, err forbidden))
          × (archive_managed_agent registration archived_at agent_id caller db
              ≡ (db, err forbidden))
    unfolding get_managed_profile update_managed_profile archive_managed_agent
    managed_requests_denied to_iso now_ms strategy bot_frequency archived_at e other =
        (rw (denied e other) refl, rw (denied e other) refl, rw (denied e other) refl)

-- No live profile of the agent, and no key.
abbrev pub IsRetired : String → Database → Type 0
IsRetired agent_id s =
    All (λ row. (row.agent_id ≢ agent_id) ⊎ (is_some row.archived_at ≡ true)) s.profiles
    × All (λ r. (r.agent_id ≢ agent_id) ⊎ (r.encrypted_signer_key ≡ [])) s.signers

archived_rows :
    (agent_id : String) (archived_at : Text) (rows : List AgentProfileRow)
    → All
        (λ row. (row.agent_id ≢ agent_id) ⊎ (is_some row.archived_at ≡ true))
        (archive_profile agent_id archived_at rows).1
unfolding archive_profile
archived_rows agent_id archived_at [] = tt
archived_rows agent_id archived_at (row ∷ rows) = (
  elim (Bool-cases (str_eq row.agent_id agent_id)) [
    | inr e ↦ rw e (inl (ground (arith, eq_iff row.agent_id agent_id, e)))
    | inl e ↦ elim (Bool-cases (is_some row.archived_at)) [
      | inl a ↦ rw (e, a) (inr a)
      | inr a ↦ rw (e, a) (inr refl)
    ]
  ],
  archived_rows agent_id archived_at rows,
)

wiped_rows :
    (agent_id : String) (rows : List AgentSignerRow)
    → All
        (λ r. (r.agent_id ≢ agent_id) ⊎ (r.encrypted_signer_key ≡ []))
        (map (wipe_signer_key agent_id) rows)
unfolding wipe_signer_key
wiped_rows agent_id [] = tt
wiped_rows agent_id (r ∷ rows) = (
  elim (Bool-cases (str_eq r.agent_id agent_id)) [
    | inr e ↦ rw e (inl (ground (arith, eq_iff r.agent_id agent_id, e)))
    | inl e ↦ rw e (inr refl)
  ],
  wiped_rows agent_id rows,
)

module _ (registration : Registration) (archived_at : Text) (agent_id : String) (caller : Text)
    (db : Database) where
  abbrev Retired : ManagedAgentProfile → Database → Type 0
  Retired _ = IsRetired agent_id

  abbrev not_archived : Failure
  not_archived = app_error "Failed to archive agent" 503

  abbrev wipe : AgentProfileRow → Action Database ManagedAgentProfile
  wipe row = map_signers (map (wipe_signer_key agent_id)) >> lift (to_managed_profile row)

  abbrev archive : AgentProfileRow → Action Database ManagedAgentProfile
  archive profile =
      throw_if (is_some profile.archived_at) (app_error "Agent is already archived" 400)
      >> (on_profiles (archive_profile agent_id archived_at) >>= λ archived.
          require archived not_archived >>= wipe)

  archive-Retired :
      (profile : AgentProfileRow) (s : Database) → Ends Always Retired (archive profile s)
  archive-Retired profile s =
      throw_if-Ends Always Retired (is_some profile.archived_at)
        (app_error "Agent is already archived" 400)
        (on_profiles (archive_profile agent_id archived_at) >>= λ archived.
          require archived not_archived >>= wipe)
        s tt
        (λ _.
          require_then-Ends Always Retired (archive_profile agent_id archived_at s.profiles).0
            not_archived wipe
            (record s { profiles = (archive_profile agent_id archived_at s.profiles).1 }) tt
            (λ row _.
              lift-Ends Always Retired (to_managed_profile row)
                (record s {
                  profiles = (archive_profile agent_id archived_at s.profiles).1;
                  signers = map (wipe_signer_key agent_id) s.signers;
                })
                tt
                (λ _ _.
                  (archived_rows agent_id archived_at s.profiles, wiped_rows agent_id s.signers))))

  -- When an agent's archiving returns, every profile of the agent is archived and no signer of it
  -- has a key.
  pub archive_managed_agent-IsRetired :
      (profile : ManagedAgentProfile) (after : Database)
      → archive_managed_agent registration archived_at agent_id caller db ≡ (after, ok profile)
      → IsRetired agent_id after
  unfolding archive_managed_agent
  archive_managed_agent-IsRetired profile after e =
      Ends-ok Always Retired (archive_managed_agent registration archived_at agent_id caller db)
        after profile e
        (>>=-Ends Always (λ _. Always) Retired
          (require_managed_owner registration agent_id caller db) archive
          (any-Ends (require_managed_owner registration agent_id caller db))
          (λ profile s _. archive-Retired profile s))
