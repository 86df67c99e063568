-- ===== src/Drafts/Origin.antt =====
-- A launch that returns an agent: the draft that it began with.
use protocol_monorepo.Common.{
  ℕ, String, true, leb, [], ◌∷◌, map, Option, none, some, ok, ◌≡◌, refl, arith,
}
use protocol_monorepo.Common.Text.{Text, to_lower}
use protocol_monorepo.Strategy.Cooldown.{BotFrequency}
use protocol_monorepo.Db.Actions.{Action, pure, ◌>>=◌, lift}
use protocol_monorepo.Db.Outcomes.{
  Ends, Always, any-Ends, Ends-ok, Ends-weaken, >>=-Ends, lift_then-Ends, throw_if-Ends,
}
use protocol_monorepo.Db.DraftRows.{
  AgentIdentity, AgentDraftRow, launching, find_draft, update_draft_row, is_status_draft,
}
use protocol_monorepo.Db.Database.{Database, on_drafts}
use protocol_monorepo.Drafts.Service.{frequency_of, require_editable_draft}
use protocol_monorepo.Drafts.Signing.{
  LaunchServices, LaunchTimes, LaunchAgentResult, ReadyDraft, Signed, sign_launch, ready_with,
  ready_columns, assert_launch_ready,
}
use protocol_monorepo.Drafts.Launch.{
  Prepared, status_patch, prepared, mark_launching, prepare_active, prepare_row, prepare_launch,
  finish_launch, launch_draft, too_many_agents,
}
use protocol_monorepo.Drafts.Rules.{Editable, require_editable_draft-Ends}
use protocol_monorepo.Drafts.Handover.{HandedOver, after_register-HandedOver}
use protocol_monorepo.Managed.{max_agents_per_user, count_active_managed_for_owner}

-- The columns that a check passed on.
abbrev Read : Option AgentIdentity → Option Text → ReadyDraft → Type 0
Read identity key ready = (key ≡ some ready.encrypted_key) × (identity ≡ some ready.identity)

ready_with-Read :
    (identity : AgentIdentity) (vault key strategy text : Text) (o : Option BotFrequency)
    (ready : ReadyDraft)
    → ready_with identity vault key strategy text o ≡ ok ready
    → Read (some identity) (some key) ready
ready_with-Read identity vault key strategy text none ready e = absurd (ground (arith, e))
ready_with-Read identity vault key strategy text (some f) ready e = ground (arith, e)

ready_columns-Read :
    (identity : Option AgentIdentity) (vault key strategy frequency : Option Text)
    (ready : ReadyDraft)
    → ready_columns identity vault key strategy frequency ≡ ok ready
    → Read identity key ready
ready_columns-Read (some i) (some (v ∷ vs)) (some (k ∷ ks)) (some (s ∷ ss)) (some (f ∷ fs)) ready
      e =
    ready_with-Read i (v ∷ vs) (k ∷ ks) (s ∷ ss) (f ∷ fs) (frequency_of (f ∷ fs)) ready e
ready_columns-Read none v k s f ready e = absurd (ground (arith, e))
ready_columns-Read (some i) none k s f ready e = absurd (ground (arith, e))
ready_columns-Read (some i) (some []) k s f ready e = absurd (ground (arith, e))
ready_columns-Read (some i) (some (v ∷ vs)) none s f ready e = absurd (ground (arith, e))
ready_columns-Read (some i) (some (v ∷ vs)) (some []) s f ready e = absurd (ground (arith, e))
ready_columns-Read (some i) (some (v ∷ vs)) (some (k ∷ ks)) none f ready e =
    absurd (ground (arith, e))
ready_columns-Read (some i) (some (v ∷ vs)) (some (k ∷ ks)) (some []) f ready e =
    absurd (ground (arith, e))
ready_columns-Read (some i) (some (v ∷ vs)) (some (k ∷ ks)) (some (s ∷ ss)) none ready e =
    absurd (ground (arith, e))
ready_columns-Read (some i) (some (v ∷ vs)) (some (k ∷ ks)) (some (s ∷ ss)) (some []) ready e =
    absurd (ground (arith, e))

-- The draft that a launch was prepared from: the caller's, with the identity and the key that the
-- launch holds.
abbrev pub PreparedFrom : String → Text → Database → Prepared → Database → Type 0
PreparedFrom id owner db p _ =
    (p.draft_id ≡ id)
    × (p.owner ≡ map to_lower owner)
    × ((row : AgentDraftRow) × (find_draft id db.drafts ≡ some row)
        × (is_status_draft row.status ≡ true)
        × (row.encrypted_signer_key ≡ some p.ready.encrypted_key)
        × (row.identity ≡ some p.ready.identity))

module _ (services : LaunchServices) (times : LaunchTimes) (id : String) (owner : Text)
    (db : Database) where
  abbrev From : Prepared → Database → Type 0
  From = PreparedFrom id owner db

  active-From :
      (row : AgentDraftRow) (ready : ReadyDraft) (active : ℕ) (s : Database)
      → find_draft id db.drafts ≡ some row
      → is_status_draft row.status ≡ true
      → Read row.identity row.encrypted_signer_key ready
      → Ends Always From (prepare_active services times id (map to_lower owner) row ready active s)
  active-From row ready active s found status (key, identity) =
      throw_if-Ends Always From (leb max_agents_per_user active) too_many_agents
        (lift (sign_launch services times.now_seconds row ready) >>= mark) s tt
        (λ _.
          lift_then-Ends Always From (sign_launch services times.now_seconds row ready) mark s tt
            (λ signed _.
              >>=-Ends Always (λ _. Always) From
                (on_drafts (update_draft_row id (status_patch launching times.launched_at)) s)
                (λ _. pure (prepared services times id (map to_lower owner) row ready signed))
                (any-Ends
                  (on_drafts (update_draft_row id (status_patch launching times.launched_at)) s))
                (λ _ t _. (refl, refl, (row, found, status, key, identity)))))
    where
      mark : Signed → Action Database Prepared
      mark signed =
          mark_launching services times
            (prepared services times id (map to_lower owner) row ready signed)

  prepare_launch-From : Ends Always From (prepare_launch services times id owner db)
  unfolding prepare_launch assert_launch_ready
  prepare_launch-From =
      >>=-Ends Always (Editable id owner db) From (require_editable_draft id owner db)
        (prepare_row services times id owner) (require_editable_draft-Ends id owner db Always tt)
        (λ row s ((_, found, _), status).
          lift_then-Ends Always From (assert_launch_ready row)
            (λ ready. count >>= prepare_active services times id (map to_lower owner) row ready) s
            tt
            (λ ready e.
              >>=-Ends Always (λ _. Always) From (count s)
                (prepare_active services times id (map to_lower owner) row ready)
                (any-Ends (count s))
                (λ active t _. active-From row ready active t found status (
                  ready_columns-Read row.identity row.vault_address row.encrypted_signer_key
                    row.strategy row.bot_frequency ready e))))
    where
      count : Action Database ℕ
      count = count_active_managed_for_owner services.registration (map to_lower owner)

  -- A launch that returns an agent began with a draft of that id, which was a draft with a key and
  -- an identity; afterwards this draft is launched as the agent and without its key, and the agent
  -- has a signer with the draft's key and a profile under the draft's handle that is not archived,
  -- both of the caller.
  pub launch_draft-HandedOver :
      (result : LaunchAgentResult) (after : Database)
      → launch_draft services times id owner db ≡ (after, ok result)
      → (p : Prepared) × PreparedFrom id owner db p after × HandedOver p result after
  unfolding launch_draft finish_launch
  launch_draft-HandedOver result after e =
      Ends-ok Always (λ r s. (p : Prepared) × PreparedFrom id owner db p s × HandedOver p r s)
        (launch_draft services times id owner db) after result e
        (>>=-Ends Always From
          (λ r s. (p : Prepared) × PreparedFrom id owner db p s × HandedOver p r s)
          (prepare_launch services times id owner db) (finish_launch services times)
          prepare_launch-From
          (λ p s from.
            Ends-weaken Always Always (HandedOver p)
              (λ r t. (p : Prepared) × PreparedFrom id owner db p t × HandedOver p r t) (λ _ h. h)
              (λ r t h. (p, from, h)) (finish_launch services times p s)
              (after_register-HandedOver services times p
                (services.register p.relayer_key p.owner p.message p.signature) s)))
