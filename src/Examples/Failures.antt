-- ===== src/Examples/Failures.antt =====
-- Requests on drafts and managed agents that are refused, and launches that fail, at concrete inputs.
use protocol_monorepo.Common.{
  String, str_eq, true, eq_iff, ◌≡◌, ◌≢◌, ◌⊎◌, inl, inr, refl, [], ◌∷◌, none, some, ok, err, All,
}
use protocol_monorepo.Common.Int.{pos}
use protocol_monorepo.Common.Text.{Text, codes, to_lower}
use protocol_monorepo.Strategy.Cooldown.{hourly}
use protocol_monorepo.Db.Actions.{other_error, unique_violation}
use protocol_monorepo.Db.Profiles.{AgentProfileRow, archive_profile, list_due}
use protocol_monorepo.Db.Signers.{AgentSignerRow, create_signer, wipe_signer_key}
use protocol_monorepo.Db.DraftRows.{
  AgentDraftRow, draft, launched, abandoned, abandoned_row, abandon_draft_row, draft_not_found,
  commit_drafts, change_draft, find_draft, patch_draft,
}
use protocol_monorepo.Db.Database.{Database}
use protocol_monorepo.Managed.{
  ManagedAgentProfile, to_managed_profile, reconcile_owner_if_needed, require_managed_owner,
  get_managed_profile, update_managed_profile, archive_managed_agent, forbidden,
}
use protocol_monorepo.Managed.Archive.{managed_requests_denied}
use protocol_monorepo.Managed.Due.{archived_agent_not_due}
use protocol_monorepo.Drafts.Service.{
  UpdateAgentDraftBody, frequency_of, require_owned_draft, get_draft, update_draft, abandon_draft,
}
use protocol_monorepo.Drafts.Wallet.{KeyPair, provision_wallet, decrypt_draft_signer_key}
use protocol_monorepo.Drafts.Launch.{
  Prepared, status_patch, launched_patch, launch_failure, signer_row, not_persisted, finish_launch,
  launch_draft,
}
use protocol_monorepo.Drafts.Access.{draft_requests_denied, not_editable}
use protocol_monorepo.Drafts.Stuck.{finish_launch_stuck}
use protocol_monorepo.Drafts.Gaps.{finish_launch_restores, finish_launch_insert_refused}
use protocol_monorepo.Examples.Launches.{
  identity, owner, ready_draft, sent_draft, rival, database, registration, services, failing, times,
  deployment,
}

abbrev stranger : Text
stranger = codes "0xee"

abbrev pair : KeyPair
pair = record { address = codes "0xb2"; encrypted = ok (codes "sealed") }

abbrev no_change : UpdateAgentDraftBody
no_change = record { identity = none; strategy = none; bot_frequency = none }

abbrev drafted : Database
drafted = database (ready_draft ∷ [])

draft_requests_denied_example :
    (get_draft deployment "d1" stranger drafted ≡ (drafted, err draft_not_found))
    × (update_draft deployment "d1" stranger [] no_change drafted ≡ (drafted, err draft_not_found))
    × (abandon_draft "d1" stranger [] drafted ≡ (drafted, err draft_not_found))
    × (provision_wallet "d1" stranger pair [] drafted ≡ (drafted, err draft_not_found))
    × (decrypt_draft_signer_key (λ t. ok t) "d1" stranger drafted ≡ (drafted, err draft_not_found))
    × (launch_draft services times "d1" stranger drafted ≡ (drafted, err draft_not_found))
unfolding to_lower
draft_requests_denied_example =
    draft_requests_denied "d1" stranger drafted deployment services times (λ t. ok t) pair []
      no_change refl

abbrev sent : Database
sent = database (sent_draft ∷ [])

abbrev prepared_one : Prepared
prepared_one = record {
  draft_id = "d1";
  owner = codes "0xa1";
  ready = record {
    identity = identity;
    vault_address = codes "0xF1";
    encrypted_key = codes "sealed";
    strategy = codes "hold";
    bot_frequency = hourly;
    frequency_text = codes "1h";
  };
  key_version = 1;
  signer_address = codes "0xb2";
  message = record {
    vault = codes "0xf1";
    name = codes "Ada";
    metadata_uri = codes "Ada";
    signer = codes "0xb2";
    nonce = 0;
    deadline = 4600;
  };
  signature = codes "sealed";
  relayer_key = codes "0x99";
}

-- The handle is in use by another draft when the registration fails.
abbrev contested : Database
contested = database (sent_draft ∷ rival ∷ [])

two_ids : ◌≢◌ {A = String} "d2" "d1"
two_ids e = let same : str_eq "d2" "d1" ≡ true = (eq_iff "d2" "d1").1 e in cc

finish_launch_stuck_example :
    (after : Database) × (finish_launch failing times prepared_one contested
      ≡ (after, err unique_violation))
    × (after ≡ contested)
    × (find_draft "d1" after.drafts ≡ some sent_draft)
    × (update_draft deployment "d1" owner [] no_change after ≡ (after, err not_editable))
    × (provision_wallet "d1" owner pair [] after ≡ (after, err not_editable))
    × (launch_draft services times "d1" owner after ≡ (after, err not_editable))
unfolding to_lower
finish_launch_stuck_example =
    finish_launch_stuck failing times prepared_one contested sent_draft unique_violation deployment
      services times pair owner [] no_change refl refl refl
      (inr (record {
        thrown = other_error "reverted";
        handle = "ada";
        rival_id = rival.id;
        rival = rival;
        failed = refl;
        own_handle = refl;
        other_id = two_ids;
        other_found = refl;
        other_status = refl;
        other_handle = refl;
        answer = refl;
      }))

-- A draft that was abandoned while it was launching.
abbrev withdrawn : Database
withdrawn = (abandon_draft "d1" owner (codes "2026-01-02") sent).0

abbrev withdrawn_row : AgentDraftRow
withdrawn_row = record sent_draft {
  status = abandoned;
  encrypted_signer_key = none;
  signer_address = none;
}

withdrawn-eq : withdrawn ≡ database (withdrawn_row ∷ [])
unfolding abandon_draft require_owned_draft abandon_draft_row abandoned_row to_lower
withdrawn-eq = refl

allowed_again :
    commit_drafts
      (change_draft "d1" (patch_draft (status_patch draft times.failed_at)) (withdrawn_row ∷ []))
    ≡ ok (change_draft "d1" (patch_draft (status_patch draft times.failed_at)) (withdrawn_row ∷ []))
unfolding commit_drafts patch_draft
allowed_again = refl

finish_launch_restores_example :
    (finish_launch failing times prepared_one (database (withdrawn_row ∷ [])) ≡ (
      database (
          change_draft "d1"
            (patch_draft (status_patch draft times.failed_at))
            (withdrawn_row ∷ [])),
      err (launch_failure (other_error "reverted")),
    ))
    × (find_draft "d1" (
          change_draft "d1" (patch_draft (status_patch draft times.failed_at)) (withdrawn_row ∷ []))
        ≡ some (record withdrawn_row { status = draft; updated_at = codes "2026-01-02" }))
finish_launch_restores_example =
    finish_launch_restores failing times prepared_one (database (withdrawn_row ∷ [])) withdrawn_row
      (other_error "reverted") refl refl allowed_again

-- A signer of the agent is there already.
abbrev signer : AgentSignerRow
signer = record (signer_row prepared_one "7" (codes "2026-01-02")) {
  encrypted_signer_key = codes "other";
}

abbrev occupied : Database
occupied = record sent { signers = signer ∷ [] }

no_signer :
    create_signer (signer_row prepared_one "7" times.launched_at) (signer ∷ [])
    ≡ err unique_violation
unfolding create_signer
no_signer = refl

abbrev taken_over : AgentDraftRow → AgentDraftRow
taken_over = patch_draft (launched_patch "7" (codes "0xtx") "free" times.launched_at)

finish_launch_insert_refused_example :
    (finish_launch services times prepared_one occupied ≡ (
      record occupied { drafts = change_draft "d1" taken_over (sent_draft ∷ []) },
      err not_persisted,
    ))
    × (find_draft "d1" (change_draft "d1" taken_over (sent_draft ∷ []))
        ≡ some (taken_over sent_draft))
    × ((taken_over sent_draft).status ≡ launched)
    × ((taken_over sent_draft).encrypted_signer_key ≡ none)
finish_launch_insert_refused_example =
    finish_launch_insert_refused services times prepared_one occupied "7" (codes "0xtx") 0
      sent_draft refl refl (refl, refl) refl (signer ∷ []) unique_violation (inl (no_signer, refl))

abbrev profile : AgentProfileRow
profile = record {
  agent_id = "7";
  owner_address = codes "0xa1";
  handle = "ada";
  strategy = codes "hold";
  bot_frequency = codes "1h";
  pricing_tier = "free";
  next_run_at = codes "2026-01-03";
  archived_at = none;
  created_at = codes "2026-01-02";
}

abbrev managed : Database
managed = record { drafts = []; profiles = profile ∷ []; signers = signer ∷ [] }

managed_requests_denied_example :
    (get_managed_profile registration "7" stranger managed ≡ (managed, err forbidden))
    × (update_managed_profile registration (λ _. []) (pos 0) "7" stranger none none managed
        ≡ (managed, err forbidden))
    × (archive_managed_agent registration [] "7" stranger managed ≡ (managed, err forbidden))
unfolding to_lower
managed_requests_denied_example =
    managed_requests_denied registration "7" stranger managed (codes "0xA1") (λ _. []) (pos 0) none
      none [] refl refl

abbrev archived : ManagedAgentProfile
archived = record {
  agent_id = "7";
  handle = "ada";
  strategy = codes "hold";
  bot_frequency = hourly;
  pricing_tier = "free";
  next_run_at = codes "2026-01-03";
  archived_at = some (codes "2026-02-01");
  created_at = codes "2026-01-02";
}

abbrev after_archive : Database
after_archive = (archive_managed_agent registration (codes "2026-02-01") "7" owner managed).0

archived_seven :
    archive_managed_agent registration (codes "2026-02-01") "7" owner managed
    ≡ (after_archive, ok archived)
unfolding archive_managed_agent require_managed_owner reconcile_owner_if_needed archive_profile
    wipe_signer_key to_managed_profile frequency_of to_lower
archived_seven = refl

archived_agent_not_due_example :
    All (λ row. row.agent_id ≢ "7") (list_due (codes "2027-01-01") 10 after_archive.profiles)
    × All (λ r. (r.agent_id ≢ "7") ⊎ (r.encrypted_signer_key ≡ [])) after_archive.signers
archived_agent_not_due_example =
    archived_agent_not_due registration (codes "2026-02-01") "7" owner managed after_archive
      archived (codes "2027-01-01") 10 archived_seven
