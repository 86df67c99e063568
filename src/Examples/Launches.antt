-- ===== src/Examples/Launches.antt =====
-- Drafts, their launch and managed agents at concrete inputs.
use protocol_monorepo.Common.{◌≡◌, refl, [], ◌∷◌, none, some, ok, err, All, List}
use protocol_monorepo.Common.Int.{pos}
use protocol_monorepo.Common.Text.{Text, codes, to_lower}
use protocol_monorepo.Strategy.Cooldown.{hourly}
use protocol_monorepo.Db.Actions.{other_error}
use protocol_monorepo.Db.Profiles.{commit_profiles, create_profile}
use protocol_monorepo.Db.Signers.{create_signer}
use protocol_monorepo.Db.DraftRows.{
  AgentIdentity, AgentDraftRow, draft, launching, commit_drafts, patch_draft, update_draft_row,
}
use protocol_monorepo.Db.Database.{Database}
use protocol_monorepo.Managed.{
  Registration, managed_of, list_managed_for_owner, count_active_managed_for_owner,
}
use protocol_monorepo.Drafts.Service.{
  Deployment, frequency_of, require_owned_draft, require_editable_draft,
}
use protocol_monorepo.Drafts.Wallet.{decrypt_signer_from_row}
use protocol_monorepo.Drafts.Signing.{
  LaunchServices, LaunchTimes, LaunchAgentResult, assert_launch_ready, sign_launch,
}
use protocol_monorepo.Drafts.Launch.{Prepared, prepare_launch, finish_launch, launch_draft}
use protocol_monorepo.Drafts.Lifecycle.{◌⟶*◌, IsSound}
use protocol_monorepo.Drafts.Tables.{IsTable}
use protocol_monorepo.Drafts.Rules.{Later}
use protocol_monorepo.Drafts.Requests.{
  Request, create, update, provision, launch, perform, perform_all,
}
use protocol_monorepo.Drafts.Refinement.{perform-Later, perform_all-IsSound}
use protocol_monorepo.Drafts.Handover.{HandedOver}
use protocol_monorepo.Drafts.Origin.{PreparedFrom, launch_draft-HandedOver}

abbrev pub identity : AgentIdentity
identity = record { name = codes "Ada"; handle = "ada"; description = []; links = [] }

abbrev pub owner : Text
owner = codes "0xA1"

abbrev pub ready_draft : AgentDraftRow
ready_draft = record {
  id = "d1";
  owner_address = codes "0xa1";
  handle = some "ada";
  identity = some identity;
  vault_address = some (codes "0xF1");
  strategy = some (codes "hold");
  bot_frequency = some (codes "1h");
  pricing_tier = none;
  signer_address = some (codes "0xb2");
  encrypted_signer_key = some (codes "sealed");
  key_version = 1;
  status = draft;
  launched_agent_id = none;
  launch_tx_hash = none;
  created_at = codes "2026-01-01";
  updated_at = codes "2026-01-02";
}

abbrev pub sent_draft : AgentDraftRow
sent_draft = record ready_draft { status = launching }

-- A draft that took the handle in the meantime.
abbrev pub rival : AgentDraftRow
rival = record ready_draft { id = "d2"; owner_address = codes "0xc3" }

abbrev pub database : List AgentDraftRow → Database
database drafts = record { drafts = drafts; profiles = []; signers = [] }

abbrev pub registration : Registration
registration = record {
  get_agent_owner = λ _. ok (codes "0xA1");
  get_agent_by_erc8004 = λ _. ok ("7", codes "0xA1");
  list_agents_by_owner = λ _. ok [];
}

abbrev pub services : LaunchServices
services = record {
  registration = registration;
  decrypt = λ t. ok t;
  metadata_uri = λ i. i.name;
  relayer_private_key = ok (some (codes "0x99"));
  signer_nonce = λ _. ok 0;
  sign = λ key message. ok key;
  register = λ relayer sender message signature. ok ("7", codes "0xtx");
  registration_fee = ok 0;
  to_iso = λ _. codes "2026-01-03";
}

abbrev pub failing : LaunchServices
failing = record services {
  register = λ relayer sender message signature. err (other_error "reverted");
  registration_fee = err (other_error "rpc");
}

abbrev pub no_fee : LaunchServices
no_fee = record services { registration_fee = err (other_error "rpc") }

abbrev pub times : LaunchTimes
times = record {
  now_seconds = 1000;
  launched_at = codes "2026-01-02";
  failed_at = codes "2026-01-02";
  scheduled_ms = pos 0;
}

abbrev pub deployment : Deployment
deployment = record { chain_id = some 1; genesis_vaults = (1, codes "0xF1") ∷ [] }

abbrev launch_one : Request
launch_one = launch services times "d1" owner

perform-Later_example :
    Later (ready_draft ∷ []) (perform deployment launch_one (database (ready_draft ∷ [])))
perform-Later_example =
    perform-Later deployment launch_one (database (ready_draft ∷ [])) (refl, refl)

-- A draft is created, gets its wallet and is launched.
abbrev story : List Request
story =
    create "d1" (codes "2026-01-01") owner identity
    ∷ provision "d1" owner record { address = codes "0xb2"; encrypted = ok (codes "sealed") }
        (codes "2026-01-02")
    ∷ update "d1" owner (codes "2026-01-02")
        record { identity = none; strategy = some (codes "hold"); bot_frequency = some hourly }
    ∷ launch_one
    ∷ []

perform_all-IsSound_example :
    All
      (λ row. (draft ⟶* row.status) × IsSound row)
      (perform_all deployment story (database [])).drafts
    × IsTable (perform_all deployment story (database [])).drafts
perform_all-IsSound_example = perform_all-IsSound deployment story (database []) refl

abbrev agent_seven : LaunchAgentResult
agent_seven = record { agent_id = "7"; tx_hash = codes "0xtx" }

abbrev after_launch : Database
after_launch = (launch_draft services times "d1" owner (database (ready_draft ∷ []))).0

launched_seven :
    launch_draft services times "d1" owner (database (ready_draft ∷ []))
    ≡ (after_launch, ok agent_seven)
unfolding launch_draft prepare_launch finish_launch require_editable_draft require_owned_draft
    update_draft_row commit_drafts patch_draft sign_launch decrypt_signer_from_row
    assert_launch_ready frequency_of create_signer create_profile commit_profiles
    count_active_managed_for_owner list_managed_for_owner managed_of to_lower
launched_seven = refl

launch_draft-HandedOver_example :
    (p : Prepared) × PreparedFrom "d1" owner (database (ready_draft ∷ [])) p after_launch
    × HandedOver p agent_seven after_launch
launch_draft-HandedOver_example =
    launch_draft-HandedOver services times "d1" owner (database (ready_draft ∷ [])) agent_seven
      after_launch launched_seven
