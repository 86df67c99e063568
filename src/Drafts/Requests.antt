-- ===== src/Drafts/Requests.antt =====
-- The requests that write the table of drafts, with what their surroundings answer: the routes
-- POST, PATCH and DELETE of a draft, its wallet and its launch, and the job
-- api/src/jobs/abandon-stale-agent-drafts.ts.
use protocol_monorepo.Common.{String, List, [], ◌∷◌}
use protocol_monorepo.Common.Text.{Text}
use protocol_monorepo.Db.DraftRows.{AgentIdentity, abandon_stale}
use protocol_monorepo.Db.Database.{Database}
use protocol_monorepo.Drafts.Service.{
  Deployment, UpdateAgentDraftBody, create_draft, update_draft, abandon_draft,
}
use protocol_monorepo.Drafts.Wallet.{KeyPair, provision_wallet}
use protocol_monorepo.Drafts.Signing.{LaunchServices, LaunchTimes}
use protocol_monorepo.Drafts.Launch.{launch_draft}

pub data Request : Type 0 where
  create :
      (draft_id : String) (created_at owner_address : Text) (identity : AgentIdentity) → Request
  update :
      (draft_id : String) (owner_address updated_at : Text) (body : UpdateAgentDraftBody) → Request
  abandon : (draft_id : String) (owner_address updated_at : Text) → Request
  provision :
      (draft_id : String) (owner_address : Text) (pair : KeyPair) (updated_at : Text) → Request
  launch :
      (services : LaunchServices) (times : LaunchTimes) (draft_id : String) (owner_address : Text)
      → Request
  sweep : (cutoff updated_at : Text) → Request

-- The rows that `abandonStaleAgentDrafts` leaves.
abbrev pub abandon_stale_agent_drafts : Text → Text → Database → Database
abandon_stale_agent_drafts cutoff updated_at db = record db {
  drafts = (abandon_stale cutoff updated_at db.drafts).1;
}

module _ (deployment : Deployment) where
  unfoldable pub perform : Request → Database → Database
  perform (create draft_id created_at owner_address identity) db =
      (create_draft deployment draft_id created_at owner_address identity db).0
  perform (update draft_id owner_address updated_at body) db =
      (update_draft deployment draft_id owner_address updated_at body db).0
  perform (abandon draft_id owner_address updated_at) db =
      (abandon_draft draft_id owner_address updated_at db).0
  perform (provision draft_id owner_address pair updated_at) db =
      (provision_wallet draft_id owner_address pair updated_at db).0
  perform (launch services times draft_id owner_address) db =
      (launch_draft services times draft_id owner_address db).0
  perform (sweep cutoff updated_at) db = abandon_stale_agent_drafts cutoff updated_at db

  unfoldable pub perform_all : List Request → Database → Database
  perform_all [] db = db
  perform_all (request ∷ requests) db = perform_all requests (perform request db)
