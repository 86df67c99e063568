-- ===== src/Drafts/Refinement.antt =====
-- The requests on drafts and the life cycle of a draft.
use protocol_monorepo.Common.{String, List, [], ◌∷◌, ◌≡◌, All, refl, arith}
use protocol_monorepo.Common.Text.{Text}
use protocol_monorepo.Db.DraftRows.{AgentDraftRow, draft}
use protocol_monorepo.Db.Database.{Database}
use protocol_monorepo.Drafts.Service.{Deployment}
use protocol_monorepo.Drafts.Lifecycle.{◌⟶*◌, IsSound, Evolves, Evolves-refl, Evolves-trans}
use protocol_monorepo.Drafts.Tables.{IsTable}
use protocol_monorepo.Drafts.Rules.{Later}
use protocol_monorepo.Drafts.Requests.{
  Request, create, update, abandon, provision, launch, sweep, perform, perform_all,
}
use protocol_monorepo.Drafts.Refinement.Edits.{
  create_draft-Later, update_draft-Later, abandon_draft-Later, provision_wallet-Later,
}
use protocol_monorepo.Drafts.Refinement.Sent.{launch_draft-Later}
use protocol_monorepo.Drafts.Refinement.Sweep.{sweep-Later}
pub mod Edits
pub mod Launches
pub mod Sent
pub mod Sweep

from_nothing :
    (rows later : List AgentDraftRow)
    → rows ≡ []
    → Evolves rows later
    → All (λ row. (draft ⟶* row.status) × IsSound row) later
from_nothing [] later e h = h
from_nothing (r ∷ rows) later e h = absurd (ground (arith, e))

module _ (deployment : Deployment) where
  -- A request that is served alone, on a table whose indexes hold, refines the life cycle: whatever
  -- it answers, each row of before is a row of after with the same id, its status is reached by
  -- steps of the cycle, its key is where that status wants it if it was before, the rows that are
  -- new came into being as drafts, and the indexes hold again.
  pub perform-Later :
      (request : Request) (db : Database)
      → IsTable db.drafts
      → Later db.drafts (perform deployment request db)
  unfolding perform
  perform-Later (create id created_at owner identity) db table =
      create_draft-Later db table deployment id created_at owner identity
  perform-Later (update id owner updated_at body) db table =
      update_draft-Later db table deployment id owner updated_at body
  perform-Later (abandon id owner updated_at) db table =
      abandon_draft-Later db table id owner updated_at
  perform-Later (provision id owner pair updated_at) db table =
      provision_wallet-Later db table id owner pair updated_at
  perform-Later (launch services times id owner) db table =
      launch_draft-Later services times db table id owner
  perform-Later (sweep cutoff updated_at) db table = sweep-Later cutoff updated_at db table

  perform_all-Later :
      (requests : List Request) (db : Database)
      → IsTable db.drafts
      → Later db.drafts (perform_all deployment requests db)
  unfolding perform_all
  perform_all-Later [] db table = (Evolves-refl db.drafts, table)
  perform_all-Later (request ∷ requests) db table =
      let (first, indexed) = perform-Later request db table in
      let (later, after) = perform_all-Later requests (perform deployment request db) indexed in
      (
        Evolves-trans db.drafts (perform deployment request db).drafts
            (perform_all deployment requests (perform deployment request db)).drafts first later,
        after,
      )

  -- From a database without drafts, any requests served one after another reach only rows that
  -- followed the life cycle from a draft and whose signer and key are where their status wants them:
  -- a draft has both or neither, a launched one has no key, an abandoned one has neither. The ids
  -- are distinct, and so are the handles of the rows that are drafts.
  pub perform_all-IsSound :
      (requests : List Request) (db : Database)
      → db.drafts ≡ []
      → All (λ row. (draft ⟶* row.status) × IsSound row) (perform_all deployment requests db).drafts
        × IsTable (perform_all deployment requests db).drafts
  perform_all-IsSound requests db e =
      let (later, indexed) = perform_all-Later requests db (rw e (refl, refl)) in
      (from_nothing db.drafts (perform_all deployment requests db).drafts e later, indexed)
