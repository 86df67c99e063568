-- ===== src/Db/Signers.antt =====
-- api/src/db/agent-signers.repository.ts
use protocol_monorepo.Common.{
  ℕ, String, str_eq, List, [], ◌∷◌, ◌++◌, any, if◌then◌else◌, Option, none, some, Result, ok, err,
}
use protocol_monorepo.Common.Text.{Text}
use protocol_monorepo.Db.Actions.{Failure, unique_violation}

pub record AgentSignerRow : Type 0 where
  pub agent_id : String
  pub owner_address : Text
  pub signer_address : Text
  pub encrypted_signer_key : Text
  pub key_version : ℕ
  pub created_at : Text

-- The row is given with its addresses in lower case; `agent_id` is the primary key.
unfoldable pub create_signer :
    AgentSignerRow → List AgentSignerRow → Result Failure (List AgentSignerRow)
create_signer row rows =
    if any (λ r. str_eq r.agent_id row.agent_id) rows
    then err unique_violation
    else ok (rows ++ row ∷ [])

abbrev pub find_signer : String → List AgentSignerRow → Option AgentSignerRow
find_signer agent_id [] = none
find_signer agent_id (row ∷ rows) =
    if str_eq row.agent_id agent_id then some row else find_signer agent_id rows

-- `UPDATE agent_signers SET owner_address = ? WHERE agent_id = ?`
unfoldable pub set_signer_owner : String → Text → AgentSignerRow → AgentSignerRow
set_signer_owner agent_id owner row =
    if str_eq row.agent_id agent_id then record row { owner_address = owner } else row

-- `UPDATE agent_signers SET encrypted_signer_key = '' WHERE agent_id = ?`
unfoldable pub wipe_signer_key : String → AgentSignerRow → AgentSignerRow
wipe_signer_key agent_id row =
    if str_eq row.agent_id agent_id then record row { encrypted_signer_key = [] } else row
