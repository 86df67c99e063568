-- ===== src/Registration/Agents.antt =====
-- What the registry answers, and the relayer's transactions.
use protocol_monorepo.Common.{
  ℕ, zero, suc, String, Bool, not, ◌++◌, List, [], ◌∷◌, map, Option, none, some, str_eq, Result, ok,
  err, if◌then◌else◌, ◌>>=◌, ◌>>◌, fail_if, or_fail,
}
use protocol_monorepo.Common.Text.{Text, codes, text_eq, to_lower}
use protocol_monorepo.Common.Decimal.Print.{to_string}
use protocol_monorepo.Tokens.Usd.{atomic_usdc_to_usd_string}
use protocol_monorepo.Orders.Errors.{OrderFailure, plain_error, is_contract_revert}
use protocol_monorepo.Orders.Chain.{
  AgentRecord, Eip712Domain, TypedDomain, Receipt, RouterLog, or_missing,
}

-- An `AgentRegistrationError`, an `Erc8004NotRegisteredError`, or what a call throws.
pub data RegistrationFailure : Type 0 where
  registration_error : (message : Text) (status : ℕ) → RegistrationFailure
  erc8004_not_registered : (message : Text) → RegistrationFailure
  from_call : OrderFailure → RegistrationFailure

pub record SelfRegisterTypedData : Type 0 where
  pub vault : Text
  pub name : Text
  pub metadata_uri : Text
  pub signer : Text
  pub link_erc8004 : Bool
  pub erc8004_agent_id : ℕ
  pub nonce : ℕ
  pub deadline : ℕ

pub record RegistrationFee : Type 0 where
  pub amount : ℕ
  pub treasury : Text
  pub fee_asset : Text
  pub display_usd : Text

-- `now` is in seconds. The transactions take the relayer's key.
pub record Registry (W : Type 0) : Type 0 where
  pub now : W → ℕ
  pub signer_nonce : W → Text → Result OrderFailure ℕ
  pub eip712_domain : W → Result OrderFailure Eip712Domain
  pub self_register_typehash : W → Result OrderFailure Text
  pub registration_fee : W → Result OrderFailure ℕ
  pub treasury : W → Result OrderFailure Text
  pub fee_asset : W → Result OrderFailure Text
  pub get_agent : W → ℕ → Result OrderFailure AgentRecord
  pub agent_by_erc8004 : W → ℕ → Result OrderFailure AgentRecord
  pub agent_id_by_erc8004 : W → ℕ → Result OrderFailure ℕ
  pub agent_count_by_owner : W → Text → Result OrderFailure ℕ
  pub agent_id_by_owner_at : W → Text → ℕ → Result OrderFailure ℕ
  pub send_register : W → Text → Text → SelfRegisterTypedData → W × Result OrderFailure Text
  pub send_link : W → Text → ℕ → ℕ → W × Result OrderFailure Text
  pub receipt : W → Text → Result OrderFailure Receipt
  -- `decodeEventLog`; `none` when it throws.
  pub decode_event_log : Text → List Text → Option (String × ℕ)
  pub verify_self_register : TypedDomain → SelfRegisterTypedData → Text → Result OrderFailure Bool

pub record RegistrationConfig : Type 0 where
  pub chain_id : ℕ
  pub agent_registry_address : Text
  pub relayer_private_key : Option Text
  pub asset_symbol : Text
  pub decimals : ℕ
  pub network : Text
  pub facilitator_url : Text

pub record Registered : Type 0 where
  pub agent_id : Text
  pub transaction_hash : Text

pub record Linked : Type 0 where
  pub transaction_hash : Text
  pub agent : AgentRecord

abbrev pub as_registration : {A : Type 0} → Result OrderFailure A → Result RegistrationFailure A
as_registration (ok a) = ok a
as_registration (err e) = err (from_call e)

abbrev pub require_success : Receipt → Text → Result OrderFailure (Unit {0})
require_success receipt message =
    fail_if (not (str_eq receipt.status "success")) (plain_error message)

abbrev pub registered_in : Text → RouterLog → Option (String × ℕ) → Option ℕ
registered_in address log none = none
registered_in address log (some (event_name, agent_id)) =
    if text_eq (map to_lower log.address) (map to_lower address)
    then (if str_eq event_name "AgentRegistered" then some agent_id else none)
    else none

abbrev pub first_registered : Option ℕ → Option ℕ → Option ℕ
first_registered none later = later
first_registered (some agent_id) later = some agent_id

abbrev pub missing_erc8004 : OrderFailure → ℕ → RegistrationFailure
missing_erc8004 e id =
    if is_contract_revert e (codes "ERC8004NotRegistered")
    then erc8004_not_registered (codes "No agent linked to ERC-8004 identity: " ++ to_string id)
    else from_call e

abbrev pub or_missing_erc8004 :
    {A : Type 0} → Result OrderFailure A → ℕ → Result RegistrationFailure A
or_missing_erc8004 (ok a) id = ok a
or_missing_erc8004 (err e) id = err (missing_erc8004 e id)

module _ {W : Type 0} (registry : Registry W) where
  -- `FeeManagerService.getRegistrationFee`
  unfoldable pub get_registration_fee : W → Result OrderFailure RegistrationFee
  get_registration_fee w = do
    amount ← registry.registration_fee w
    treasury ← registry.treasury w
    fee_asset ← registry.fee_asset w
    ok record {
      amount = amount;
      treasury = treasury;
      fee_asset = fee_asset;
      display_usd = atomic_usdc_to_usd_string amount 6;
    }

  unfoldable pub registered_agent : W → ℕ → Result OrderFailure AgentRecord
  registered_agent w agent_id = or_missing (registry.get_agent w agent_id) agent_id

  -- `getAgentByErc8004`
  unfoldable pub linked_agent : W → ℕ → Result RegistrationFailure (Text × AgentRecord)
  linked_agent w id =
      or_missing_erc8004
        (do
          agent ← registry.agent_by_erc8004 w id
          agent_id ← registry.agent_id_by_erc8004 w id
          ok (to_string agent_id, agent))
        id

  -- The two multicalls of `listAgentsByOwner`; a call answers what the single read answers.
  unfoldable pub owned_ids : W → Text → ℕ → ℕ → Result OrderFailure (List ℕ)
  owned_ids w owner index zero = ok []
  owned_ids w owner index (suc count) = do
    agent_id ← registry.agent_id_by_owner_at w owner index
    later ← owned_ids w owner (suc index) count
    ok (agent_id ∷ later)

  unfoldable pub records_of : W → List ℕ → Result OrderFailure (List (Text × AgentRecord))
  records_of w [] = ok []
  records_of w (agent_id ∷ ids) = do
    agent ← registry.get_agent w agent_id
    later ← records_of w ids
    ok ((to_string agent_id, agent) ∷ later)

  unfoldable pub owned_agents : W → Text → Result OrderFailure (List (Text × AgentRecord))
  unfolding owned_ids records_of
  owned_agents w owner = do
    count ← registry.agent_count_by_owner w owner
    ids ← owned_ids w owner 0 count
    records_of w ids

  unfoldable pub registered_id : Text → List RouterLog → Option ℕ
  registered_id address [] = none
  registered_id address (log ∷ logs) =
      first_registered
        (registered_in address log (registry.decode_event_log log.data_hex log.topics))
        (registered_id address logs)

  -- What is read once the registration is sent.
  unfoldable pub registered_from : W → Text → Text → Result OrderFailure Registered
  unfolding registered_id
  registered_from w address hash = do
    receipt ← registry.receipt w hash
    require_success receipt (codes "On-chain registration transaction reverted")
    agent_id ←
        or_fail (registered_id address receipt.logs)
          (plain_error (codes "AgentRegistered event not found in receipt"))
    ok record { agent_id = to_string agent_id; transaction_hash = hash }

  abbrev pub after_registration :
      Text → W × Result OrderFailure Text → W × Result OrderFailure Registered
  after_registration address (w, err e) = (w, err e)
  after_registration address (w, ok hash) = (w, registered_from w address hash)

  unfoldable pub register_with_relayer :
      Text → Text → Text → SelfRegisterTypedData → W → W × Result OrderFailure Registered
  unfolding registered_from
  register_with_relayer address key owner data_signed w =
      after_registration address (registry.send_register w key owner data_signed)

  abbrev pub after_link : ℕ → W × Result OrderFailure Text → W × Result OrderFailure Linked
  after_link agent_id (w, err e) = (w, err e)
  after_link agent_id (w, ok hash) = (
    w,
    do
      receipt ← registry.receipt w hash
      require_success receipt (codes "On-chain ERC-8004 link transaction reverted")
      agent ← registered_agent w agent_id
      ok record { transaction_hash = hash; agent = agent },
  )

  unfoldable pub link_erc8004_with_relayer : Text → ℕ → ℕ → W → W × Result OrderFailure Linked
  unfolding registered_agent
  link_erc8004_with_relayer key agent_id id w =
      after_link agent_id (registry.send_link w key agent_id id)
