-- ===== src/Registration/Service.antt =====
-- The registration service, but for its quote.
use protocol_monorepo.Common.{
  ℕ, Bool, not, ◌||◌, List, [], ◌∷◌, Option, none, some, Result, ok, err, ltb, length,
  if◌then◌else◌, ◌>>=◌, ◌>>◌, fail_if, or_fail,
}
use protocol_monorepo.Common.Text.{Text, codes, includes}
use protocol_monorepo.Orders.Errors.{
  OrderFailure, agent_not_found_error, message_or, is_contract_revert, big_nat,
}
use protocol_monorepo.Orders.Chain.{AgentRecord, Eip712Domain, TypedDomain}
use protocol_monorepo.Registration.Agents.{
  RegistrationFailure, registration_error, erc8004_not_registered, from_call, SelfRegisterTypedData,
  RegistrationFee, Registry, RegistrationConfig, Registered, Linked, as_registration,
  get_registration_fee, registered_agent, linked_agent, owned_agents, register_with_relayer,
  link_erc8004_with_relayer,
}

-- `AgentRegistrationRequest`; the nonce that it carries is not read.
pub record AgentRegistrationRequest : Type 0 where
  pub vault : Text
  pub name : Text
  pub metadata_uri : Text
  pub signer : Text
  pub link_erc8004 : Bool
  pub erc8004_agent_id : Text
  pub deadline : Text
  pub signature : Text

pub record AgentRegistrationResponse : Type 0 where
  pub agent_id : Text
  pub transaction_hash : Text
  pub message : Text

-- What `register` has checked and read before it submits.
pub record CheckedRegistration : Type 0 where
  pub parsed : SelfRegisterTypedData
  pub key : Text
  pub fee : RegistrationFee

abbrev pub registration_message : ℕ → Text
registration_message fee =
    if ltb 0 fee
    then codes "Agent registered on-chain by registrar relayer after x402 fee settlement."
    else codes "Agent registered on-chain by registrar relayer (zero registration fee)."

unfoldable pub parse_request :
    ℕ → AgentRegistrationRequest → Result RegistrationFailure SelfRegisterTypedData
parse_request now body = do
  deadline ← as_registration (big_nat body.deadline)
  fail_if (ltb deadline now) (registration_error (codes "Registration deadline has expired") 400)
  erc8004_agent_id ← as_registration (big_nat body.erc8004_agent_id)
  ok record {
    vault = body.vault;
    name = body.name;
    metadata_uri = body.metadata_uri;
    signer = body.signer;
    link_erc8004 = body.link_erc8004;
    erc8004_agent_id = erc8004_agent_id;
    nonce = 0;
    deadline = deadline;
  }

abbrev pub with_nonce : SelfRegisterTypedData → ℕ → SelfRegisterTypedData
with_nonce parsed nonce = record parsed { nonce = nonce }

abbrev pub registration_domain : RegistrationConfig → Eip712Domain → TypedDomain
registration_domain config domain = record {
  name = domain.name;
  version = domain.version;
  chain_id = config.chain_id;
  verifying_contract = config.agent_registry_address;
}

-- The `catch` of `submitRelayerRegistration`.
unfoldable pub map_register_error : OrderFailure → RegistrationFailure
map_register_error e =
    let message = message_or e (codes "On-chain registration failed") in
    if includes (codes "reverted") message || includes (codes "AgentRegistered") message
    then registration_error message 502
    else registration_error message 503

abbrev pub registered_response :
    {W : Type 0}
    → ℕ
    → W × Result OrderFailure Registered
    → W × Result RegistrationFailure AgentRegistrationResponse
registered_response fee (w, err e) = (w, err (map_register_error e))
registered_response fee (w, ok r) = (
  w,
  ok record {
    agent_id = r.agent_id;
    transaction_hash = r.transaction_hash;
    message = registration_message fee;
  },
)

abbrev pub revert_messages : List (Text × Text)
revert_messages =
    (codes "ERC8004AlreadyLinked", codes "Agent already has an ERC-8004 identity linked")
    ∷ (codes "NotERC8004Owner", codes "Agent owner does not hold the ERC-8004 identity NFT")
    ∷ (codes "NotAgentOwner", codes "Caller is not authorized to link ERC-8004 for this agent")
    ∷ (codes "ZeroAddress", codes "Invalid zero address in link request")
    ∷ []

unfoldable pub link_message : OrderFailure → List (Text × Text) → Option Text
link_message e [] = none
link_message e ((name, message) ∷ more) =
    let later = link_message e more in if is_contract_revert e name then some message else later

-- The tests behind the loop.
abbrev pub map_other_link_error : OrderFailure → Option Text → RegistrationFailure
map_other_link_error e (some message) = registration_error message 400
map_other_link_error e none =
    let message = message_or e (codes "On-chain ERC-8004 link failed") in
    if is_contract_revert e (codes "EnforcedPause")
    then registration_error (codes "AgentRegistry is paused") 503
    else if includes (codes "reverted") message
    then registration_error message 502
    else registration_error message 503

unfoldable pub map_link_erc8004_error : OrderFailure → RegistrationFailure
unfolding link_message
map_link_erc8004_error (agent_not_found_error message) = registration_error message 404
map_link_erc8004_error e = map_other_link_error e (link_message e revert_messages)

abbrev pub linked_response :
    {W : Type 0} → W × Result OrderFailure Linked → W × Result RegistrationFailure Linked
linked_response (w, err e) = (w, err (map_link_erc8004_error e))
linked_response (w, ok linked) = (w, ok linked)

abbrev pub not_found_agent : RegistrationFailure → RegistrationFailure
not_found_agent (from_call (agent_not_found_error message)) = registration_error message 404
not_found_agent (erc8004_not_registered message) = registration_error message 404
not_found_agent e = e

abbrev pub or_not_found_agent :
    {A : Type 0} → Result RegistrationFailure A → Result RegistrationFailure A
or_not_found_agent (ok a) = ok a
or_not_found_agent (err e) = err (not_found_agent e)

module _ {W : Type 0} (registry : Registry W) (config : RegistrationConfig) where
  unfoldable pub checked_registration :
      W → AgentRegistrationRequest → Result RegistrationFailure CheckedRegistration
  checked_registration w body = do
    request ← parse_request (registry.now w) body
    nonce ← as_registration (registry.signer_nonce w request.signer)
    domain ← as_registration (registry.eip712_domain w)
    valid ← as_registration (
        registry.verify_self_register (registration_domain config domain) (with_nonce request nonce)
          body.signature)
    fail_if (not valid) (registration_error (codes "Invalid SelfRegister EIP-712 signature") 400)
    key ←
        or_fail config.relayer_private_key
          (registration_error (codes "RELAYER_PRIVATE_KEY is not configured") 503)
    fee ← as_registration (get_registration_fee registry w)
    ok record { parsed = with_nonce request nonce; key = key; fee = fee }

  abbrev pub submit_relayer_registration :
      W
      → Result RegistrationFailure CheckedRegistration
      → W × Result RegistrationFailure AgentRegistrationResponse
  submit_relayer_registration w (err e) = (w, err e)
  submit_relayer_registration w (ok checked) = registered_response checked.fee.amount (
      register_with_relayer registry config.agent_registry_address checked.key checked.parsed.signer
        checked.parsed w)

  unfoldable pub register :
      AgentRegistrationRequest → W → W × Result RegistrationFailure AgentRegistrationResponse
  register body w = submit_relayer_registration w (checked_registration w body)

  abbrev pub link_with : Option Text → Text → Text → W → W × Result RegistrationFailure Linked
  link_with none agent_id_str id_str w =
      (w, err (registration_error (codes "RELAYER_PRIVATE_KEY is not configured") 503))
  link_with (some key) agent_id_str id_str w =
      link_ids key w (big_nat agent_id_str) (big_nat id_str)
    where
      link_ids :
          Text
          → W
          → Result OrderFailure ℕ
          → Result OrderFailure ℕ
          → W × Result RegistrationFailure Linked
      link_ids key w (err e) id = (w, err (map_link_erc8004_error e))
      link_ids key w (ok agent_id) (err e) = (w, err (map_link_erc8004_error e))
      link_ids key w (ok agent_id) (ok id) =
          linked_response (link_erc8004_with_relayer registry key agent_id id w)

  unfoldable pub link_erc8004 : Text → Text → W → W × Result RegistrationFailure Linked
  link_erc8004 agent_id_str id_str w = link_with config.relayer_private_key agent_id_str id_str w

  unfoldable pub get_registered_agent : W → Text → Result RegistrationFailure AgentRecord
  get_registered_agent w agent_id_str =
      or_not_found_agent
        (as_registration (do agent_id ← big_nat agent_id_str; registered_agent registry w agent_id))

  unfoldable pub get_linked_agent : W → Text → Result RegistrationFailure (Text × AgentRecord)
  get_linked_agent w id_str =
      or_not_found_agent (do id ← as_registration (big_nat id_str); linked_agent registry w id)

  unfoldable pub list_registered_agents :
      W → Text → Result OrderFailure (ℕ × List (Text × AgentRecord))
  list_registered_agents w owner = do
    agents ← owned_agents registry w owner
    ok (length agents, agents)
