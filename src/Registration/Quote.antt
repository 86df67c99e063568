-- ===== src/Registration/Quote.antt =====
-- `getQuote` of api/src/services/agent-registration.service.ts.
pub mod Price
use protocol_monorepo.Common.{
  ℕ, Bool, Option, none, some, Result, ok, err, ltb, if◌then◌else◌, ◌>>=◌, map_ok,
}
use protocol_monorepo.Common.Text.{Text, codes}
use protocol_monorepo.Common.Decimal.Print.{to_string}
use protocol_monorepo.Orders.Errors.{OrderFailure}
use protocol_monorepo.Registration.Agents.{
  Registry, RegistrationConfig, RegistrationFee, get_registration_fee,
}

pub record RegistrationFeeQuote : Type 0 where
  pub amount : Text
  pub asset_symbol : Text
  pub token_address : Text
  pub decimals : ℕ
  pub display_usd : Text

pub record X402Quote : Type 0 where
  pub enabled : Bool
  pub network : Option Text
  pub pay_to : Text
  pub facilitator_url : Option Text
  pub http_route : Text

pub record Eip712Quote : Type 0 where
  pub domain_name : Text
  pub domain_version : Text
  pub chain_id : ℕ
  pub verifying_contract : Text
  pub primary_type : Text
  pub self_register_typehash : Text

pub record AgentRegistrationQuote : Type 0 where
  pub registration_fee : RegistrationFeeQuote
  pub x402 : X402Quote
  pub eip712 : Eip712Quote
  pub agent_registry : Text
  pub signer_nonce : Option Text

abbrev pub self_register_typehash : Text
self_register_typehash = codes "0x943fcd588cbf2f97757c6f41f78f5a7f133ad3f3111e330a636c80c3e3c70679"

abbrev pub agent_register_route : Text
agent_register_route = codes "POST /agents/register"

-- `.catch(() => SELF_REGISTER_TYPEHASH)`
abbrev pub or_typehash : Result OrderFailure Text → Text
or_typehash (ok hash) = hash
or_typehash (err e) = self_register_typehash

abbrev pub if_paid : ℕ → Text → Option Text
if_paid fee t = if ltb 0 fee then some t else none

abbrev pub fee_quote : RegistrationConfig → RegistrationFee → RegistrationFeeQuote
fee_quote config fee = record {
  amount = to_string fee.amount;
  asset_symbol = config.asset_symbol;
  token_address = fee.fee_asset;
  decimals = config.decimals;
  display_usd = fee.display_usd;
}

abbrev pub x402_quote : RegistrationConfig → RegistrationFee → X402Quote
x402_quote config fee = record {
  enabled = ltb 0 fee.amount;
  network = if_paid fee.amount config.network;
  pay_to = fee.treasury;
  facilitator_url = if_paid fee.amount config.facilitator_url;
  http_route = agent_register_route;
}

module _ {W : Type 0} (registry : Registry W) (config : RegistrationConfig) where
  abbrev pub quoted_nonce : W → Option Text → Result OrderFailure (Option Text)
  quoted_nonce w none = ok none
  quoted_nonce w (some signer) = map_ok (λ n. some (to_string n)) (registry.signer_nonce w signer)

  unfoldable pub get_registration_quote :
      W → Option Text → Result OrderFailure AgentRegistrationQuote
  get_registration_quote w signer = do
    fee ← get_registration_fee registry w
    signer_nonce ← quoted_nonce w signer
    domain ← registry.eip712_domain w
    ok record {
      registration_fee = fee_quote config fee;
      x402 = x402_quote config fee;
      eip712 = record {
        domain_name = domain.name;
        domain_version = domain.version;
        chain_id = config.chain_id;
        verifying_contract = config.agent_registry_address;
        primary_type = codes "SelfRegister";
        self_register_typehash = or_typehash (registry.self_register_typehash w);
      };
      agent_registry = config.agent_registry_address;
      signer_nonce = signer_nonce;
    }
