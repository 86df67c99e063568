-- ===== src/Examples/Registrations.antt =====
-- A registration and its repetition.
use protocol_monorepo.Common.{ℕ, ◌+◌, ◌≡◌, ◌⊎◌, refl, some, [], ◌∷◌, ok, err, false, Option, arith}
use protocol_monorepo.Common.Text.{Text, codes, text_eq, to_lower}
use protocol_monorepo.Common.Decimal.{big_int}
use protocol_monorepo.Common.Int.{pos}
use protocol_monorepo.Common.Decimal.Print.{to_string}
use protocol_monorepo.Tokens.Amount.{parse_human_amount}
use protocol_monorepo.Tokens.Amount.Written.{Parts, written}
use protocol_monorepo.Tokens.Usd.{atomic_usdc_to_usd_string, without_last_zeros, pad_start}
use protocol_monorepo.Tokens.Usd.Shown.{parse_human_amount-usd}
use protocol_monorepo.Orders.Errors.{big_nat, contract_revert}
use protocol_monorepo.Orders.Chain.{AgentRecord}
use protocol_monorepo.Registration.{
  RegistrationFailure, RegistrationFee, Registry, RegistrationConfig, register_with_relayer,
  AgentRegistrationRequest, CheckedRegistration, registered_response, parse_request,
  checked_registration, register, get_registration_fee,
}
use protocol_monorepo.Registration.Guards.{IsAllowed, register-guarded}
use protocol_monorepo.Registration.Quote.{AgentRegistrationQuote, get_registration_quote}
use protocol_monorepo.Registration.Quote.Price.{IsPriced, get_registration_quote-IsPriced}
use protocol_monorepo.Registration.Replay.{register_again}

abbrev signer : Text
signer = codes "0xaa"

abbrev agent : AgentRecord
agent = record { vault = codes "0xva"; signer = signer; track = 0; status = 1 }

abbrev fee : RegistrationFee
fee = record {
  amount = 0;
  treasury = codes "0xtr";
  fee_asset = codes "0xus";
  display_usd = codes "$0";
}

abbrev registry_address : Text
registry_address = codes "0xre"

-- The registry counts its agents; the signer's nonce stays.
abbrev registry : Registry ℕ
registry = record {
  now = λ w. 100 + w;
  signer_nonce = λ w s. ok 4;
  eip712_domain = λ w. ok record { name = codes "AR"; version = codes "1" };
  self_register_typehash = λ w. err (contract_revert [] []);
  registration_fee = λ w. ok 0;
  treasury = λ w. ok (codes "0xtr");
  fee_asset = λ w. ok (codes "0xus");
  get_agent = λ w id. ok agent;
  agent_by_erc8004 = λ w id. ok agent;
  agent_id_by_erc8004 = λ w id. ok id;
  agent_count_by_owner = λ w owner. ok w;
  agent_id_by_owner_at = λ w owner i. ok i;
  send_register = λ w key owner d. (w + 1, ok (to_string w));
  send_link = λ w key agent_id id. (w, ok (codes "0x02"));
  receipt = λ w hash. ok record {
    status = "success";
    logs = record { address = registry_address; data_hex = hash; topics = [] } ∷ [];
  };
  decode_event_log = λ d topics. some ("AgentRegistered", 9);
  verify_self_register = λ d r signature. ok (text_eq signature r.name);
}

abbrev config : RegistrationConfig
config = record {
  chain_id = 1;
  agent_registry_address = registry_address;
  relayer_private_key = some (codes "0xke");
  asset_symbol = codes "USDC";
  decimals = 6;
  network = codes "eip155:1";
  facilitator_url = codes "url";
}

abbrev body : AgentRegistrationRequest
body = record {
  vault = codes "0xva";
  name = codes "bot";
  metadata_uri = codes "ipfs";
  signer = signer;
  link_erc8004 = false;
  erc8004_agent_id = codes "0";
  deadline = codes "110";
  signature = codes "bot";
}

abbrev checked : CheckedRegistration
checked = record {
  parsed = record {
    vault = codes "0xva";
    name = codes "bot";
    metadata_uri = codes "ipfs";
    signer = signer;
    link_erc8004 = false;
    erc8004_agent_id = 0;
    nonce = 4;
    deadline = 110;
  };
  key = codes "0xke";
  fee = fee;
}

register-guarded_example :
    ((e : RegistrationFailure) × (register registry config body 0 ≡ (0, err e)))
    ⊎ ((c : CheckedRegistration) × IsAllowed registry config 0 body c
        × (register registry config body 0
            ≡ registered_response c.fee.amount
                (register_with_relayer registry registry_address c.key signer c.parsed 0)))
register-guarded_example = register-guarded registry config 0 body

passes : checked_registration registry config 0 body ≡ ok checked
unfolding checked_registration parse_request big_nat big_int get_registration_fee
    atomic_usdc_to_usd_string to_string
passes = refl

register_again_example :
    register registry config body 1
    ≡ registered_response 0
        (register_with_relayer registry registry_address (codes "0xke") signer checked.parsed 1)
unfolding get_registration_fee
register_again_example =
    register_again registry config 0 body 1 refl refl refl checked passes (omega arith)

-- The second agent is registered.
agents_counted : (register registry config body 1).0 ≡ 2
unfolding register checked_registration parse_request big_nat big_int register_with_relayer to_lower
    get_registration_fee
agents_counted = refl

get_registration_quote-IsPriced_example :
    (q : AgentRegistrationQuote) × (get_registration_quote registry config 0 (some signer) ≡ ok q)
    × IsPriced fee q
unfolding get_registration_fee atomic_usdc_to_usd_string to_string
get_registration_quote-IsPriced_example =
    get_registration_quote-IsPriced registry config 0 (some signer) fee (some (codes "4"))
      (record { name = codes "AR"; version = codes "1" }) refl refl refl

parse_human_amount-usd_example :
    (w : Text) × (f : Option Text) × Parts w f
    × (atomic_usdc_to_usd_string 1250000 6 ≡ b'$' ∷ written w f)
    × (parse_human_amount (written w f) 6 ≡ ok (pos 1250000))
parse_human_amount-usd_example = parse_human_amount-usd 1250000 6

one_dollar_and_a_quarter : atomic_usdc_to_usd_string 1250000 6 ≡ codes "$1.25"
unfolding atomic_usdc_to_usd_string to_string without_last_zeros pad_start
one_dollar_and_a_quarter = refl
