-- ===== src/Drafts/Signing.antt =====
-- api/src/services/agent-launch.service.ts, what a launch computes before it writes: the check of
-- the columns, the message and its signature. Keys, signatures and the chain are arguments.
use protocol_monorepo.Common.{
  ℕ, ◌+◌, String, ◌==◌, [], ◌∷◌, map, if◌then◌else◌, Option, none, some, Result, ok, err, ◌>>=◌,
}
use protocol_monorepo.Common.Int.{ℤ}
use protocol_monorepo.Common.Text.{Text, to_lower}
use protocol_monorepo.Strategy.Cooldown.{BotFrequency}
use protocol_monorepo.Db.Actions.{Failure, app_error}
use protocol_monorepo.Db.DraftRows.{AgentIdentity, AgentDraftRow}
use protocol_monorepo.Drafts.Service.{frequency_of}
use protocol_monorepo.Drafts.Wallet.{decrypt_signer_from_row}
use protocol_monorepo.Managed.{Registration}

-- The fields of the message that are not constants of the source.
pub record SelfRegister : Type 0 where
  pub vault : Text
  pub name : Text
  pub metadata_uri : Text
  pub signer : Text
  pub nonce : ℕ
  pub deadline : ℕ

-- What the launch asks of the other services and of the chain.
pub record LaunchServices : Type 0 where
  pub registration : Registration
  pub decrypt : Text → Result Failure Text
  pub metadata_uri : AgentIdentity → Text
  pub relayer_private_key : Result Failure (Option Text)
  pub signer_nonce : Text → Result Failure ℕ
  pub sign : Text → SelfRegister → Result Failure Text
  pub register : Text → Text → SelfRegister → Text → Result Failure (String × Text)
  pub registration_fee : Result Failure ℕ
  pub to_iso : ℤ → Text

-- The readings of the clock: seconds for the deadline, the time of the launch, that of a failure,
-- and milliseconds for the first run.
pub record LaunchTimes : Type 0 where
  pub now_seconds : ℕ
  pub launched_at : Text
  pub failed_at : Text
  pub scheduled_ms : ℤ

-- The status `pending` and the redirect, which follow from these, are left out.
pub record LaunchAgentResult : Type 0 where
  pub agent_id : String
  pub tx_hash : Text

abbrev pub pricing_tier_from_registration_fee : ℕ → String
pricing_tier_from_registration_fee amount = if amount == 0 then "free" else "paid"

-- The columns that a launch needs.
pub record ReadyDraft : Type 0 where
  pub identity : AgentIdentity
  pub vault_address : Text
  pub encrypted_key : Text
  pub strategy : Text
  pub bot_frequency : BotFrequency
  pub frequency_text : Text

abbrev incomplete : Failure
incomplete = app_error "Draft is incomplete" 400

abbrev pub ready_with :
    AgentIdentity → Text → Text → Text → Text → Option BotFrequency → Result Failure ReadyDraft
ready_with identity vault key strategy text none =
    err (app_error "Bot frequency must be 1h or 1d" 400)
ready_with identity vault key strategy text (some frequency) = ok record {
  identity = identity;
  vault_address = vault;
  encrypted_key = key;
  strategy = strategy;
  bot_frequency = frequency;
  frequency_text = text;
}

abbrev pub ready_columns :
    Option AgentIdentity
    → Option Text
    → Option Text
    → Option Text
    → Option Text
    → Result Failure ReadyDraft
ready_columns (some identity) (some (v ∷ vs)) (some (k ∷ ks)) (some (s ∷ ss)) (some (f ∷ fs)) =
    ready_with identity (v ∷ vs) (k ∷ ks) (s ∷ ss) (f ∷ fs) (frequency_of (f ∷ fs))
ready_columns _ _ _ _ _ = err incomplete

-- `assertLaunchReady`, with the columns that it finds.
unfoldable pub assert_launch_ready : AgentDraftRow → Result Failure ReadyDraft
assert_launch_ready row =
    ready_columns row.identity row.vault_address row.encrypted_signer_key row.strategy
      row.bot_frequency

pub record Signed : Type 0 where
  pub signer_address : Text
  pub message : SelfRegister
  pub signature : Text
  pub relayer_key : Text

abbrev pub message_for : LaunchServices → ℕ → ReadyDraft → Text → ℕ → SelfRegister
message_for services now_seconds ready signer nonce = record {
  vault = map to_lower ready.vault_address;
  name = ready.identity.name;
  metadata_uri = services.metadata_uri ready.identity;
  signer = signer;
  nonce = nonce;
  deadline = now_seconds + 3600;
}

-- `if (!config.relayerPrivateKey) throw …`
abbrev relayer_key_of : Option Text → Result Failure Text
relayer_key_of none = err (app_error "RELAYER_PRIVATE_KEY is not configured" 503)
relayer_key_of (some []) = err (app_error "RELAYER_PRIVATE_KEY is not configured" 503)
relayer_key_of (some (c ∷ key)) = ok (c ∷ key)

-- From `decryptSignerFromRow` to the check of the relayer's key.
unfoldable pub sign_launch : LaunchServices → ℕ → AgentDraftRow → ReadyDraft → Result Failure Signed
sign_launch services now_seconds row ready = do
  (key, signer) ← decrypt_signer_from_row services.decrypt row
  relayer ← services.relayer_private_key
  nonce ← services.signer_nonce signer
  let message = message_for services now_seconds ready signer nonce
  signature ← services.sign key message
  relayer_key ← relayer_key_of relayer
  ok record {
    signer_address = signer;
    message = message;
    signature = signature;
    relayer_key = relayer_key;
  }
