-- ===== src/Examples/Scans.antt =====
-- The log scan at concrete inputs.
use mathlib.Core.List.{Perm}
use mathlib.Core.List.Perm
use protocol_monorepo.Common.{
  ℕ, ◌*◌, ◌≡◌, ◌≢◌, ◌<◌, inl, inr, refl, List, [], ◌∷◌, Option, none, some, Result, ok, err, true,
  arith, leb, ◌==◌, if◌then◌else◌, Bool-cases,
}
use protocol_monorepo.Common.Text.{codes, includes, join, to_lower}
use protocol_monorepo.Tokens.Catalog.{TokenCatalog}
use protocol_monorepo.Trading.LogScan.{
  Thrown, error_instance, error_parts, is_log_block_range_limit_error, block_range_span, both,
  fetch_in_adaptive_block_range,
}
use protocol_monorepo.Trading.LogScan.Halving.{
  logs_in, logs_between, Answers, IsCapped, fetch_in_adaptive_block_range-logs_between,
  fetch_in_adaptive_block_range_succeeds,
}
use protocol_monorepo.Trading.Activity.{
  RawActivity, position_opened, trade_router, opened, Client, fetch_agent_trade_activity,
}
use protocol_monorepo.Trading.Activity.Ending.{fetch_agent_trade_activity-total}

too_long : Thrown
too_long = error_instance (codes "Eth_getLogs is limited to a 2 block range")

too_long_limit : is_log_block_range_limit_error too_long ≡ true
unfolding too_long is_log_block_range_limit_error error_parts includes join to_lower
too_long_limit = refl

abbrev first : Thrown → Thrown → Thrown
first a b = a

-- One log in each block, its number; a provider that refuses more than two blocks.
abbrev numbered : ℕ → List ℕ
numbered b = b ∷ []

abbrev provider : ℕ → ℕ → Result Thrown (List ℕ)
provider from_block to_block =
    if leb (block_range_span from_block to_block) 2
    then ok (logs_between numbered from_block to_block)
    else err too_long

provider-Answers : Answers provider first 2 numbered
provider-Answers from_block to_block xs e =
    elim (Bool-cases (leb (block_range_span from_block to_block) 2)) [
      | inl short ↦ ground (arith, short)
      | inr long ↦ absurd (ground (arith, long))
    ]

provider-IsCapped : IsCapped provider first 2
provider-IsCapped from_block to_block =
    elim (Bool-cases (leb (block_range_span from_block to_block) 2)) [
      | inl short ↦ inl (logs_between numbered from_block to_block, rw short)
      | inr long ↦ inr (too_long, rw long, too_long_limit, ground (arith, long))
    ]

short_span : block_range_span 10 14 < 6
unfolding block_range_span
short_span = omega arith

fetch_in_adaptive_block_range_succeeds_example :
    fetch_in_adaptive_block_range provider first 2 6 10 14 ≡ some (ok (logs_between numbered 10 14))
fetch_in_adaptive_block_range_succeeds_example =
    fetch_in_adaptive_block_range_succeeds provider first 2 numbered provider-Answers
      provider-IsCapped 6 10 14 (omega arith) short_span

five_logs :
    fetch_in_adaptive_block_range provider first 2 6 10 14 ≡ some (ok (10 ∷ 11 ∷ 12 ∷ 13 ∷ 14 ∷ []))
unfolding logs_between logs_in fetch_in_adaptive_block_range block_range_span too_long
    is_log_block_range_limit_error error_parts includes join to_lower both
five_logs = refl

fetch_in_adaptive_block_range-logs_between_example :
    10 ∷ 11 ∷ 12 ∷ 13 ∷ 14 ∷ [] ≡ logs_between numbered 10 14
fetch_in_adaptive_block_range-logs_between_example =
    fetch_in_adaptive_block_range-logs_between provider first 2 numbered provider-Answers 6 10 14
      (10 ∷ 11 ∷ 12 ∷ 13 ∷ 14 ∷ []) five_logs

-- One position opened in block 3.
abbrev opening : RawActivity
opening = record {
  type = position_opened;
  position_id = 1;
  block_number = 3;
  transaction_hash = codes "0x01";
  log_index = 0;
  source = trade_router;
  detail = opened (codes "0xdef") (codes "0xabc") none 100;
}

abbrev activities_at : ℕ → List RawActivity
activities_at b = if b == 3 then opening ∷ [] else []

abbrev batch_of : ℕ → ℕ → Option (Result Thrown (List RawActivity))
batch_of from_block to_block = some (ok (logs_between activities_at from_block to_block))

abbrev silent_client : Client
silent_client = record {
  router_events = λ name from_block to_block. ok [];
  closed_events = λ from_block to_block. err too_long;
  block_number = ok 5;
  block_timestamp = λ block. ok (block * 12);
  race = first;
}

abbrev no_tokens : TokenCatalog
no_tokens = record { tokens = []; chains = [] }

fetch_agent_trade_activity-total_example :
    fetch_agent_trade_activity silent_client no_tokens 1 true 10 2 ≢ none
fetch_agent_trade_activity-total_example =
    fetch_agent_trade_activity-total silent_client no_tokens 1 true 10 2
