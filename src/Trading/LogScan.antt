-- ===== src/Trading/LogScan.antt =====
-- api/src/lib/trading/trade-log-scan.ts and log-from-block.ts: the windows of a backward log scan,
-- and the fetch that halves a range which the provider refuses. Block numbers are natural; a range
-- `from`..`to` with `to` below `from` has the span 0 here and a span of at most 0 in the source,
-- which every comparison treats alike.
pub mod Windows
pub mod Halving
use protocol_monorepo.Common.{
  ℕ, zero, suc, ◌+◌, ◌-◌, ◌/◌, Bool, not, ◌||◌, Option, none, some, List, [], ◌∷◌, ◌++◌, map, ltb,
  leb, if◌then◌else◌, Result, ok, err,
}
use protocol_monorepo.Common.Text.{Text, codes, to_lower, includes, join}

abbrev pub max_log_block_range : ℕ
max_log_block_range = 999

abbrev pub max_consecutive_empty_log_chunks : ℕ
max_consecutive_empty_log_chunks = 32

abbrev pub max_log_scan_chunks : ℕ
max_log_scan_chunks = 128

pub record Window : Type 0 where
  pub from_block : ℕ
  pub to_block : ℕ

unfoldable pub log_scan_window : ℕ → ℕ → ℕ → Window
log_scan_window to_block max_range min_scan_block =
    let raw_from = if leb max_range to_block then to_block - max_range + 1 else 0 in
    record {
      from_block = if ltb raw_from min_scan_block then min_scan_block else raw_from;
      to_block = to_block;
    }

unfoldable pub block_range_span : ℕ → ℕ → ℕ
block_range_span from_block to_block = to_block + 1 - from_block

-- `undefined` and null stand alike in both parameters.
pub resolve_min_log_scan_block : Option ℕ → Option ℕ → ℕ
resolve_min_log_scan_block none none = 0
resolve_min_log_scan_block (some chain) none = chain
resolve_min_log_scan_block none (some query) = if ltb 0 query then query else 0
resolve_min_log_scan_block (some chain) (some query) = if ltb chain query then query else chain

-- A thrown value: an `Error`, another object with its string fields and its cause, or neither.
pub data Thrown : Type 0 where
  error_instance : Text → Thrown
  object : (message details short_message : Option Text) → Thrown → Thrown
  primitive : Thrown

-- `if (typeof value === 'string') parts.push(value)`
abbrev push_text : Option Text → List Text → List Text
push_text none parts = parts
push_text (some t) parts = t ∷ parts

-- The loop over the chain of causes, at most `depth` links deep.
unfoldable pub error_parts : ℕ → Thrown → List Text
error_parts zero e = []
error_parts (suc depth) (error_instance message) = message ∷ []
error_parts (suc depth) (object message details short cause) =
    push_text message (push_text details (push_text short (error_parts depth cause)))
error_parts (suc depth) primitive = []

unfoldable pub is_log_block_range_limit_error : Thrown → Bool
unfolding error_parts includes join to_lower
is_log_block_range_limit_error e =
    let combined = map to_lower (join (codes " ") (error_parts 4 e)) in
    includes (codes "maximum allowed number of requested blocks") combined
    || includes (codes "eth_getlogs is limited") combined
    || includes (codes "log response size exceeded") combined
    || includes (codes "request exceeds defined limit") combined

-- `Promise.all` on two fetches, which rejects as soon as one of them does; `none` is a call that has
-- not ended within the fuel, and `race a b` is the one of two rejections that comes first.
unfoldable pub both :
    {T : Type 0}
    → (Thrown → Thrown → Thrown)
    → Option (Result Thrown (List T))
    → Option (Result Thrown (List T))
    → Option (Result Thrown (List T))
both race none none = none
both race none (some (ok right)) = none
both race none (some (err e)) = some (err e)
both race (some (ok left)) none = none
both race (some (err e)) none = some (err e)
both race (some (ok left)) (some (ok right)) = some (ok (left ++ right))
both race (some (ok left)) (some (err e)) = some (err e)
both race (some (err e)) (some (ok right)) = some (err e)
both race (some (err e)) (some (err f)) = some (err (race e f))

-- `fetch` is the provider's query.
module _ {T : Type 0} (fetch : ℕ → ℕ → Result Thrown (List T)) (race : Thrown → Thrown → Thrown)
    (min_block_range : ℕ) where
  unfoldable pub fetch_in_adaptive_block_range : ℕ → ℕ → ℕ → Option (Result Thrown (List T))
  fetch_in_adaptive_block_range zero from_block to_block = none
  fetch_in_adaptive_block_range (suc fuel) from_block to_block = elim (fetch from_block to_block) [
    | ok logs ↦ some (ok logs)
    | err e ↦
        let span = block_range_span from_block to_block in
        let mid = from_block + span / 2 in
        let halves =
          both race (fetch_in_adaptive_block_range fuel from_block mid)
            (fetch_in_adaptive_block_range fuel (mid + 1) to_block) in
        if not (is_log_block_range_limit_error e)
        then some (err e)
        else if leb span min_block_range
        then some (err e)
        else halves
  ]
