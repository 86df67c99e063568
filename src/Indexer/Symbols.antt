-- ===== src/Indexer/Symbols.antt =====
-- subgraph/src/lib/token-symbol.ts. A token's bytes stand as their text in hex digits.
use protocol_monorepo.Common.{List, [], ◌∷◌, map, if◌then◌else◌}
use protocol_monorepo.Common.Text.{Text, codes, text_eq, to_lower}

abbrev arbitrum_sepolia_symbols : List (Text × Text)
arbitrum_sepolia_symbols =
    (codes "0xf3a7e86ec487efbb1dfe6ccb380b245fec779462", codes "NVDA")
    ∷ (codes "0x07ac9137418d6c2c4c15e5a342adf06418821e29", codes "META")
    ∷ (codes "0x883ef9be7b3b1bef49fa0bd8b32ceb60fbf95b8c", codes "TSLA")
    ∷ (codes "0x33c2fc51ddd8879c0c3985a89f6ddaf5d3993d20", codes "AAPL")
    ∷ (codes "0x60a8463c9055839c1d7c91944f274298d51b570d", codes "MSFT")
    ∷ (codes "0x371d91fdaee315937f43e280ab2b0683bd7f38c9", codes "COIN")
    ∷ (codes "0xf8a5e376d301579e4a0cd9c47273321e03ce5bab", codes "HOOD")
    ∷ (codes "0x0641f3e1859733ea9044799c446e9ddbfa8810fc", codes "SPY")
    ∷ []

abbrev arbitrum_one_symbols : List (Text × Text)
arbitrum_one_symbols =
    (codes "0xf9630dc1f281eaa3307aa1265256191b7c61f254", codes "NVDA")
    ∷ (codes "0x8817b18210ecf4ace90d328d266ddf593542986b", codes "META")
    ∷ (codes "0x50417978a6368276f8f389c2d59412fbb0dadb71", codes "TSLA")
    ∷ (codes "0x614c2d073f6093dca1d324c011a59b07cf38cde8", codes "AAPL")
    ∷ (codes "0x71fdcb5d39652be80da54dc0ecb6fda532a3699d", codes "MSFT")
    ∷ (codes "0x4ae9d619d5c2b009419ef10b6a07eb6a4aaea4db", codes "COIN")
    ∷ (codes "0x22ec9a44e54339d1dce184a02161e42df857648d", codes "HOOD")
    ∷ (codes "0xa938fa961d29d533c9057f2b0e72854a7753f26e", codes "SPY")
    ∷ []

abbrev symbol_in : List (Text × Text) → Text → Text
symbol_in [] token = token
symbol_in ((hex, symbol) ∷ more) token = if text_eq token hex then symbol else symbol_in more token

unfoldable pub symbol_for_token : Text → Text → Text
symbol_for_token network token =
    if text_eq network (codes "arbitrum-sepolia")
    then symbol_in arbitrum_sepolia_symbols (map to_lower token)
    else if text_eq network (codes "arbitrum-one")
    then symbol_in arbitrum_one_symbols (map to_lower token)
    else map to_lower token
