-- ===== src/Tokens/Catalog.antt =====
-- api/src/lib/tokens/catalog.ts. The catalog itself is a JSON file, an argument here: the listed
-- tokens, and for each chain the address of each symbol (or null).
use protocol_monorepo.Common.{
  ℕ, String, Bool, false, Option, none, some, List, [], ◌∷◌, map, str_eq, ◌==◌, if◌then◌else◌,
  get_or_else,
}
use protocol_monorepo.Common.Text.{Text, to_lower, text_eq}

pub record TokenCatalogEntry : Type 0 where
  pub symbol : String
  pub finnhub_symbol : Option String

pub record TokenCatalog : Type 0 where
  pub tokens : List TokenCatalogEntry
  pub chains : List (ℕ × List (String × Option Text))

-- A missing key and a null address are both `none`.
unfoldable pub address_of : String → List (String × Option Text) → Option Text
address_of symbol [] = none
address_of symbol ((k, a) ∷ more) = if str_eq k symbol then a else address_of symbol more

-- `tokenCatalog.chains[String(chainId)]?.tokens ?? {}`
unfoldable pub chain_tokens :
    ℕ → List (ℕ × List (String × Option Text)) → List (String × Option Text)
chain_tokens chain_id [] = []
chain_tokens chain_id ((k, ts) ∷ more) = if k == chain_id then ts else chain_tokens chain_id more

-- An empty address is falsy, as null is.
falsy_as_none : Option Text → Option Text
falsy_as_none none = none
falsy_as_none (some []) = none
falsy_as_none (some (c ∷ s)) = some (c ∷ s)

module _ (catalog : TokenCatalog) where
  unfoldable pub chain_token_address : ℕ → String → Option Text
  unfolding falsy_as_none address_of chain_tokens
  chain_token_address chain_id symbol =
      falsy_as_none (address_of symbol (chain_tokens chain_id catalog.chains))

  -- `tokenAddress?.toLowerCase() === normalized`
  has_address : Text → Option Text → Bool
  has_address normalized none = false
  has_address normalized (some a) = text_eq (map to_lower a) normalized

  entry_with_address :
      Text → List (String × Option Text) → List TokenCatalogEntry → Option TokenCatalogEntry
  entry_with_address normalized on_chain [] = none
  entry_with_address normalized on_chain (entry ∷ more) =
      if has_address normalized (address_of entry.symbol on_chain)
      then some entry
      else entry_with_address normalized on_chain more

  pub catalog_entry_for_address : ℕ → Text → Option TokenCatalogEntry
  unfolding entry_with_address has_address address_of chain_tokens
  catalog_entry_for_address chain_id address =
      entry_with_address (map to_lower address) (chain_tokens chain_id catalog.chains)
        catalog.tokens

pub finnhub_symbol_for : TokenCatalogEntry → String
finnhub_symbol_for entry = get_or_else entry.finnhub_symbol entry.symbol
