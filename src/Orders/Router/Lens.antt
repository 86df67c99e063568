-- ===== src/Orders/Router/Lens.antt =====
-- The lens's address is cached.
use protocol_monorepo.Common.{◌≡◌, refl, inl, inr, Bool-cases, Option, none, some, Result, ok, err}
use protocol_monorepo.Common.Text.{Text, text_eq}
use protocol_monorepo.Orders.Errors.{OrderFailure}
use protocol_monorepo.Orders.Chain.{Chain, TradingConfig}
use protocol_monorepo.Orders.Router.{
  LensCache, not_looked_up, no_lens, looked_up, zero_address, cached_lens, lens_from, explicit_or,
  get_trade_router_lens_address,
}

cached_lens-again :
    (lookup : Result OrderFailure Text)
    → lens_from lookup (cached_lens lookup).0 ≡ cached_lens lookup
cached_lens-again (err e) = refl
cached_lens-again (ok lens) = elim (Bool-cases (text_eq lens zero_address)) [
  | inl same ↦ rw same refl
  | inr other ↦ rw other refl
]

lens_from-again :
    (lookup : Result OrderFailure Text) (cache : LensCache)
    → lens_from lookup (lens_from lookup cache).0 ≡ lens_from lookup cache
lens_from-again lookup not_looked_up = cached_lens-again lookup
lens_from-again lookup no_lens = refl
lens_from-again lookup (looked_up lens) = refl

explicit_or-again :
    (explicit : Option Text) (lookup : Result OrderFailure Text) (cache : LensCache)
    → explicit_or explicit lookup (explicit_or explicit lookup cache).0
      ≡ explicit_or explicit lookup cache
explicit_or-again none lookup cache = lens_from-again lookup cache
explicit_or-again (some lens) lookup cache = refl

-- A second call on the same chain state answers what the first did and leaves the cache as it is,
-- whether the first call found a lens, found none, or failed to read.
pub lens_again :
    {W : Type 0} (chain : Chain W) (config : TradingConfig) (w : W) (cache : LensCache)
    → get_trade_router_lens_address chain config w
        (get_trade_router_lens_address chain config w cache).0
      ≡ get_trade_router_lens_address chain config w cache
unfolding get_trade_router_lens_address
lens_again chain config w cache =
    explicit_or-again config.trade_router_lens_address (chain.router_lens w) cache
