-- ===== src/Registration/Quote/Price.antt =====
-- What a quote says of the price, and what a registration then is charged.
use protocol_monorepo.Common.{
  ◌≡◌, refl, ◌∷◌, ◌↔◌, true, Option, none, some, ok, Yields, >>=-Yields, >>=-ok, ◌<◌, arith, subst,
  ◌∙◌,
}
use protocol_monorepo.Common.Int.{pos}
use protocol_monorepo.Common.Text.{Text}
use protocol_monorepo.Common.Decimal.{big_int}
use protocol_monorepo.Common.Decimal.Print.{big_int-to_string}
use protocol_monorepo.Tokens.Amount.{parse_human_amount}
use protocol_monorepo.Tokens.Amount.Written.{written}
use protocol_monorepo.Tokens.Usd.{atomic_usdc_to_usd_string}
use protocol_monorepo.Tokens.Usd.Shown.{parse_human_amount-usd}
use protocol_monorepo.Orders.Chain.{Eip712Domain}
use protocol_monorepo.Registration.Agents.{
  Registry, RegistrationConfig, RegistrationFee, get_registration_fee,
}
use protocol_monorepo.Registration.Quote.{
  AgentRegistrationQuote, quoted_nonce, get_registration_quote,
}

-- A quote of a fee.
pub record IsPriced (fee : RegistrationFee) (quote : AgentRegistrationQuote) : Type 0 where
  pub amount_back : big_int quote.registration_fee.amount ≡ some (pos fee.amount)
  pub shown : Text
  pub in_dollars : quote.registration_fee.display_usd ≡ b'$' ∷ shown
  pub dollars_back : parse_human_amount shown 6 ≡ ok (pos fee.amount)
  pub paid : (quote.x402.enabled ≡ true) ↔ (0 < fee.amount)
  pub network_free : (quote.x402.network ≡ none) ↔ (fee.amount ≡ 0)
  pub url_free : (quote.x402.facilitator_url ≡ none) ↔ (fee.amount ≡ 0)
  pub token : quote.registration_fee.token_address ≡ fee.fee_asset
  pub receiver : quote.x402.pay_to ≡ fee.treasury

module _ {W : Type 0} (registry : Registry W) where
  abbrev IsShown : RegistrationFee → Type 0
  IsShown fee = fee.display_usd ≡ atomic_usdc_to_usd_string fee.amount 6

  get_registration_fee-IsShown : (w : W) → Yields IsShown (get_registration_fee registry w)
  unfolding get_registration_fee
  get_registration_fee-IsShown w = >>=-Yields IsShown (registry.registration_fee w) _ λ amount _.
      >>=-Yields IsShown (registry.treasury w) _
        λ treasury _. >>=-Yields IsShown (registry.fee_asset w) _ λ fee_asset _. refl

  module _ (config : RegistrationConfig) (w : W) (signer : Option Text) where
    -- Where the fee, the nonce of the signer, if one is given, and the domain can be read, getQuote
    -- returns a quote whose amount is read back by BigInt as the fee, whose price in dollars is, behind
    -- the dollar sign, read back by parseHumanAmount as the fee, which enables payments exactly if the
    -- fee is above zero, names a network and a facilitator in no other case, and has the fee's token
    -- and treasury.
    pub get_registration_quote-IsPriced :
        (fee : RegistrationFee) (nonce : Option Text) (domain : Eip712Domain)
        → get_registration_fee registry w ≡ ok fee
        → quoted_nonce registry config w signer ≡ ok nonce
        → registry.eip712_domain w ≡ ok domain
        → (q : AgentRegistrationQuote) × (get_registration_quote registry config w signer ≡ ok q)
          × IsPriced fee q
    unfolding get_registration_quote
    get_registration_quote-IsPriced fee nonce domain charged read named =
        let display : fee.display_usd ≡ atomic_usdc_to_usd_string fee.amount 6 =
          subst (Yields IsShown) charged (get_registration_fee-IsShown w) in
        let (whole, frac, _, text, back) = parse_human_amount-usd fee.amount 6 in
        (
          _,
          >>=-ok (get_registration_fee registry w) _ fee charged (
              >>=-ok (quoted_nonce registry config w signer) _ nonce read
                (>>=-ok (registry.eip712_domain w) _ domain named refl)),
          record {
            amount_back = big_int-to_string fee.amount;
            shown = written whole frac;
            in_dollars = display ∙ text;
            dollars_back = back;
            paid = ((λ h. ground arith), λ h. ground arith);
            network_free = ((λ h. ground arith), λ h. ground arith);
            url_free = ((λ h. ground arith), λ h. ground arith);
            token = refl;
            receiver = refl;
          },
        )
