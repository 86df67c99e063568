-- ===== src/Registration/Replay.antt =====
-- What becomes of a request that comes a second time.
use protocol_monorepo.Common.{
  ℕ, ◌≤◌, ◌≡◌, refl, not, ok, Yields, >>=-Yields, >>=-ok, fail_if, or_fail, ltb, arith, subst, sym,
  ap,
}
use protocol_monorepo.Orders.Errors.{big_nat}
use protocol_monorepo.Registration.Guards.{IsOf, parse_request-IsOf}
use protocol_monorepo.Registration.Agents.{
  SelfRegisterTypedData, Registry, RegistrationConfig, as_registration, get_registration_fee,
  register_with_relayer,
}
use protocol_monorepo.Registration.Service.{
  AgentRegistrationRequest, CheckedRegistration, parse_request, registered_response,
  checked_registration, submit_relayer_registration, register,
}

in_time :
    {E : Type 0} (deadline now : ℕ) (e : E) → now ≤ deadline → fail_if (ltb deadline now) e ≡ ok tt
in_time deadline now e h = ground arith

-- The deadline is the only thing that is read from the time.
abbrev IsParsed : ℕ → AgentRegistrationRequest → SelfRegisterTypedData → Type 0
IsParsed later body request = later ≤ request.deadline → parse_request later body ≡ ok request

parse_request-IsParsed :
    (now later : ℕ) (body : AgentRegistrationRequest)
    → Yields (IsParsed later body) (parse_request now body)
unfolding parse_request
parse_request-IsParsed now later body =
    >>=-Yields (IsParsed later body) (as_registration (big_nat body.deadline)) _ λ deadline read.
      >>=-Yields (IsParsed later body) (fail_if (ltb deadline now) _) _ λ _ _.
        >>=-Yields (IsParsed later body) (as_registration (big_nat body.erc8004_agent_id)) _
          λ id same alive. >>=-ok (as_registration (big_nat body.deadline)) _ deadline read (
            >>=-ok (fail_if (ltb deadline later) _) _ tt (in_time deadline later _ alive)
              (>>=-ok (as_registration (big_nat body.erc8004_agent_id)) _ id same refl))

module _ {W : Type 0} (registry : Registry W) (config : RegistrationConfig) (w : W)
    (body : AgentRegistrationRequest) where
  -- Another time at which the registry answers as it does now.
  module _ (later : W)
      (same_nonce : registry.signer_nonce later body.signer ≡ registry.signer_nonce w body.signer)
      (same_domain : registry.eip712_domain later ≡ registry.eip712_domain w)
      (same_fee : get_registration_fee registry later ≡ get_registration_fee registry w) where
    nonce_of :
        (request : SelfRegisterTypedData)
        → IsOf (registry.now w) body request
        → registry.signer_nonce later request.signer ≡ registry.signer_nonce w request.signer
    nonce_of request fields =
        subst (λ s. registry.signer_nonce later s ≡ registry.signer_nonce w s)
          (sym fields.own_signer) same_nonce

    abbrev IsRepeated : CheckedRegistration → Type 0
    IsRepeated checked =
        registry.now later ≤ checked.parsed.deadline
        → checked_registration registry config later body ≡ ok checked

    checked_registration-IsRepeated :
        Yields IsRepeated (checked_registration registry config w body)
    unfolding checked_registration
    checked_registration-IsRepeated =
        >>=-Yields IsRepeated (parse_request (registry.now w) body) _ λ request parsed.
          let fields : IsOf (registry.now w) body request =
            subst (Yields (IsOf (registry.now w) body)) parsed
              (parse_request-IsOf (registry.now w) body) in
          let again : IsParsed (registry.now later) body request =
            subst (Yields (IsParsed (registry.now later) body)) parsed
              (parse_request-IsParsed (registry.now w) (registry.now later) body) in
          >>=-Yields IsRepeated (as_registration (registry.signer_nonce w request.signer)) _
            λ nonce next.
              >>=-Yields IsRepeated (as_registration (registry.eip712_domain w)) _ λ domain named.
                >>=-Yields IsRepeated (as_registration (registry.verify_self_register _ _ _)) _
                  λ valid verified. >>=-Yields IsRepeated (fail_if (not valid) _) _ λ _ signed.
                    >>=-Yields IsRepeated (or_fail config.relayer_private_key _) _ λ key own.
                      >>=-Yields IsRepeated (as_registration (get_registration_fee registry w)) _
                        λ fee charged alive.
                          >>=-ok (parse_request (registry.now later) body) _ request (again alive) (
                            >>=-ok (as_registration (registry.signer_nonce later request.signer)) _
                              nonce (rw (nonce_of request fields) next)
                              (>>=-ok (as_registration (registry.eip712_domain later)) _ domain
                                (rw same_domain named)
                                (>>=-ok (as_registration (registry.verify_self_register _ _ _)) _
                                  valid verified
                                  (>>=-ok (fail_if (not valid) _) _ tt signed (
                                    >>=-ok (or_fail config.relayer_private_key _) _ key own (
                                      >>=-ok (as_registration (get_registration_fee registry later))
                                        _ fee (rw same_fee charged) refl))))))

    -- A request that has passed every check passes them again, to the same registration, as long as
    -- its deadline has not passed and the registry answers the same for the signer's nonce, its
    -- domain and the fee: `register` then sends the relayer's transaction once more.
    pub register_again :
        (checked : CheckedRegistration)
        → checked_registration registry config w body ≡ ok checked
        → registry.now later ≤ checked.parsed.deadline
        → register registry config body later
          ≡ registered_response checked.fee.amount (
              register_with_relayer registry config.agent_registry_address checked.key
                checked.parsed.signer checked.parsed later)
    unfolding register
    register_again checked passed alive =
        ap (submit_relayer_registration registry config later)
          (subst (Yields IsRepeated) passed checked_registration-IsRepeated alive)
