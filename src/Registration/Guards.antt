-- ===== src/Registration/Guards.antt =====
-- What must hold before `register` sends a transaction.
use protocol_monorepo.Common.{
  ℕ, ◌≤◌, ◌≡◌, refl, ◌⊎◌, inl, inr, not, true, Option, none, some, Result, ok, err, Yields,
  >>=-Yields, fail_if, or_fail, ltb, arith, subst,
}
use protocol_monorepo.Orders.Errors.{OrderFailure, big_nat}
use protocol_monorepo.Orders.Chain.{Eip712Domain}
use protocol_monorepo.Orders.Checks.Passed.{require_true}
use protocol_monorepo.Registration.Agents.{
  RegistrationFailure, SelfRegisterTypedData, Registry, RegistrationConfig, as_registration,
  get_registration_fee, register_with_relayer,
}
use protocol_monorepo.Registration.Service.{
  AgentRegistrationRequest, CheckedRegistration, parse_request, with_nonce, registration_domain,
  registered_response, checked_registration, submit_relayer_registration, register,
}

pub as_registration_passed :
    {A : Type 0} (r : Result OrderFailure A) (a : A) → as_registration r ≡ ok a → r ≡ ok a
as_registration_passed (ok b) a h = cc
as_registration_passed (err e) a h = cc

pub or_fail_passed :
    {A : Type 0} (o : Option A) (a : A) (e : RegistrationFailure) → or_fail o e ≡ ok a → o ≡ some a
or_fail_passed none a e h = cc
or_fail_passed (some b) a e h = cc

-- The fields that the request names, and its deadline.
pub record IsOf (now : ℕ) (body : AgentRegistrationRequest) (data_signed : SelfRegisterTypedData)
    : Type 0 where
  pub own_vault : data_signed.vault ≡ body.vault
  pub own_name : data_signed.name ≡ body.name
  pub own_uri : data_signed.metadata_uri ≡ body.metadata_uri
  pub own_signer : data_signed.signer ≡ body.signer
  pub own_link : data_signed.link_erc8004 ≡ body.link_erc8004
  pub own_erc8004 : big_nat body.erc8004_agent_id ≡ ok data_signed.erc8004_agent_id
  pub own_deadline : big_nat body.deadline ≡ ok data_signed.deadline
  pub alive : now ≤ data_signed.deadline

-- The nonce is none of them.
with_nonce-IsOf :
    (now : ℕ) (body : AgentRegistrationRequest) (request : SelfRegisterTypedData) (nonce : ℕ)
    → IsOf now body request
    → IsOf now body (with_nonce request nonce)
with_nonce-IsOf now body request nonce fields = record {
  own_vault = fields.own_vault;
  own_name = fields.own_name;
  own_uri = fields.own_uri;
  own_signer = fields.own_signer;
  own_link = fields.own_link;
  own_erc8004 = fields.own_erc8004;
  own_deadline = fields.own_deadline;
  alive = fields.alive;
}

not_late :
    {E : Type 0} (deadline now : ℕ) (e : E) → fail_if (ltb deadline now) e ≡ ok tt → now ≤ deadline
not_late deadline now e h = ground arith

pub parse_request-IsOf :
    (now : ℕ) (body : AgentRegistrationRequest) → Yields (IsOf now body) (parse_request now body)
unfolding parse_request
parse_request-IsOf now body =
    >>=-Yields (IsOf now body) (as_registration (big_nat body.deadline)) _ λ deadline read.
      >>=-Yields (IsOf now body) (fail_if (ltb deadline now) _) _ λ _ alive.
        >>=-Yields (IsOf now body) (as_registration (big_nat body.erc8004_agent_id)) _ λ id same.
          record {
            own_vault = refl;
            own_name = refl;
            own_uri = refl;
            own_signer = refl;
            own_link = refl;
            own_erc8004 = as_registration_passed _ id same;
            own_deadline = as_registration_passed _ deadline read;
            alive = not_late deadline now _ alive;
          }

module _ {W : Type 0} (registry : Registry W) (config : RegistrationConfig) (w : W) where
  -- A registration that the registry's state and the request allow.
  pub record IsAllowed (body : AgentRegistrationRequest) (checked : CheckedRegistration)
      : Type 0 where
    pub asked : IsOf (registry.now w) body checked.parsed
    pub next_nonce : registry.signer_nonce w body.signer ≡ ok checked.parsed.nonce
    pub own_key : config.relayer_private_key ≡ some checked.key
    pub own_fee : get_registration_fee registry w ≡ ok checked.fee
    pub domain : Eip712Domain
    pub own_domain : registry.eip712_domain w ≡ ok domain
    pub signed :
        registry.verify_self_register
          (registration_domain config domain)
          checked.parsed
          body.signature
        ≡ ok true

  module _ (body : AgentRegistrationRequest) where
    checked_registration-IsAllowed :
        Yields (IsAllowed body) (checked_registration registry config w body)
    unfolding checked_registration
    checked_registration-IsAllowed =
        >>=-Yields (IsAllowed body) (parse_request (registry.now w) body) _ λ request parsed.
          let fields : IsOf (registry.now w) body request =
            subst (Yields (IsOf (registry.now w) body)) parsed
              (parse_request-IsOf (registry.now w) body) in
          >>=-Yields (IsAllowed body) (as_registration (registry.signer_nonce w request.signer)) _
            λ nonce next.
              >>=-Yields (IsAllowed body) (as_registration (registry.eip712_domain w)) _
                λ domain named.
                  >>=-Yields (IsAllowed body)
                    (as_registration (registry.verify_self_register _ _ _)) _
                    λ valid verified.
                      >>=-Yields (IsAllowed body) (fail_if (not valid) _) _ λ _ signed.
                        >>=-Yields (IsAllowed body) (or_fail config.relayer_private_key _) _
                          λ key own.
                            >>=-Yields (IsAllowed body)
                              (as_registration (get_registration_fee registry w)) _
                              λ fee charged. record {
                                asked = with_nonce-IsOf (registry.now w) body request nonce fields;
                                next_nonce =
                                    subst (λ s. registry.signer_nonce w s ≡ ok nonce)
                                      fields.own_signer (as_registration_passed _ nonce next);
                                own_key = or_fail_passed config.relayer_private_key key _ own;
                                own_fee = as_registration_passed _ fee charged;
                                domain = domain;
                                own_domain = as_registration_passed _ domain named;
                                signed =
                                    rw
                                      (
                                        as_registration_passed _ valid verified,
                                        require_true valid _ signed,
                                      )
                                      refl;
                              }

    submit_relayer_registration-guarded :
        (r : Result RegistrationFailure CheckedRegistration)
        → Yields (IsAllowed body) r
        → ((e : RegistrationFailure) × (submit_relayer_registration registry config w r
              ≡ (w, err e)))
          ⊎ ((checked : CheckedRegistration) × IsAllowed body checked
              × (submit_relayer_registration registry config w r
                  ≡ registered_response checked.fee.amount (
                      register_with_relayer registry config.agent_registry_address checked.key
                        body.signer checked.parsed w)))
    submit_relayer_registration-guarded (err e) h = inl (e, refl)
    submit_relayer_registration-guarded (ok checked) h =
        inr (checked, h, rw (IsOf.own_signer (IsAllowed.asked h)) refl)

    -- Either `register` throws and leaves the registry as it was, or what it does is the relayer's
    -- transaction, with its errors mapped, for a registration of this kind: its fields are those of
    -- the request, the deadline has not passed, the nonce is the one that the registry has for the
    -- signer, the fee is the registry's, the relayer's key is configured, and the signature is
    -- verified to be over this very registration in the registry's domain.
    pub register-guarded :
        ((e : RegistrationFailure) × (register registry config body w ≡ (w, err e)))
        ⊎ ((checked : CheckedRegistration) × IsAllowed body checked
            × (register registry config body w
                ≡ registered_response checked.fee.amount (
                    register_with_relayer registry config.agent_registry_address checked.key
                      body.signer checked.parsed w)))
    unfolding register
    register-guarded =
        submit_relayer_registration-guarded (checked_registration registry config w body)
          checked_registration-IsAllowed
