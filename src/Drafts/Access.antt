-- ===== src/Drafts/Access.antt =====
-- Who may act on a draft, and when.
use protocol_monorepo.Common.{
  String, Bool, true, false, map, Option, none, some, Result, err, ◌≡◌, refl,
}
use protocol_monorepo.Common.Text.{Text, text_eq, to_lower}
use protocol_monorepo.Db.Actions.{Failure, app_error}
use protocol_monorepo.Db.DraftRows.{AgentDraftRow, draft_not_found, find_draft, is_status_draft}
use protocol_monorepo.Db.Database.{Database}
use protocol_monorepo.Drafts.Service.{
  Deployment, UpdateAgentDraftBody, require_owned_draft, require_editable_draft, get_draft,
  update_draft, abandon_draft,
}
use protocol_monorepo.Drafts.Wallet.{KeyPair, provision_wallet, decrypt_draft_signer_key}
use protocol_monorepo.Drafts.Signing.{LaunchServices, LaunchTimes}
use protocol_monorepo.Drafts.Launch.{prepare_launch, launch_draft}

abbrev pub not_editable : Failure
not_editable = app_error "Agent draft is not editable" 400

-- Whether a row is there and is the caller's.
abbrev pub owns : Text → Option AgentDraftRow → Bool
owns caller none = false
owns caller (some row) = text_eq (map to_lower row.owner_address) (map to_lower caller)

module _ (id : String) (caller : Text) (db : Database) where
  owned_of :
      (o : Option AgentDraftRow)
      → find_draft id db.drafts ≡ o
      → owns caller o ≡ false
      → require_owned_draft id caller db ≡ (db, err draft_not_found)
  unfolding require_owned_draft
  owned_of none found e = rw found refl
  owned_of (some row) found e = rw (found, e) refl

  pub require_owned_draft_denied :
      owns caller (find_draft id db.drafts) ≡ false
      → require_owned_draft id caller db ≡ (db, err draft_not_found)
  require_owned_draft_denied = owned_of (find_draft id db.drafts) refl

  require_editable_draft_denied :
      owns caller (find_draft id db.drafts) ≡ false
      → require_editable_draft id caller db ≡ (db, err draft_not_found)
  unfolding require_editable_draft
  require_editable_draft_denied e = rw (require_owned_draft_denied e) refl

  -- A caller who does not own the draft, or who names none, is answered 404 by every request on it,
  -- and the database stays as it was.
  pub draft_requests_denied :
      (deployment : Deployment) (services : LaunchServices) (times : LaunchTimes)
      (decrypt : Text → Result Failure Text) (pair : KeyPair) (updated_at : Text)
      (body : UpdateAgentDraftBody)
      → owns caller (find_draft id db.drafts) ≡ false
      → (get_draft deployment id caller db ≡ (db, err draft_not_found))
        × (update_draft deployment id caller updated_at body db ≡ (db, err draft_not_found))
        × (abandon_draft id caller updated_at db ≡ (db, err draft_not_found))
        × (provision_wallet id caller pair updated_at db ≡ (db, err draft_not_found))
        × (decrypt_draft_signer_key decrypt id caller db ≡ (db, err draft_not_found))
        × (launch_draft services times id caller db ≡ (db, err draft_not_found))
  unfolding get_draft update_draft abandon_draft provision_wallet decrypt_draft_signer_key
      launch_draft prepare_launch
  draft_requests_denied deployment services times decrypt pair updated_at body e = (
    rw (require_owned_draft_denied e) refl,
    rw (require_editable_draft_denied e) refl,
    rw (require_owned_draft_denied e) refl,
    rw (require_editable_draft_denied e) refl,
    rw (require_owned_draft_denied e) refl,
    rw (require_editable_draft_denied e) refl,
  )

  settled_of :
      (row : AgentDraftRow)
      → find_draft id db.drafts ≡ some row
      → owns caller (some row) ≡ true
      → is_status_draft row.status ≡ false
      → require_editable_draft id caller db ≡ (db, err not_editable)
  unfolding require_editable_draft require_owned_draft
  settled_of row found own status = rw (found, own, status) refl

  -- Of a draft that is launching, launched or abandoned its owner may not change anything but
  -- abandon it: an update, the wallet and a launch are answered 400, and the database stays as it was.
  pub settled_draft_refused :
      (deployment : Deployment) (services : LaunchServices) (times : LaunchTimes) (pair : KeyPair)
      (updated_at : Text) (body : UpdateAgentDraftBody) (row : AgentDraftRow)
      → find_draft id db.drafts ≡ some row
      → owns caller (some row) ≡ true
      → is_status_draft row.status ≡ false
      → (update_draft deployment id caller updated_at body db ≡ (db, err not_editable))
        × (provision_wallet id caller pair updated_at db ≡ (db, err not_editable))
        × (launch_draft services times id caller db ≡ (db, err not_editable))
  unfolding update_draft provision_wallet launch_draft prepare_launch
  settled_draft_refused deployment services times pair updated_at body row found own status = (
    rw (settled_of row found own status) refl,
    rw (settled_of row found own status) refl,
    rw (settled_of row found own status) refl,
  )
