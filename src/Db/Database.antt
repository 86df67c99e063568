-- ===== src/Db/Database.antt =====
-- The tables of the managed agents together, and the actions that read and write them.
use protocol_monorepo.Common.{List, Result, ok, err}
use protocol_monorepo.Db.Actions.{Failure, Action}
use protocol_monorepo.Db.Profiles.{AgentProfileRow}
use protocol_monorepo.Db.Signers.{AgentSignerRow}
use protocol_monorepo.Db.DraftRows.{AgentDraftRow}

pub record Database : Type 0 where
  pub drafts : List AgentDraftRow
  pub profiles : List AgentProfileRow
  pub signers : List AgentSignerRow

module _ {A : Type 0} where
  -- A write that is refused leaves its table as it was.
  abbrev pub stored_drafts :
      Database → Result Failure (A × List AgentDraftRow) → Database × Result Failure A
  stored_drafts db (err e) = (db, err e)
  stored_drafts db (ok (a, rows)) = (record db { drafts = rows }, ok a)

  abbrev pub on_drafts :
      (List AgentDraftRow → Result Failure (A × List AgentDraftRow)) → Action Database A
  on_drafts write db = stored_drafts db (write db.drafts)

  abbrev pub on_profiles : (List AgentProfileRow → A × List AgentProfileRow) → Action Database A
  on_profiles write db = let (a, rows) = write db.profiles in (record db { profiles = rows }, ok a)

abbrev pub stored_profiles :
    Database → Result Failure (List AgentProfileRow) → Database × Result Failure (Unit {0})
stored_profiles db (err e) = (db, err e)
stored_profiles db (ok rows) = (record db { profiles = rows }, ok tt)

abbrev pub stored_signers :
    Database → Result Failure (List AgentSignerRow) → Database × Result Failure (Unit {0})
stored_signers db (err e) = (db, err e)
stored_signers db (ok rows) = (record db { signers = rows }, ok tt)

abbrev pub insert_profile :
    (List AgentProfileRow → Result Failure (List AgentProfileRow)) → Action Database (Unit {0})
insert_profile write db = stored_profiles db (write db.profiles)

abbrev pub insert_signer :
    (List AgentSignerRow → Result Failure (List AgentSignerRow)) → Action Database (Unit {0})
insert_signer write db = stored_signers db (write db.signers)

abbrev pub map_signers : (List AgentSignerRow → List AgentSignerRow) → Action Database (Unit {0})
map_signers write db = (record db { signers = write db.signers }, ok tt)
