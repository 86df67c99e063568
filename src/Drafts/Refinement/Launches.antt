-- ===== src/Drafts/Refinement/Launches.antt =====
-- The two parts of a launch, and the life cycle of a draft.
use protocol_monorepo.Common.{ℕ, String, true, leb, List, map, Option, ◌≡◌, refl, arith}
use protocol_monorepo.Common.Text.{Text, to_lower}
use protocol_monorepo.Db.Actions.{Failure, Action, pure, throw, ◌>>=◌, lift}
use protocol_monorepo.Db.Outcomes.{Ends, >>=-Ends, throw_if-Ends, Ends-weaken, lift_then-Ends}
use protocol_monorepo.Db.DraftRows.{
  DraftStatus, draft, launching, launched, abandoned, AgentDraftRow, is_status_draft, patch_draft,
}
use protocol_monorepo.Db.Database.{Database}
use protocol_monorepo.Drafts.Signing.{
  LaunchServices, LaunchTimes, ReadyDraft, Signed, sign_launch, assert_launch_ready,
}
use protocol_monorepo.Drafts.Launch.{
  Prepared, status_patch, prepared, mark_launching, prepare_active, prepare_row, restore_draft,
  launch_failure, too_many_agents,
}
use protocol_monorepo.Drafts.Lifecycle.{
  HoldsKey, here, onward, start, succeed, revert, ◌⟶*◌, Only, Evolves,
}
use protocol_monorepo.Drafts.Tables.{IsTable}
use protocol_monorepo.Drafts.Rules.{Later, Holds, update_then-Ends}
use protocol_monorepo.Managed.{max_agents_per_user, count_active_managed_for_owner}
use protocol_monorepo.Managed.Keeps.{count_active_managed_for_owner-AllKeep}

-- A draft may start, with the key that it has.
starts :
    (status : DraftStatus) (signer key : Option Text)
    → is_status_draft status ≡ true
    → (status ⟶* launching) × (HoldsKey status signer key → HoldsKey launching signer key)
starts draft signer key e = (onward start here, λ h. h)
starts launching signer key e = absurd (ground (arith, e))
starts launched signer key e = absurd (ground (arith, e))
starts abandoned signer key e = absurd (ground (arith, e))

-- A draft that is launching may be launched without its key, or be a draft again.
pub succeeds : (status : DraftStatus) → status ≡ launching → status ⟶* launched
succeeds status e = rw e (onward succeed here)

reverts :
    (status : DraftStatus) (signer key : Option Text)
    → status ≡ launching
    → (status ⟶* draft) × (HoldsKey status signer key → HoldsKey draft signer key)
reverts status signer key e = rw e (onward revert here, λ h. h)

-- What is prepared is about one row, which is launching.
abbrev pub Sending : List AgentDraftRow → Prepared → Database → Type 0
Sending rows p s = (row : AgentDraftRow) × (row.status ≡ launching) × Holds rows p.draft_id row s

module _ (services : LaunchServices) (times : LaunchTimes) (rows : List AgentDraftRow) where
  mark_launching-Ends :
      (p : Prepared) (row : AgentDraftRow) (s : Database)
      → is_status_draft row.status ≡ true
      → Holds rows p.draft_id row s
      → Ends (Later rows) (Sending rows) (mark_launching services times p s)
  unfolding patch_draft
  mark_launching-Ends p row s e holds =
      let (step, sound) = starts row.status row.signer_address row.encrypted_signer_key e in
      update_then-Ends rows p.draft_id row (status_patch launching times.launched_at) s
        (Sending rows) (λ _. pure p) holds (refl, step, sound)
        (λ _ t h. (patch_draft (status_patch launching times.launched_at) row, refl, h))

  prepare_active-Ends :
      (id : String) (owner : Text) (row : AgentDraftRow) (ready : ReadyDraft) (active : ℕ)
      (s : Database)
      → is_status_draft row.status ≡ true
      → Holds rows id row s
      → Ends (Later rows) (Sending rows) (prepare_active services times id owner row ready active s)
  prepare_active-Ends id owner row ready active s e holds =
      throw_if-Ends (Later rows) (Sending rows) (leb max_agents_per_user active) too_many_agents
        (lift (sign_launch services times.now_seconds row ready) >>= mark) s holds.0
        (λ _.
          lift_then-Ends (Later rows) (Sending rows)
            (sign_launch services times.now_seconds row ready) mark s holds.0
            (λ signed _.
              mark_launching-Ends (prepared services times id owner row ready signed) row s e
                holds))
    where
      mark : Signed → Action Database Prepared
      mark signed =
          mark_launching services times (prepared services times id owner row ready signed)

  pub prepare_row-Ends :
      (id : String) (owner : Text) (row : AgentDraftRow) (s : Database)
      → is_status_draft row.status ≡ true
      → Holds rows id row s
      → Ends (Later rows) (Sending rows) (prepare_row services times id owner row s)
  prepare_row-Ends id owner row s e holds =
      lift_then-Ends (Later rows) (Sending rows) (assert_launch_ready row)
        (λ ready. count >>= prepare_active services times id (map to_lower owner) row ready) s
        holds.0
        (λ ready _.
          >>=-Ends (Later rows) (λ _. Holds rows id row) (Sending rows) (count s)
            (prepare_active services times id (map to_lower owner) row ready)
            (Ends-weaken (Holds rows id row) (Later rows) (λ _. Holds rows id row)
              (λ _. Holds rows id row) (λ t h. h.0) (λ _ t h. h) (count s)
              (count_active_managed_for_owner-AllKeep
                (λ drafts. (Evolves rows drafts × IsTable drafts) × Only id row drafts)
                services.registration (map to_lower owner) s holds))
            (λ active t h. prepare_active-Ends id (map to_lower owner) row ready active t e h))
    where
      count : Action Database ℕ
      count = count_active_managed_for_owner services.registration (map to_lower owner)

  pub restore_draft-Ends :
      (p : Prepared) (e : Failure) (s : Database)
      → Sending rows p s
      → Ends (Later rows) (λ _. Later rows) (restore_draft services times p e s)
  unfolding patch_draft
  restore_draft-Ends p e s (row, is_launching, holds) =
      let (step, sound) =
        reverts row.status row.signer_address row.encrypted_signer_key is_launching in
      update_then-Ends rows p.draft_id row (status_patch draft times.failed_at) s (λ _. Later rows)
        (λ _. throw (launch_failure e)) holds (refl, step, sound) (λ _ t h. h.0)
