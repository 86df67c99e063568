-- ===== src/Drafts/Lifecycle.antt =====
-- The life cycle of a draft: an abstract view of the tables that the requests write.
use protocol_monorepo.Common.{
  String, str_eq, List, [], ◌∷◌, ◌++◌, Option, none, is_some, ◌≡◌, ◌≢◌, ◌⊎◌, inl, inr, refl, All,
  eq_iff, arith, Bool-cases,
}
use protocol_monorepo.Common.Text.{Text}
use protocol_monorepo.Db.DraftRows.{
  DraftStatus, draft, launching, launched, abandoned, AgentDraftRow, change_draft,
}

infix 40 ◌⟶◌ ◌⟶*◌
pub data ◌⟶◌ : DraftStatus → DraftStatus → Type 0 where
  start : draft ⟶ launching
  succeed : launching ⟶ launched
  revert : launching ⟶ draft
  give_up : {s : DraftStatus} → s ⟶ abandoned

pub data ◌⟶*◌ : DraftStatus → DraftStatus → Type 0 where
  here : {s : DraftStatus} → s ⟶* s
  onward : {s t u : DraftStatus} → s ⟶ t → t ⟶* u → s ⟶* u

pub ⟶*-trans : {s t u : DraftStatus} → s ⟶* t → t ⟶* u → s ⟶* u
⟶*-trans here k = k
⟶*-trans (onward e h) k = onward e (⟶*-trans h k)

-- Which draft has a signer and its key: a draft has both or none, a launched one has handed its key
-- over, and an abandoned one has neither.
abbrev pub HoldsKey : DraftStatus → Option Text → Option Text → Type 0
HoldsKey draft signer key = is_some signer ≡ is_some key
HoldsKey launching signer key = is_some signer ≡ is_some key
HoldsKey launched signer key = key ≡ none
HoldsKey abandoned signer key = (signer ≡ none) × (key ≡ none)

abbrev pub IsSound : AgentDraftRow → Type 0
IsSound row = HoldsKey row.status row.signer_address row.encrypted_signer_key

-- One row later: the same draft, further in the life cycle, and still sound.
abbrev pub Follows : AgentDraftRow → AgentDraftRow → Type 0
Follows r s = (r.id ≡ s.id) × (r.status ⟶* s.status) × (IsSound r → IsSound s)

-- One table later; new rows are at the end, and came into being as drafts.
abbrev pub Evolves : List AgentDraftRow → List AgentDraftRow → Type 0
Evolves [] new = All (λ row. (draft ⟶* row.status) × IsSound row) new
Evolves (r ∷ rows) [] = ⊥
Evolves (r ∷ rows) (s ∷ later) = Follows r s × Evolves rows later

pub Evolves-refl : (rows : List AgentDraftRow) → Evolves rows rows
Evolves-refl [] = tt
Evolves-refl (r ∷ rows) = ((refl, here, λ h. h), Evolves-refl rows)

Follows-trans : (r s t : AgentDraftRow) → Follows r s → Follows s t → Follows r t
Follows-trans r s t (i, p, f) (j, q, g) = (rw i j, ⟶*-trans p q, λ h. g (f h))

grow-Evolves :
    (new later : List AgentDraftRow)
    → All (λ row. (draft ⟶* row.status) × IsSound row) new
    → Evolves new later
    → All (λ row. (draft ⟶* row.status) × IsSound row) later
grow-Evolves [] later h e = e
grow-Evolves (r ∷ new) [] h e = absurd e
grow-Evolves (r ∷ new) (s ∷ later) ((p, sound), h) ((i, q, keeps), e) =
    ((⟶*-trans p q, keeps sound), grow-Evolves new later h e)

pub Evolves-trans : (a b c : List AgentDraftRow) → Evolves a b → Evolves b c → Evolves a c
Evolves-trans [] b c h k = grow-Evolves b c h k
Evolves-trans (r ∷ a) [] c h k = absurd h
Evolves-trans (r ∷ a) (s ∷ b) [] h k = absurd k
Evolves-trans (r ∷ a) (s ∷ b) (t ∷ c) (f, h) (g, k) =
    (Follows-trans r s t f g, Evolves-trans a b c h k)

pub Evolves-append :
    (rows : List AgentDraftRow) (row : AgentDraftRow)
    → row.status ≡ draft
    → IsSound row
    → Evolves rows (rows ++ row ∷ [])
Evolves-append [] row e h = ((rw e here, h), tt)
Evolves-append (r ∷ rows) row e h = ((refl, here, λ k. k), Evolves-append rows row e h)

pub Evolves-IsSound :
    (rows later : List AgentDraftRow) → Evolves rows later → All IsSound rows → All IsSound later
Evolves-IsSound [] [] h k = tt
Evolves-IsSound [] (s ∷ later) ((p, sound), h) k = (sound, Evolves-IsSound [] later h tt)
Evolves-IsSound (r ∷ rows) [] h k = absurd h
Evolves-IsSound (r ∷ rows) (s ∷ later) ((i, p, keeps), h) (sound, k) =
    (keeps sound, Evolves-IsSound rows later h k)

-- The rows with an id are all one row.
abbrev pub Only : String → AgentDraftRow → List AgentDraftRow → Type 0
Only id row = All (λ r. (r.id ≢ id) ⊎ (r ≡ row))

pub change-Evolves :
    (id : String) (f : AgentDraftRow → AgentDraftRow) (row : AgentDraftRow)
    (rows : List AgentDraftRow)
    → Only id row rows
    → Follows row (f row)
    → Evolves rows (change_draft id f rows)
change-Evolves id f row [] h k = tt
change-Evolves id f row (r ∷ rows) (h, hs) k = elim (Bool-cases (str_eq r.id id)) [
  | inr e ↦ rw e ((refl, here, λ s. s), change-Evolves id f row rows hs k)
  | inl e ↦ elim h [
    | inl other ↦ absurd (ground (arith, eq_iff r.id id, other, e))
    | inr same ↦ rw (e, same) (k, change-Evolves id f row rows hs k)
  ]
]

pub change-Only :
    (id : String) (f : AgentDraftRow → AgentDraftRow) (row : AgentDraftRow)
    (rows : List AgentDraftRow)
    → Only id row rows
    → Only id (f row) (change_draft id f rows)
change-Only id f row [] h = tt
change-Only id f row (r ∷ rows) (h, hs) = elim (Bool-cases (str_eq r.id id)) [
  | inr e ↦ rw e (inl (ground (arith, eq_iff r.id id, e)), change-Only id f row rows hs)
  | inl e ↦ elim h [
    | inl other ↦ absurd (ground (arith, eq_iff r.id id, other, e))
    | inr same ↦ rw (e, same) (inr refl, change-Only id f row rows hs)
  ]
]
