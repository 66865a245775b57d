-- ===== src/Leads/Outcomes.antt =====
-- How each operation of the lead service may end: nothing written, or its one write to a lead that
-- the caller reaches.
use kub.Base.{
  ℕ, String, true, some, ok, err, Error, Result, db, ◌≡◌, ◌≢◌, ◌⊎◌, refl, inl, inr, arith,
  Bool-cases, Option-cases, lead_not_found, Result-cases,
}
use kub.Models.Leads.{Lead}
use kub.DataScope.{DataScope, resolve_lead_scope, lead_matches_scope}
use kub.Leads.Rows.{LeadRow, ArchiveScope, active_only, all_rows}
use kub.Leads.Table.{
  LeadStore, set_lead, set_archived, set_unarchived, set_status_of, row_of, find_lead, insert_lead,
  update_lead, delete_lead, row_of-update_row, row_of-delete_row,
}
use kub.Leads.Service.{
  Call, open_lead, filled, bound_lead, new_if_empty, create, update, update_status, delete,
  archive_lead, unarchive_lead,
}

-- How the opening of an operation ends.
open_lead-cases :
    (c : Call) (archive : ArchiveScope) (id : ℕ) (s : LeadStore)
    → ((e : Error) × (open_lead c archive id s ≡ (err e, s)))
      ⊎ ((lead : Lead) × (scope : DataScope) × (open_lead c archive id s ≡ (ok (lead, scope), s))
          × (find_lead archive id s ≡ some lead)
          × (resolve_lead_scope c.user_id c.role_id c.repo ≡ ok scope))
unfolding open_lead
open_lead-cases c archive id s = elim (Bool-cases c.get_fails) [
  | inl failed ↦ inl (db, rw failed)
  | inr answered ↦ elim (Option-cases (find_lead archive id s)) [
    | inl missing ↦ inl (lead_not_found, ground arith)
    | inr (lead, found) ↦ elim (Result-cases (resolve_lead_scope c.user_id c.role_id c.repo)) [
      | inl (scope, resolved) ↦ inr (lead, scope, ground arith, found, resolved)
      | inr (e, refused) ↦ inl (e, ground arith)
    ]
  ]
]

-- The caller's scope accepts the lead with a key.
abbrev pub Reached : Call → ArchiveScope → ℕ → LeadStore → Type 0
Reached c archive id s =
    (lead : Lead) × (scope : DataScope) × (find_lead archive id s ≡ some lead)
    × (resolve_lead_scope c.user_id c.role_id c.repo ≡ ok scope)
    × (lead_matches_scope scope (some lead) ≡ true)

-- How an operation on one lead may end: the table is as it was, or the caller's scope accepts the
-- lead, the operation succeeds, and the other rows are as they were.
pub data Outcome (c : Call) (id : ℕ) (s : LeadStore) (m : Result (Unit {0}) × LeadStore)
    : Type 0 where
  kept : m.1 ≡ s → Outcome c id s m
  wrote :
      (archive : ArchiveScope) (w : LeadStore → LeadStore)
      → Reached c archive id s
      → m ≡ (ok tt, w s)
      → ((k : ℕ) → k ≢ id → row_of k (w s).rows ≡ row_of k s.rows)
      → Outcome c id s m

pub update_lead_others :
    (id : ℕ) (f : LeadRow → LeadRow) (s : LeadStore)
    → ((r : LeadRow) → (f r).id ≡ r.id)
    → (k : ℕ) → k ≢ id
    → row_of k (update_lead id f s).rows ≡ row_of k s.rows
update_lead_others id f s keeps k ne = ground (arith, row_of-update_row id k f s.rows keeps)

-- An operation that goes on from the opening: where that fails nothing is written, and else the
-- rest writes nothing, or finds the lead in scope and makes its one write.
opened-Outcome :
    (c : Call) (archive : ArchiveScope) (id : ℕ) (s : LeadStore) (m : Result (Unit {0}) × LeadStore)
    (w : Lead → LeadStore → LeadStore)
    → ((e : Error) → open_lead c archive id s ≡ (err e, s) → m.1 ≡ s)
    → ((lead : Lead) (scope : DataScope)
        → open_lead c archive id s ≡ (ok (lead, scope), s)
        → (m.1 ≡ s) ⊎ ((lead_matches_scope scope (some lead) ≡ true) × (m ≡ (ok tt, w lead s))))
    → ((lead : Lead) (k : ℕ) → k ≢ id → row_of k (w lead s).rows ≡ row_of k s.rows)
    → Outcome c id s m
opened-Outcome c archive id s m w shut open_ others = elim (open_lead-cases c archive id s) [
  | inl (e, h) ↦ kept (shut e h)
  | inr (lead, scope, h, found, resolved) ↦ elim (open_ lead scope h) [
    | inl same ↦ kept same
    | inr (accepted, done) ↦
        wrote archive (w lead) (lead, scope, found, resolved, accepted) done (others lead)
  ]
]

pub update-Outcome :
    (c : Call) (lead : Lead) (s : LeadStore) → Outcome c lead.id s (update c lead s)
unfolding update
update-Outcome c lead s =
    opened-Outcome c active_only lead.id s (update c lead s)
      (λ current. update_lead lead.id (set_lead (filled c lead current))) (λ e h. ground arith)
      (λ current scope h. ground arith)
      (λ current. update_lead_others lead.id (set_lead (filled c lead current)) s (λ r. refl))

pub update_status-Outcome :
    (c : Call) (id : ℕ) (to : String) (s : LeadStore) → Outcome c id s (update_status c id to s)
unfolding update_status
update_status-Outcome c id to s =
    opened-Outcome c active_only id s (update_status c id to s)
      (λ lead. update_lead id (set_status_of to)) (λ e h. ground arith)
      (λ lead scope h. ground arith)
      (λ lead. update_lead_others id (set_status_of to) s (λ r. refl))

pub delete-Outcome : (c : Call) (id : ℕ) (s : LeadStore) → Outcome c id s (delete c id s)
unfolding delete
delete-Outcome c id s =
    opened-Outcome c all_rows id s (delete c id s) (λ lead. delete_lead id) (λ e h. ground arith)
      (λ lead scope h. ground arith) (λ lead k ne. ground (arith, row_of-delete_row id k s.rows))

pub archive_lead-Outcome :
    (c : Call) (id : ℕ) (reason : String) (s : LeadStore)
    → Outcome c id s (archive_lead c id reason s)
unfolding archive_lead
archive_lead-Outcome c id reason s =
    opened-Outcome c all_rows id s (archive_lead c id reason s)
      (λ lead. update_lead id (set_archived c.now c.user_id reason)) (λ e h. ground arith)
      (λ lead scope h. ground arith)
      (λ lead. update_lead_others id (set_archived c.now c.user_id reason) s (λ r. refl))

pub unarchive_lead-Outcome :
    (c : Call) (id : ℕ) (s : LeadStore) → Outcome c id s (unarchive_lead c id s)
unfolding unarchive_lead
unarchive_lead-Outcome c id s =
    opened-Outcome c all_rows id s (unarchive_lead c id s) (λ lead. update_lead id set_unarchived)
      (λ e h. ground arith) (λ lead scope h. ground arith)
      (λ lead. update_lead_others id set_unarchived s (λ r. refl))

pub create-store :
    (c : Call) (lead : Lead) (s : LeadStore)
    → ((create c lead s).1 ≡ s) ⊎ ((l : Lead) × ((create c lead s).1 ≡ insert_lead c.now l s))
unfolding create
create-store c lead s = elim (Result-cases (resolve_lead_scope c.user_id c.role_id c.repo)) [
  | inr (e, refused) ↦ inl (ground arith)
  | inl (scope, resolved) ↦
      let l = new_if_empty (bound_lead c scope lead) in
      let ends : ((create c lead s).1 ≡ s) ⊎ ((create c lead s).1 ≡ insert_lead c.now l s) =
        ground arith in
      elim ends [ inl same ↦ inl same | inr done ↦ inr (l, done) ]
]
