-- ===== src/Leads/Table.antt =====
-- internal/repositories/lead_repository.go: the queries that read and write one lead.
use kub.Base.{
  ℕ, suc, String, true, false, Option, none, some, List, [], ◌∷◌, ◌++◌, find, filter, ◌==◌,
  if◌then◌else◌, is_empty, not, ◌≡◌, arith,
}
use mathlib.Core.Option
use kub.Models.Leads.{Lead}
use kub.Leads.Rows.{LeadRow, ArchiveScope, scan_lead, lead_archive_where}

-- models.Deals, as the conversion of a lead writes it. The amount is given by the bits of its
-- float64; it is only compared with zero.
pub record LeadDeal : Type 0 where
  pub id : ℕ
  pub lead_id : ℕ
  pub client_id : ℕ
  pub owner_id : ℕ
  pub branch_id : Option ℕ
  pub department_id : Option ℕ
  pub amount : ℕ
  pub currency : String
  pub status : String
  pub created_at : ℕ

-- The tables `leads` and `deals`, the next values of their keys, and the departments that funnels and
-- users have in their own tables.
pub record LeadStore : Type 0 where
  pub rows : List LeadRow
  pub next_id : ℕ
  pub funnel_department : ℕ → Option ℕ
  pub user_department : ℕ → Option ℕ
  pub deals : List LeadDeal
  pub next_deal : ℕ

-- The row with a key.
abbrev pub row_of : ℕ → List LeadRow → Option LeadRow
row_of id rows = find (λ r. r.id == id) rows

abbrev pub scan_if : ArchiveScope → Option LeadRow → Option Lead
scan_if scope none = none
scan_if scope (some r) = if lead_archive_where scope r then some (scan_lead r) else none

-- `GetByIDWithArchiveScope`: the key is unique, so the archive clause is tested on the row found.
unfoldable pub find_lead : ArchiveScope → ℕ → LeadStore → Option Lead
find_lead scope id s = scan_if scope (row_of id s.rows)

-- `UPDATE leads SET … WHERE id = …`.
unfoldable pub update_row : ℕ → (LeadRow → LeadRow) → List LeadRow → List LeadRow
update_row id f [] = []
update_row id f (r ∷ rows) = (if r.id == id then f r else r) ∷ update_row id f rows

-- `NULLIF(text, '')`, and `COALESCE`.
abbrev null_if_empty : String → Option String
null_if_empty s = if is_empty s then none else some s

abbrev pub coalesce : Option ℕ → Option ℕ → Option ℕ
coalesce none b = b
coalesce (some a) b = some a

abbrev pub department_of_funnel : LeadStore → Option ℕ → Option ℕ
department_of_funnel s none = none
department_of_funnel s (some f) = s.funnel_department f

abbrev pub new_row : ℕ → Lead → LeadStore → LeadRow
new_row now lead s = record {
  id = s.next_id;
  title = lead.title;
  description = some lead.description;
  phone = null_if_empty lead.phone;
  source = null_if_empty lead.source;
  created_at = now;
  owner_id = some lead.owner_id;
  branch_id = lead.branch_id;
  department_id =
      coalesce (department_of_funnel s lead.funnel_id) (s.user_department lead.owner_id);
  funnel_id = lead.funnel_id;
  status = some lead.status;
  is_archived = false;
  archived_at = none;
  archived_by = none;
  archive_reason = none;
}

unfoldable pub insert_lead : ℕ → Lead → LeadStore → LeadStore
insert_lead now lead s = record s {
  rows = s.rows ++ new_row now lead s ∷ [];
  next_id = suc s.next_id;
}

abbrev pub set_lead : Lead → LeadRow → LeadRow
set_lead lead r = record r {
  title = lead.title;
  description = some lead.description;
  phone = null_if_empty lead.phone;
  source = null_if_empty lead.source;
  owner_id = some lead.owner_id;
  branch_id = lead.branch_id;
  status = some lead.status;
}

abbrev pub set_archived : ℕ → ℕ → String → LeadRow → LeadRow
set_archived now by reason r = record r {
  is_archived = true;
  archived_at = some now;
  archived_by = some by;
  archive_reason = some reason;
}

abbrev pub set_unarchived : LeadRow → LeadRow
set_unarchived r = record r {
  is_archived = false;
  archived_at = none;
  archived_by = none;
  archive_reason = none;
}

abbrev pub set_status_of : String → LeadRow → LeadRow
set_status_of to r = record r { status = some to }

-- Any of the updates of one row.
abbrev pub update_lead : ℕ → (LeadRow → LeadRow) → LeadStore → LeadStore
update_lead id f s = record s { rows = update_row id f s.rows }

unfoldable pub delete_row : ℕ → List LeadRow → List LeadRow
delete_row id rows = filter (λ r. not (r.id == id)) rows

abbrev pub delete_lead : ℕ → LeadStore → LeadStore
delete_lead id s = record s { rows = delete_row id s.rows }

-- What each write does to the row with a key.
pub row_of-update_row :
    (id k : ℕ) (f : LeadRow → LeadRow) (rows : List LeadRow)
    → ((r : LeadRow) → (f r).id ≡ r.id)
    → row_of k (update_row id f rows)
      ≡ (if k == id then Option.map f (row_of k rows) else row_of k rows)
unfolding update_row
row_of-update_row id k f [] keeps = ground arith
row_of-update_row id k f (r ∷ rows) keeps = ground (arith, keeps r, row_of-update_row id k f rows)

pub row_of-append :
    (k : ℕ) (rows more : List LeadRow) {r : LeadRow}
    → row_of k rows ≡ some r
    → row_of k (rows ++ more) ≡ some r
row_of-append k [] more h = cc
row_of-append k (x ∷ rows) more {r} h = ground (arith, row_of-append k rows more {r = r})

pub row_of-delete_row :
    (id k : ℕ) (rows : List LeadRow)
    → row_of k (delete_row id rows) ≡ (if k == id then none else row_of k rows)
unfolding delete_row
row_of-delete_row id k [] = ground arith
row_of-delete_row id k (r ∷ rows) = ground (arith, row_of-delete_row id k rows)
