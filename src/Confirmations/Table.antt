-- ===== src/Confirmations/Table.antt =====
-- internal/models/signature_confirmation.go and
-- internal/repositories/signature_confirmation_repository.go. The key is a UUID in the database and
-- the next number here; `created_at` is left out: only ListByDocumentID, a listing, reads it.
use kub.Base.{
  ℕ, suc, String, Bool, false, Option, none, some, List, [], ◌∷◌, map, find, any, ◌==◌, ◌=ˢ◌, ◌&&◌,
  ltb, if◌then◌else◌, change_row,
}
use kub.Confirmations.Meta.{Meta, merge}

pub record Confirmation : Type 0 where
  pub id : ℕ
  pub document_id : ℕ
  pub user_id : ℕ
  pub channel : String
  pub status : String
  pub otp_hash : Option String
  pub token_hash : Option String
  pub attempts : ℕ
  pub expires_at : ℕ
  pub approved_at : Option ℕ
  pub rejected_at : Option ℕ
  pub meta : Meta

-- The table, newest row first, with the next value of its key; and the documents whose signing was
-- finalised, which are another component's state.
pub record ConfirmStore : Type 0 where
  pub rows : List Confirmation
  pub next_id : ℕ
  pub finalized : List ℕ

abbrev pub confirmation_key : Confirmation → ℕ
confirmation_key r = r.id

abbrev pub is_pending : Confirmation → Bool
is_pending r = r.status =ˢ "pending"

abbrev pub is_for : ℕ → ℕ → String → Confirmation → Bool
is_for document user channel r =
    r.document_id == document && (r.user_id == user && r.channel =ˢ channel)

-- SQL's `token_hash = $2` is not true of NULL.
abbrev pub holds : Option String → String → Bool
holds none hash = false
holds (some h) hash = h =ˢ hash

abbrev pub later : Confirmation → Option Confirmation → Option Confirmation
later r none = some r
later r (some w) = if ltb r.expires_at w.expires_at then some w else some r

-- `ORDER BY expires_at DESC LIMIT 1`; of rows with one time the database may give any, here the newest.
unfoldable pub latest : (Confirmation → Bool) → List Confirmation → Option Confirmation
latest p [] = none
latest p (r ∷ rows) = let rest = latest p rows in if p r then later r rest else rest

abbrev pub has_token : String → String → Confirmation → Bool
has_token channel hash r = r.channel =ˢ channel && holds r.token_hash hash

-- `FindByTokenHash`.
abbrev pub find_by_token_hash : String → String → ConfirmStore → Option Confirmation
find_by_token_hash channel hash s = latest (has_token channel hash) s.rows

-- `FindPendingByTokenHash`: one row, whichever the database finds first.
abbrev pub find_pending_by_token_hash : ℕ → String → String → ConfirmStore → Option Confirmation
find_pending_by_token_hash db_now channel hash s =
    find (λ r. has_token channel hash r && (is_pending r && ltb db_now r.expires_at)) s.rows

abbrev pub get_latest_by_channel : ℕ → ℕ → String → ConfirmStore → Option Confirmation
get_latest_by_channel document user channel s = latest (is_for document user channel) s.rows

-- `HasApproved`.
abbrev pub has_approved : ℕ → ℕ → String → ConfirmStore → Bool
has_approved document user channel s =
    any (λ r. is_for document user channel r && r.status =ˢ "approved") s.rows

-- The row that `CreatePending` writes.
abbrev pub pending_row :
    ℕ → ℕ → String → Option String → Option String → ℕ → Meta → ConfirmStore → Confirmation
pending_row document user channel otp token expires meta s = record {
  id = s.next_id;
  document_id = document;
  user_id = user;
  channel = channel;
  status = "pending";
  otp_hash = otp;
  token_hash = token;
  attempts = 0;
  expires_at = expires;
  approved_at = none;
  rejected_at = none;
  meta = meta;
}

abbrev pub insert_row : Confirmation → ConfirmStore → ConfirmStore
insert_row row s = record s { rows = row ∷ s.rows; next_id = suc s.next_id }

abbrev pub update_row : ℕ → (Confirmation → Confirmation) → ConfirmStore → ConfirmStore
update_row id f s = record s { rows = change_row confirmation_key id f s.rows }

abbrev pub approved : ℕ → Meta → Confirmation → Confirmation
approved db_now update r = record r {
  status = "approved";
  approved_at = some db_now;
  meta = merge update r.meta;
}

abbrev pub rejected : ℕ → Meta → Confirmation → Confirmation
rejected db_now update r = record r {
  status = "rejected";
  rejected_at = some db_now;
  meta = merge update r.meta;
}

abbrev pub expired : Confirmation → Confirmation
expired r = record r { status = "expired" }

abbrev pub add_attempt : Confirmation → Confirmation
add_attempt r = record r { attempts = suc r.attempts }

abbrev pub with_meta : Meta → Confirmation → Confirmation
with_meta update r = record r { meta = merge update r.meta }

abbrev pub cancelled_if : Bool → Confirmation → Confirmation
cancelled_if c r = if c then record r { status = "cancelled" } else r

-- `CancelPrevious`.
abbrev pub cancel_rows : ℕ → ℕ → String → List Confirmation → List Confirmation
cancel_rows document user channel rows =
    map (λ r. cancelled_if (is_for document user channel r && is_pending r) r) rows

abbrev pub cancel_previous : ℕ → ℕ → String → ConfirmStore → ConfirmStore
cancel_previous document user channel s = record s {
  rows = cancel_rows document user channel s.rows;
}

abbrev pub finalize_document : ℕ → ConfirmStore → ConfirmStore
finalize_document document s = record s { finalized = document ∷ s.finalized }
