-- ===== src/Leads/Rows.antt =====
-- internal/repositories/lead_repository.go: the rows of the table `leads`, how a row is read, and
-- the conditions of the queries. Postgres is not part of the program: what its `LIKE` and `ORDER BY`
-- do is a parameter of the listings.
use kub.Base.{
  ℕ, String, Bool, true, Option, none, some, List, [], ◌∷◌, any, ◌=ˢ◌, ◌&&◌, ◌||◌, not,
  if◌then◌else◌, is_none, is_empty, points_to, trim_space, to_lower,
}
use kub.Models.Leads.{Lead}

-- A row; a nullable column is an `Option`.
pub record LeadRow : Type 0 where
  pub id : ℕ
  pub title : String
  pub description : Option String
  pub phone : Option String
  pub source : Option String
  pub created_at : ℕ
  pub owner_id : Option ℕ
  pub branch_id : Option ℕ
  pub department_id : Option ℕ
  pub funnel_id : Option ℕ
  pub status : Option String
  pub is_archived : Bool
  pub archived_at : Option ℕ
  pub archived_by : Option ℕ
  pub archive_reason : Option String

pub record LeadListFilter : Type 0 where
  pub text : String  -- the field `Query`
  pub status : String
  pub status_group : String
  pub sort_by : String
  pub order : String
  pub branch_id : Option ℕ
  pub department_id : Option ℕ
  pub source : String
  pub scope_user_id : Option ℕ

pub data ArchiveScope : Type 0 where
  active_only archived_only all_rows : ArchiveScope

-- `stringFromNull`, and a nullable number read into an `int`.
abbrev pub string_from_null : Option String → String
string_from_null none = ""
string_from_null (some s) = s

abbrev pub int_from_null : Option ℕ → ℕ
int_from_null none = 0
int_from_null (some n) = n

unfoldable pub normalize_lead_status : Option String → String
normalize_lead_status none = "new"
normalize_lead_status (some s) = if not (is_empty s) then s else "new"

unfoldable pub scan_lead : LeadRow → Lead
scan_lead r = record {
  id = r.id;
  title = r.title;
  description = string_from_null r.description;
  phone = string_from_null r.phone;
  source = string_from_null r.source;
  created_at = r.created_at;
  owner_id = int_from_null r.owner_id;
  branch_id = r.branch_id;
  department_id = r.department_id;
  funnel_id = r.funnel_id;
  status = normalize_lead_status r.status;
  is_archived = r.is_archived;
  archived_at = r.archived_at;
  archived_by = r.archived_by;
  archive_reason = string_from_null r.archive_reason;
}

unfoldable pub lead_archive_where : ArchiveScope → LeadRow → Bool
lead_archive_where archived_only r = r.is_archived
lead_archive_where all_rows r = true
lead_archive_where active_only r = not r.is_archived

unfoldable pub lead_statuses_from_group : String → List String
lead_statuses_from_group group =
    let g = trim_space (to_lower group) in
    if g =ˢ "active"
    then "new" ∷ "in_progress" ∷ "confirmed" ∷ []
    else if g =ˢ "closed"
    then "converted" ∷ "cancelled" ∷ []
    else []

-- `COALESCE(status, 'new')`.
abbrev coalesce_status : Option String → String
coalesce_status none = "new"
coalesce_status (some s) = s

abbrev one_of : List String → String → Bool
one_of [] s = true
one_of (x ∷ xs) s = any (λ t. t =ˢ s) (x ∷ xs)

-- The clause on the status, from the filter's `Status` and `StatusGroup`.
unfoldable pub status_where : String → String → LeadRow → Bool
status_where status group r =
    if not (is_empty status)
    then status =ˢ coalesce_status r.status
    else one_of (lead_statuses_from_group group) (coalesce_status r.status)

-- `AND column = $n` where the filter sets the value; SQL's `=` is not true of NULL.
abbrev pub equals_if_set : Option ℕ → Option ℕ → Bool
equals_if_set none column = true
equals_if_set (some n) column = points_to column n

-- The department clause, with and without the user by whom it is widened.
abbrev pub department_where : Option ℕ → Option ℕ → LeadRow → Bool
department_where none user r = true
department_where (some dept) none r = points_to r.department_id dept
department_where (some dept) (some user) r =
    points_to r.department_id dept || is_none r.department_id && points_to r.owner_id user

-- Whether the row's title, description or phone is `LIKE` the pattern of a non-empty query.
abbrev pub LikeText : Type 0
LikeText = String → LeadRow → Bool

-- The conditions that `buildLeadListWhere` joins by AND.
unfoldable pub lead_list_where : LikeText → LeadListFilter → LeadRow → Bool
lead_list_where like f r =
    status_where f.status f.status_group r
    && (is_empty f.text || like f.text r)
    && equals_if_set f.branch_id r.branch_id
    && (is_empty f.source || f.source =ˢ string_from_null r.source)
    && department_where f.department_id f.scope_user_id r
