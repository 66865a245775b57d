-- ===== src/Documents/Files.antt =====
-- The operations of internal/services/document_service.go that read or write files: where a file
-- of a document is looked for, what an upload stores and what a deletion removes. Of a file's content
-- nothing is modelled; `filepath.Base` and `filepath.Join` are parameters.
use Prim.Native.Char.{code}
use kub.Base.{
  ℕ, String, Bool, false, Option, none, some, List, [], ◌∷◌, any, filter, Result, ok, err, lift,
  fail_if, query, exec, or_fail, pure, ◌>>=◌, ◌>>◌, ◌==◌, ◌=ˢ◌, ◌++ˢ◌, ◌&&◌, ◌||◌, not,
  if◌then◌else◌, is_empty, has_prefix, trim_space, to_lower, forbidden, deal_not_found,
  unsupported_doc_type, doc_type_required, file_required, invalid_filename, bad_filepath,
  file_not_found, file_failed,
}
use kub.Authz.Roles.{role_partner, can_hard_delete_business_entity}
use kub.Models.Deals.{Deal}
use kub.Leads.Rows.{active_only, all_rows}
use kub.Deals.Table.{find_deal}
use kub.Documents.Table.{
  Document, DocStore, insert_document, update_document, set_signing_meta, delete_document_row,
}
use kub.Documents.Access.{
  Env, Documents, is_hidden_doc_visible, ensure_deal_access, load_document_deal_for_access,
}
use kub.Documents.Service.{
  permitted, normalize_doc_type, is_supported_doc_type, open_document, with_document, on_document,
}

-- The storage: `remote` is `Store != nil`. `order` is the order of a Go map's keys.
pub record Disk : Type 0 where
  pub remote : Bool
  pub root : String
  pub join : String → String → String
  pub base : String → String
  pub stamp : String  -- time.Now().UnixNano() in decimal
  pub exists : String → Bool
  pub save_fails : Bool
  pub remove_fails : String → Bool
  pub order : List String → List String
  pub signed_pdf_path : String → String  -- out of the JSON of the metadata
  pub extension : String → String  -- filepath.Ext

unfoldable pub contains : String → String → Bool
contains String.[] part = has_prefix String.[] part
contains (String.◌∷◌ c s) part = has_prefix (String.◌∷◌ c s) part || contains s part

-- `strings.TrimPrefix`.
unfoldable pub drop_text : String → String → String
drop_text s String.[] = s
drop_text String.[] (String.◌∷◌ d p) = String.[]
drop_text (String.◌∷◌ c s) (String.◌∷◌ d p) = drop_text s p

unfoldable pub trim_prefix : String → String → String
trim_prefix s p = if has_prefix s p then drop_text s p else s

-- `strings.ReplaceAll(rel, "\\", "/")`.
unfoldable pub slashes : String → String
slashes String.[] = String.[]
slashes (String.◌∷◌ c s) =
    let rest = slashes s in if code c == 92 then String.◌∷◌ "/" rest else String.◌∷◌ c rest

unfoldable pub relative : String → String
relative rel = trim_prefix (trim_prefix (slashes (trim_space rel)) "/") "files/"

abbrev pub is_bad_path : String → Bool
is_bad_path rel = contains rel ".." || is_empty rel || rel =ˢ "."

-- The place of a stored file, "" for an empty path.
unfoldable pub resolve_storage_path : Disk → String → Result String
resolve_storage_path disk rel =
    if is_empty (trim_space rel)
    then ok ""
    else if is_bad_path (relative rel)
    then err bad_filepath
    else ok (disk.join disk.root (relative rel))

abbrev pub add_file : String → DocStore → DocStore
add_file key s = record s { files = key ∷ s.files }

abbrev pub remove_file : String → DocStore → DocStore
remove_file key s = record s { files = filter (λ f. not (f =ˢ key)) s.files }

unfoldable pub store_save : Disk → String → Documents (Unit {0})
store_save disk key =
    fail_if disk.save_fails file_failed
    >> exec false (add_file (if disk.remote then key else disk.join disk.root key))

abbrev remove : Disk → String → Documents (Unit {0})
remove disk place s =
    if disk.remove_fails place then (err file_failed, s) else (ok tt, remove_file place s)

abbrev remove_local : Disk → Result String → Documents (Unit {0})
remove_local disk (err x) s = (ok tt, s)
remove_local disk (ok place) s = if is_empty place then (ok tt, s) else remove disk place s

-- A file that is not there is no error, nor a path that is refused.
unfoldable pub store_delete : Disk → String → Documents (Unit {0})
store_delete disk key s =
    if disk.remote then remove disk key s else remove_local disk (resolve_storage_path disk key) s

unfoldable pub distinct : List String → List String
distinct [] = []
distinct (p ∷ ps) =
    let rest = distinct ps in
    if is_empty (trim_space p) || any (λ q. q =ˢ trim_space p) rest
    then rest
    else trim_space p ∷ rest

unfoldable pub delete_all : Disk → List String → Documents (Unit {0})
delete_all disk [] = pure tt
delete_all disk (p ∷ ps) = store_delete disk p >> delete_all disk ps

unfoldable pub delete_document_files : Disk → Document → Documents (Unit {0})
delete_document_files disk doc =
    delete_all disk
      (disk.order (distinct (doc.file_path ∷ doc.file_path_pdf ∷ doc.file_path_docx ∷ [])))

unfoldable pub delete_document : Env → Disk → ℕ → Documents (Unit {0})
delete_document e disk id =
    fail_if (not (can_hard_delete_business_entity e.role_id)) forbidden
    >> on_document e all_rows id (λ doc. false) forbidden
        (λ doc. delete_document_files disk doc >> exec e.write_fails (delete_document_row id))

-- The columns of a document that an upload leaves empty.
abbrev pub blank : Document
blank = record {
  id = 0;
  deal_id = 0;
  client_id = none;
  branch_id = none;
  doc_type = "";
  status = "draft";
  file_path = "";
  file_path_docx = "";
  file_path_pdf = "";
  created_at = 0;
  signed_at = none;
  sign_method = "";
  sign_ip = "";
  sign_user_agent = "";
  sign_metadata = "";
  signed_by = "";
  is_archived = false;
  archived_at = none;
  archived_by = none;
  archive_reason = "";
  is_hidden = false;
  created_by = none;
  scope = "";
  title = "";
  description = "";
  target_user_id = none;
}

abbrev pub safe_name : Disk → String → Result String
safe_name disk name =
    let safe = disk.base name in
    if is_empty safe || safe =ˢ "." then err invalid_filename else ok (disk.stamp ++ˢ "_" ++ˢ safe)

abbrev pub insert : Env → Document → Documents ℕ
insert e doc = do
  id ← query false (λ (s : DocStore). s.next_id)
  exec e.write_fails (insert_document e.now doc)
  pure id

abbrev pub uploaded : Env → ℕ → Deal → String → String → Document
uploaded e deal_id deal doc_type final_name = record blank {
  deal_id = deal_id;
  branch_id = deal.branch_id;
  doc_type = normalize_doc_type doc_type;
  file_path = final_name;
  created_by = some e.user_id;
  is_hidden = e.role_id == role_partner;
}

unfoldable pub upload_to : Env → Disk → ℕ → String → Option String → Deal → Documents ℕ
upload_to e disk deal_id doc_type file deal = do
  lift (ensure_deal_access e deal)
  fail_if (is_empty (normalize_doc_type doc_type)) doc_type_required
  fail_if (not (is_supported_doc_type (normalize_doc_type doc_type))) unsupported_doc_type
  name ← or_fail file file_required
  final_name ← lift (safe_name disk name)
  store_save disk final_name
  insert e (uploaded e deal_id deal doc_type final_name)

-- `UploadDocument`; `file` is the name of the file that came, if one did.
unfoldable pub upload_document : Env → Disk → ℕ → String → Option String → Documents ℕ
upload_document e disk deal_id doc_type file = do
  fail_if (not (permitted e "documents.create")) forbidden
  fail_if (deal_id == 0 || e.deal_fails) deal_not_found
  found ← query false (λ (s : DocStore). find_deal active_only deal_id s.deals)
  deal ← or_fail found deal_not_found
  upload_to e disk deal_id doc_type file deal

abbrev pub scoped_place : Disk → String → String → String
scoped_place disk scope final_name = disk.join (disk.join "scoped" scope) final_name

abbrev pub scoped_document : Env → String → String → String → Option ℕ → String → Document
scoped_document e scope title description target place = record blank {
  scope = scope;
  title = title;
  description = description;
  target_user_id = target;
  doc_type = "uploaded";
  file_path = place;
  created_by = some e.user_id;
}

-- `UploadDocumentWithMeta` tests no role.
unfoldable pub upload_document_with_meta :
    Env → Disk → String → String → String → Option ℕ → String → Documents ℕ
upload_document_with_meta e disk scope title description target file = do
  final_name ← lift (safe_name disk file)
  store_save disk (scoped_place disk scope final_name)
  insert e (scoped_document e scope title description target (scoped_place disk scope final_name))

abbrev signed_place : Disk → Document → String
signed_place disk doc =
    if doc.status =ˢ "signed" then disk.signed_pdf_path doc.sign_metadata else ""

-- The path that a variant of the document is read from.
unfoldable pub variant_path : Disk → Document → String → Result String
variant_path disk doc variant =
    if is_empty variant || variant =ˢ "main"
    then ok doc.file_path
    else if variant =ˢ "pdf"
    then ok (
        if not (is_empty (trim_space (signed_place disk doc)))
        then signed_place disk doc
        else if not (is_empty (trim_space doc.file_path_pdf))
        then doc.file_path_pdf
        else doc.file_path)
    else if variant =ˢ "docx"
    then (if is_empty (trim_space doc.file_path_docx)
        then err file_not_found
        else ok doc.file_path_docx)
    else if variant =ˢ "xlsx"
    then (if to_lower (disk.extension (trim_space doc.file_path)) =ˢ ".xlsx"
        then ok doc.file_path
        else err file_not_found)
    else if variant =ˢ "original" || variant =ˢ "source"
    then ok (if is_empty (trim_space doc.file_path_docx) then doc.file_path else doc.file_path_docx)
    else ok doc.file_path

abbrev reach_deal : Env → Document → Documents (Unit {0})
reach_deal e doc s =
    if doc.deal_id == 0 then (ok tt, s) else (load_document_deal_for_access e doc >> pure tt) s

abbrev place_of : Disk → String → Result (String × String)
place_of disk rel =
    if is_bad_path rel
    then err bad_filepath
    else if disk.remote
    then ok (rel, disk.base rel)
    else if disk.exists (disk.join disk.root rel)
    then ok (disk.join disk.root rel, disk.base (disk.join disk.root rel))
    else err file_not_found

-- The place of the file and its name.
unfoldable pub resolve_file_for_http : Env → Disk → ℕ → String → Documents (String × String)
resolve_file_for_http e disk id variant = do
  doc ← open_document e active_only id
  fail_if (not (is_hidden_doc_visible doc e.user_id e.role_id)) forbidden
  reach_deal e doc
  rel ← lift (variant_path disk doc (to_lower (trim_space variant)))
  lift (place_of disk (relative rel))

-- The signed file of a session: whether the original is a PDF that is there and unchanged, whether
-- the signed file is there already, and what making it anew fails with.
pub record Artifact : Type 0 where
  pub original : Result (Unit {0})
  pub already : Bool
  pub made : Result (Unit {0})
  pub metadata : String

abbrev pub is_made : Disk → Artifact → Document → Bool
is_made disk a doc =
    doc.status =ˢ "signed" && not (is_empty (disk.signed_pdf_path doc.sign_metadata)) && a.already

abbrev pub make : Env → Disk → Artifact → String → String → Document → Documents (Unit {0})
make e disk a ip agent doc s =
    if is_made disk a doc
    then (ok tt, s)
    else (lift a.made
          >> exec e.write_fails
              (update_document doc.id (set_signing_meta "email_otp" ip agent a.metadata)))
        s

unfoldable pub finalize_signed_artifact :
    Env → Disk → Artifact → ℕ → String → String → Documents (Unit {0})
finalize_signed_artifact e disk a id ip agent =
    with_document e active_only id (λ doc. lift a.original >> make e disk a ip agent doc)
