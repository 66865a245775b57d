-- ===== src/Documents/Runs.antt =====
-- Runs of requests: the status of a document changes only so often.
use kub.Base.{
  ℕ, suc, String, some, ◌+◌, ◌≤◌, ◌<◌, ◌≡◌, inl, inr, sym, ap, ◌∙◌, arith, ◌=ˢ◌, if◌then◌else◌,
  eq_iff,
}
use kub.Documents.Table.{Document, DocStore, document_row}
use kub.Documents.Access.{Env}
use kub.Documents.Files.{Disk}
use kub.Documents.Requests.{Request, serve, Edge, submitted, approved, returned, sent, signed}
use kub.Documents.Lifecycle.{status_steps}

-- How far along its life a document is.
unfoldable rank : String → ℕ
rank status =
    if status =ˢ "draft"
    then 0
    else if status =ˢ "under_review"
    then 1
    else if status =ˢ "approved"
    then 2
    else if status =ˢ "returned"
    then 2
    else if status =ˢ "sent_for_signature"
    then 3
    else 4

rank_bound : (status : String) → rank status ≤ 4
unfolding rank
rank_bound status = ground arith

rank-Edge : (a b : String) → Edge a b → rank a < rank b
unfolding rank
rank-Edge a b (submitted from to) = rw (from, to) (ground arith)
rank-Edge a b (approved from to) = rw (from, to) (ground arith)
rank-Edge a b (returned from to) = rw (from, to) (ground arith)
rank-Edge a b (sent from to) = rw (from, to) (ground arith)
rank-Edge a b (signed (inl from) to) = rw (from, to) (ground arith)
rank-Edge a b (signed (inr (inl from)) to) = rw (from, to) (ground arith)
rank-Edge a b (signed (inr (inr from)) to) = rw (from, to) (ground arith)

-- A run of requests through which a document stays in the table, with the count of its moves.
pub data Run (k : ℕ) (s : DocStore) (r : Document) : ℕ → DocStore → Document → Type 1 where
  start : {n : ℕ} {t : DocStore} {r' : Document} → n ≡ 0 → t ≡ s → r' ≡ r → Run k s r n t r'
  then_ :
      {n m : ℕ} {u : DocStore} {y : Document} (e : Env) (disk : Disk) (q : Request) (t : DocStore)
      (x : Document)
      → Run k s r n t x
      → u ≡ serve e disk q t
      → document_row k u ≡ some y
      → m ≡ (if y.status =ˢ x.status then n else suc n)
      → Run k s r m u y

module _ (k : ℕ) (s : DocStore) (r : Document) (row : document_row k s ≡ some r) where
  run_row : (n : ℕ) (t : DocStore) (x : Document) → Run k s r n t x → document_row k t ≡ some x
  run_row n t x (start none_ same one) = ap (document_row k) same ∙ row ∙ ap some (sym one)
  run_row n t x (then_ e disk q u y before is here counted) = here

  run_rank :
      (n : ℕ) (t : DocStore) (x : Document) → Run k s r n t x → n + rank r.status ≤ rank x.status
  run_rank n t x (start none_ same one) =
      let level : rank x.status ≡ rank r.status = ap (λ (z : Document). rank z.status) one in
      omega (arith, level, none_)
  run_rank n t x (then_ {n = m} e disk q u y before is here counted) =
      let so_far = run_rank m u y before in
      elim (status_steps e disk q u k y x (run_row m u y before)
        (ap (document_row k) (sym is) ∙ here)) [
          | inl same ↦
              let level : rank x.status ≡ rank y.status = ap rank same in
              let still : n ≡ m =
                counted ∙ ap (λ b. if b then m else suc m) ((eq_iff x.status y.status).1 same) in
              omega (arith, so_far, level, still)
          | inr edge ↦
              let up = rank-Edge y.status x.status edge in
              let few : n ≤ suc m = ground (arith, counted) in omega (arith, so_far, up, few)
        ]

-- However long a run of requests is, the status of a document that stays in the table changes at most
-- four times.
pub moves_bounded :
    (k n : ℕ) (s t : DocStore) (r x : Document)
    → document_row k s ≡ some r
    → Run k s r n t x
    → n ≤ 4
moves_bounded k n s t r x row run = omega (arith, run_rank k s r row n t x run, rank_bound x.status)
