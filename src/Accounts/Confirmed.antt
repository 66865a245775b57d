-- ===== src/Accounts/Confirmed.antt =====
-- How an account comes to be verified, and how often a code is sent again.
use kub.Base.{ℕ, Bool, true, all, leb, ◌≡◌, arith, all-changed}
use kub.Accounts.Verification.{
  Verification, VerifyStore, Env, verification_key, set_columns, resent, mark_confirmed,
}
use kub.Accounts.Requests.{Request, serve, same, sent, renewed, counted, confirmed_by, serve-Effect}

abbrev pub resent_at_most : ℕ → Verification → Bool
resent_at_most n v = leb v.resend_count n

-- No request makes a record of codes be sent again more than five times.
pub resends_bounded :
    (e : Env) (q : Request) (s : VerifyStore)
    → all (resent_at_most 5) s.verifications ≡ true
    → all (resent_at_most 5) (serve e q s).verifications ≡ true
resends_bounded e q s few = elim (serve-Effect e q s) [
  | same kept ↦ rw kept few
  | sent user hash written ↦ rw written few
  | renewed v hash more written ↦ rw written (
      all-changed verification_key (resent_at_most 5) v.id (set_columns (resent e hash v))
        s.verifications (λ r h. ground arith) few)
  | counted id f keeps written ↦ rw written (
      all-changed verification_key (resent_at_most 5) id f s.verifications
        (λ r h. ground (arith, keeps r)) few)
  | confirmed_by user given v asked found right done ↦ rw done (
      all-changed verification_key (resent_at_most 5) v.id (mark_confirmed e.db_now) s.verifications
        (λ r h. h) few)
]
