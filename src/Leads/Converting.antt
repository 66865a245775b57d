-- ===== src/Leads/Converting.antt =====
-- How the conversion of a lead may end, in lead_service.go and lead_repository.go.
use kub.Base.{
  ℕ, String, Bool, true, false, Option, none, some, ◌==◌, ◌=ˢ◌, ◌&&◌, ◌||◌, not, Error, Result, ok,
  err, fail, or_fail, query, exec, fail_if, ◌>>=◌, ◌>>◌, ends_after, passed, queried, eq_iff,
  if◌then◌else◌, ◌≡◌, refl, ◌∙◌, arith, Bool-cases, inl, inr, is_empty, trim_space, db,
  lead_not_found, deal_already_exists, not_convertible, client_data_required, client_not_found,
  stored_type_required, stored_type_mismatch,
}
use kub.Leads.Rows.{LeadRow, normalize_lead_status}
use kub.Leads.Table.{LeadDeal, LeadStore, row_of}
use kub.Leads.Conversion.{
  World, Client, normalized, is_converted, mark_converted, deal_of, new_deal, insert_deal,
  settle_existing, add_deal, settle_new, settle, convert_to_deal,
}

-- How the transaction may end: with nothing written; with the answer that there is a deal, and the
-- lead marked; or with the deal that was offered, where there was none, and a confirmed lead marked.
pub data Converted (id : ℕ) (offered : LeadDeal) (s : LeadStore) (m : Result LeadDeal × LeadStore)
    : Type 0 where
  stays : (e : Error) → m ≡ (err e, s) → Converted id offered s m
  already : m ≡ (err deal_already_exists, mark_converted id s) → Converted id offered s m
  made :
      (row : LeadRow) (deal : LeadDeal)
      → row_of id s.rows ≡ some row
      → normalize_lead_status row.status ≡ "confirmed"
      → deal_of id s ≡ none
      → deal ≡ new_deal row offered s
      → m ≡ (ok deal, insert_deal deal (mark_converted id s))
      → Converted id offered s m

confirmed_if : {status : String} → not (status =ˢ "confirmed") ≡ false → status ≡ "confirmed"
confirmed_if {status} h = (eq_iff status "confirmed").0 (ground (arith, h))

-- `or_fail` writes nothing.
or_fail-store : {A : Type 0} (o : Option A) (x : Error) (s : LeadStore) → (or_fail o x s).1 ≡ s
or_fail-store none x s = refl
or_fail-store (some a) x s = refl

module _ (w : World) (id : ℕ) (row : LeadRow) (s : LeadStore) where
  settled :
      (offered : LeadDeal) (down done : Bool)
      → Converted id offered s
          ((exec down (λ t. if done then t else mark_converted id t) >> fail deal_already_exists) s)
  settled offered true done = stays db refl
  settled offered false true = stays deal_already_exists refl
  settled offered false false = already refl

  settle_existing-Converted :
      (offered : LeadDeal) → Converted id offered s (settle_existing w id row s)
  settle_existing-Converted offered =
      settled offered (w.commit_fails || not (is_converted row) && w.update_fails)
        (is_converted row)

  module _ (here : row_of id s.rows ≡ some row) (fresh : deal_of id s ≡ none) where
    add_deal-Converted :
        (offered : LeadDeal)
        → normalize_lead_status row.status ≡ "confirmed"
        → Converted id offered s (add_deal w id row offered s)
    add_deal-Converted offered ready =
        elim (Bool-cases (w.insert_fails || w.update_fails || w.commit_fails)) [
          | inl down ↦ elim (Bool-cases w.raced) [
            | inl raced ↦ stays db (simp (raced, down) refl)
            | inr alone ↦ stays db (simp (alone, down) refl)
          ]
          | inr up ↦ elim (Bool-cases w.raced) [
            | inl raced ↦ already (simp (raced, up) refl)
            | inr alone ↦
                made row (new_deal row offered s) here ready fresh refl (simp (alone, up) refl)
          ]
        ]

    settle_new-Converted :
        (deal : LeadDeal) (client : Client)
        → Converted id (record deal { client_id = client.id }) s (settle_new w id row deal client s)
    settle_new-Converted deal client =
        let offered = record deal { client_id = client.id } in
        let ends = Converted id offered s in
        let not_ready = not (normalize_lead_status row.status =ˢ "confirmed") in
        let add = add_deal w id row offered in
        let alike = λ (kind : String).
          fail_if (not (normalized client.client_type =ˢ normalized kind)) stored_type_mismatch
          >> add in
        let typed = λ (kind : String).
          fail_if (is_empty (trim_space client.client_type)) stored_type_required >> alike kind in
        let read = λ (column : Option String). or_fail column db >>= typed in
        let found = λ (o : Option (Option String)). or_fail o client_not_found >>= read in
        let look = query w.lookup_fails (λ (u : LeadStore). w.stored_type client.id) >>= found in
        ends_after ends (fail_if not_ready not_convertible)
          (λ u. fail_if (client.id == 0) client_data_required >> look) s refl (λ e. stays e refl)
          (λ u ready.
            ends_after ends (fail_if (client.id == 0) client_data_required) (λ v. look) s refl
              (λ e. stays e refl)
              (λ v given.
                ends_after ends (query w.lookup_fails (λ x. w.stored_type client.id)) found s refl
                  (λ e. stays e refl)
                  (λ o looked.
                    ends_after ends (or_fail o client_not_found) read s
                      (or_fail-store o client_not_found s) (λ e. stays e refl)
                      (λ column there.
                        ends_after ends (or_fail column db) typed s (or_fail-store column db s)
                          (λ e. stays e refl)
                          (λ kind is.
                            ends_after ends
                              (fail_if (is_empty (trim_space client.client_type))
                                stored_type_required)
                              (λ v. alike kind) s refl (λ e. stays e refl)
                              (λ v named.
                                ends_after ends
                                  (fail_if (not (normalized client.client_type =ˢ normalized kind))
                                    stored_type_mismatch)
                                  (λ v. add) s refl (λ e. stays e refl)
                                  (λ v same.
                                    add_deal-Converted offered (
                                      confirmed_if
                                        (passed not_ready not_convertible s ready)))))))))

unwrapped :
    {A : Type 0} (o : Option A) (x : Error) (s : LeadStore) {a : A}
    → (or_fail o x s).0 ≡ ok a
    → o ≡ some a
unwrapped none x s done = absurd (ground (arith, done))
unwrapped (some b) x s done = ground (arith, done)

module _ (w : World) (id : ℕ) (deal : LeadDeal) (client : Client) (s : LeadStore) where
  settle-Converted :
      (row : LeadRow) (o : Option LeadDeal)
      → row_of id s.rows ≡ some row
      → deal_of id s ≡ o
      → Converted id (record deal { client_id = client.id }) s (settle w id row deal client o s)
  settle-Converted row none here asked = settle_new-Converted w id row s here asked deal client
  settle-Converted row (some d) here asked =
      settle_existing-Converted w id row s (record deal { client_id = client.id })

  pub convert_to_deal-Converted :
      Converted id (record deal { client_id = client.id }) s (convert_to_deal w id deal client s)
  unfolding convert_to_deal
  convert_to_deal-Converted =
      let ends = Converted id (record deal { client_id = client.id }) s in
      let go =
        λ (row : LeadRow). query w.existing_fails (deal_of id) >>= settle w id row deal client in
      let locked = λ (o : Option LeadRow). or_fail o lead_not_found >>= go in
      ends_after ends (query w.lock_fails (λ s. row_of id s.rows)) locked s refl (λ e. stays e refl)
        (λ o read.
          ends_after ends (or_fail o lead_not_found) go s (or_fail-store o lead_not_found s)
            (λ e. stays e refl)
            (λ row there.
              ends_after ends (query w.existing_fails (deal_of id)) (settle w id row deal client) s
                refl (λ e. stays e refl)
                (λ d asked.
                  settle-Converted row d
                    (queried w.lock_fails (λ s. row_of id s.rows) s read
                      ∙ unwrapped o lead_not_found s there)
                    (queried w.existing_fails (deal_of id) s asked))))
