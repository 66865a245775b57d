-- ===== src/Base/Keys.antt =====
-- Tables whose keys the database draws from a sequence: the newest row stands first.
use mathlib.Core.Path.{◌≡◌, refl, sym, subst}
use mathlib.Core.Logic.{inl, inr}
use mathlib.Core.Bool.{Bool, true, false}
use mathlib.Core.Option.{some}
use mathlib.Core.List.{List, [], ◌∷◌}
use native.Mathlib.Omega.{arith}
use Prim.Native.Nat.{ℕ, ◌≤◌, ◌<◌}
use kub.Base.Tests.{◌==◌, if◌then◌else◌, Bool-cases, ==_iff, &&_elim}
use kub.Base.Lists.{find, all}
use kub.Base.Tables.{keyed, change_row}

module _ {A : Type 0} (key : A → ℕ) where
  -- Every key is below the bound and below the keys of newer rows.
  abbrev pub Ordered : List A → ℕ → Type 0
  Ordered [] n = Unit
  Ordered (r ∷ rows) n = (key r < n) × Ordered rows (key r)

  pub found-below :
      (p : A → Bool) (rows : List A) (n : ℕ) {r : A}
      → Ordered rows n
      → find p rows ≡ some r
      → (key r) < n
  found-below p [] n o h = absurd (ground arith)
  found-below p (x ∷ rows) n {r} (below, o) h = elim (Bool-cases (p x)) [
    | inl here ↦ ground arith
    | inr beyond ↦
        let later : (key r) < (key x) = found-below p rows (key x) o (rw beyond at h) in omega arith
  ]

  -- However a row is found, it is the one with its key.
  pub found-keyed :
      (p : A → Bool) (rows : List A) (n : ℕ) {r : A}
      → Ordered rows n
      → find p rows ≡ some r
      → keyed key (key r) rows ≡ some r
  found-keyed p [] n o h = absurd (ground arith)
  found-keyed p (x ∷ rows) n {r} (below, o) h = elim (Bool-cases (p x)) [
    | inl here ↦ ground arith
    | inr beyond ↦
        let later : (key r) < (key x) = found-below p rows (key x) o (rw beyond at h) in
        let there = found-keyed p rows (key x) o (rw beyond at h) in ground arith
  ]

  pub change_row-absent :
      (id : ℕ) (f : A → A) (rows : List A) (n : ℕ)
      → Ordered rows n
      → n ≤ id
      → change_row key id f rows ≡ rows
  unfolding change_row
  change_row-absent id f [] n o h = refl
  change_row-absent id f (x ∷ rows) n (below, o) h =
      ground (arith, change_row-absent id f rows (key x) o (omega arith))

  changed_key :
      (b : Bool) (f : A → A) (x : A)
      → ((r : A) → key (f r) ≡ (key r))
      → key (if b then f x else x) ≡ (key x)
  changed_key true f x keeps = keeps x
  changed_key false f x keeps = refl

  pub change_row-Ordered :
      (id : ℕ) (f : A → A) (rows : List A) (n : ℕ)
      → ((r : A) → key (f r) ≡ (key r))
      → Ordered rows n
      → Ordered (change_row key id f rows) n
  unfolding change_row
  change_row-Ordered id f [] n keeps o = tt
  change_row-Ordered id f (x ∷ rows) n keeps (below, o) =
      let e = changed_key ((key x) == id) f x keeps in
      let later = change_row-Ordered id f rows (key x) keeps o in
      (
        subst (λ k. k < n) (sym e) below,
        subst (λ k. Ordered (change_row key id f rows) k) (sym e) later,
      )

  -- A test that the changed row passes is passed by all rows after the change.
  pub all-change_row :
      (p : A → Bool) (id : ℕ) (f : A → A) (rows : List A) (n : ℕ) {old : A}
      → Ordered rows n
      → keyed key id rows ≡ some old
      → p (f old) ≡ true
      → all p rows ≡ true
      → all p (change_row key id f rows) ≡ true
  unfolding change_row
  all-change_row p id f [] n o found passes h = refl
  all-change_row p id f (x ∷ rows) n {old} (below, o) found passes h =
      elim (Bool-cases ((key x) == id)) [
        | inl here ↦
            let e : x ≡ old = ground arith in
            let rest : change_row key id f rows ≡ rows =
              change_row-absent id f rows (key x) o (omega (arith, (==_iff (key x) id).0 here)) in
            simp (here, rest) (rw (e, passes) (&&_elim (p x) (all p rows) h).1)
        | inr beyond ↦
            simp (beyond, (&&_elim (p x) (all p rows) h).0)
              (all-change_row p id f rows (key x) o (rw beyond at found) passes
                (&&_elim (p x) (all p rows) h).1)
      ]

  pub found-passes :
      (p q : A → Bool) (rows : List A) {r : A}
      → all q rows ≡ true
      → find p rows ≡ some r
      → q r ≡ true
  found-passes p q [] h found = absurd (ground arith)
  found-passes p q (x ∷ rows) {r} h found = elim (Bool-cases (p x)) [
    | inl here ↦ ground arith
    | inr beyond ↦ found-passes p q rows (&&_elim (q x) (all q rows) h).1 (rw beyond at found)
  ]

  pub key_of : (k : ℕ) (rows : List A) {r : A} → keyed key k rows ≡ some r → (key r) ≡ k
  key_of k [] h = absurd (ground arith)
  key_of k (x ∷ rows) {r} h = ground (arith, key_of k rows {r = r})
