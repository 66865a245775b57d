-- ===== src/Base/Tables.antt =====
-- Tables whose rows have a unique key: what `WHERE id = $1` finds, and what `UPDATE … WHERE id = $1`
-- does to it.
use Prim.Native.Nat.{ℕ}
use mathlib.Core.Path.{◌≡◌, refl}
use mathlib.Core.Logic.{◌≢◌}
use mathlib.Core.Option
use mathlib.Core.Option.{Option, none, some}
use mathlib.Core.Bool.{Bool, true}
use mathlib.Core.List.{List, [], ◌∷◌, ◌++◌}
use native.Mathlib.Omega.{arith}
use kub.Base.Tests.{◌==◌, if◌then◌else◌}
use kub.Base.Lists.{find, all}

module _ {A : Type 0} (key : A → ℕ) where
  abbrev pub keyed : ℕ → List A → Option A
  keyed id rows = find (λ r. key r == id) rows

  unfoldable pub change_row : ℕ → (A → A) → List A → List A
  change_row id f [] = []
  change_row id f (r ∷ rows) = (if key r == id then f r else r) ∷ change_row id f rows

  -- A change that keeps the key is found at its own key and nowhere else.
  pub keyed-change_row :
      (id k : ℕ) (f : A → A) (rows : List A)
      → ((r : A) → key (f r) ≡ key r)
      → keyed k (change_row id f rows)
        ≡ (if k == id then Option.map f (keyed k rows) else keyed k rows)
  unfolding change_row
  keyed-change_row id k f [] keeps = ground arith
  keyed-change_row id k f (r ∷ rows) keeps =
      ground (arith, keeps r, keyed-change_row id k f rows keeps)

  pub keyed-changed :
      (id : ℕ) (f : A → A) (rows : List A) {r : A}
      → ((x : A) → key (f x) ≡ key x)
      → keyed id rows ≡ some r
      → keyed id (change_row id f rows) ≡ some (f r)
  keyed-changed id f rows keeps found = ground (arith, keyed-change_row id id f rows keeps)

  pub keyed-others :
      (id k : ℕ) (f : A → A) (rows : List A)
      → ((x : A) → key (f x) ≡ key x)
      → k ≢ id
      → keyed k (change_row id f rows) ≡ keyed k rows
  keyed-others id k f rows keeps other = ground (arith, keyed-change_row id k f rows keeps)

  -- Two changes of the row with one key.
  pub change_row-twice :
      (id : ℕ) (f g : A → A) (rows : List A)
      → ((x : A) → key (g x) ≡ key x)
      → change_row id f (change_row id g rows) ≡ change_row id (λ x. f (g x)) rows
  unfolding change_row
  change_row-twice id f g [] keeps = refl
  change_row-twice id f g (r ∷ rows) keeps =
      ground (arith, keeps r, change_row-twice id f g rows keeps)

  pub keyed-key : (id : ℕ) (rows : List A) {r : A} → keyed id rows ≡ some r → key r ≡ id
  keyed-key id [] h = absurd (ground arith)
  keyed-key id (x ∷ rows) {r} h = ground (arith, keyed-key id rows {r = r})

  -- A test that a change keeps is passed by all rows after the change.
  pub all-changed :
      (p : A → Bool) (id : ℕ) (f : A → A) (rows : List A)
      → ((r : A) → p r ≡ true → p (f r) ≡ true)
      → all p rows ≡ true
      → all p (change_row id f rows) ≡ true
  unfolding change_row
  all-changed p id f [] keeps h = refl
  all-changed p id f (x ∷ rows) keeps h = ground (arith, keeps x, all-changed p id f rows keeps)

  -- `DELETE FROM … WHERE id = $1`.
  unfoldable pub remove_row : ℕ → List A → List A
  remove_row id [] = []
  remove_row id (r ∷ rows) = let rest = remove_row id rows in if key r == id then rest else r ∷ rest

  pub keyed-remove_row :
      (id k : ℕ) (rows : List A) → k ≢ id → keyed k (remove_row id rows) ≡ keyed k rows
  unfolding remove_row
  keyed-remove_row id k [] other = refl
  keyed-remove_row id k (r ∷ rows) other = ground (arith, keyed-remove_row id k rows other)

  pub keyed-append :
      (k : ℕ) (rows more : List A) {r : A} → keyed k rows ≡ some r → keyed k (rows ++ more) ≡ some r
  keyed-append k [] more found = absurd (ground arith)
  keyed-append k (x ∷ rows) more {r} found = ground (arith, keyed-append k rows more {r = r})

  pub keyed-removed : (id : ℕ) (rows : List A) → keyed id (remove_row id rows) ≡ none
  unfolding remove_row
  keyed-removed id [] = refl
  keyed-removed id (r ∷ rows) = ground (arith, keyed-removed id rows)
