-- ===== src/Base/Rows.antt =====
-- A table before and after a request, row by row.
use mathlib.Core.Path.{◌≡◌, refl, sym, ◌∙◌, subst}
use mathlib.Core.Logic.{inl, inr}
use mathlib.Core.Bool.{Bool, true, false}
use mathlib.Core.Option.{some}
use mathlib.Core.List.{List, [], ◌∷◌, map}
use native.Mathlib.Omega.{arith}
use Prim.Native.Nat.{ℕ, ◌<◌}
use kub.Base.Tests.{◌==◌, Bool-cases, ==_iff, &&_elim}
use kub.Base.Lists.{all, any}
use kub.Base.Tables.{keyed, change_row}
use kub.Base.Keys.{Ordered, change_row-absent}

module _ {A : Type 0} (R : A → A → Type 0) where
  abbrev pub Pointwise : List A → List A → Type 0
  Pointwise [] [] = Unit
  Pointwise [] (y ∷ ys) = ⊥
  Pointwise (x ∷ xs) [] = ⊥
  Pointwise (x ∷ xs) (y ∷ ys) = R x y × Pointwise xs ys

  module _ (stays : (x : A) → R x x) where
    pub Pointwise-refl : (xs : List A) → Pointwise xs xs
    Pointwise-refl [] = tt
    Pointwise-refl (x ∷ xs) = (stays x, Pointwise-refl xs)

  pub Pointwise-map : (f : A → A) → ((x : A) → R x (f x)) → (xs : List A) → Pointwise xs (map f xs)
  Pointwise-map f each [] = tt
  Pointwise-map f each (x ∷ xs) = (each x, Pointwise-map f each xs)

  pub Pointwise-map-map :
      (f h : A → A) → ((x : A) → R x (h (f x))) → (xs : List A) → Pointwise xs (map h (map f xs))
  Pointwise-map-map f h each [] = tt
  Pointwise-map-map f h each (x ∷ xs) = (each x, Pointwise-map-map f h each xs)

  pub Pointwise-map_none :
      (q : A → Bool) (f : A → A)
      → ((x : A) → q x ≡ false → R x (f x))
      → (xs : List A) → any q xs ≡ false
      → Pointwise xs (map f xs)
  Pointwise-map_none q f each [] h = tt
  Pointwise-map_none q f each (x ∷ xs) h =
      (each x (ground (arith, h)), Pointwise-map_none q f each xs (ground (arith, h)))

  pub Pointwise-change_all :
      (key : A → ℕ) (id : ℕ) (f : A → A)
      → ((x : A) → R x x)
      → ((x : A) → R x (f x))
      → (rows : List A) → Pointwise rows (change_row key id f rows)
  unfolding change_row
  Pointwise-change_all key id f stays each [] = tt
  Pointwise-change_all key id f stays each (x ∷ rows) = elim (Bool-cases (key x == id)) [
    | inl here ↦ simp here (each x, Pointwise-change_all key id f stays each rows)
    | inr beyond ↦ simp beyond (stays x, Pointwise-change_all key id f stays each rows)
  ]

  pub Pointwise-trans :
      ((x y z : A) → R x y → R y z → R x z)
      → (xs ys zs : List A) → Pointwise xs ys
      → Pointwise ys zs
      → Pointwise xs zs
  Pointwise-trans trans [] [] zs a b = b
  Pointwise-trans trans [] (y ∷ ys) zs a b = absurd a
  Pointwise-trans trans (x ∷ xs) [] zs a b = absurd a
  Pointwise-trans trans (x ∷ xs) (y ∷ ys) [] a b = absurd b
  Pointwise-trans trans (x ∷ xs) (y ∷ ys) (z ∷ zs) (a, as_) (b, bs) =
      (trans x y z a b, Pointwise-trans trans xs ys zs as_ bs)

  -- What the rows before pass, the rows after pass.
  pub all-Pointwise :
      (p : A → Bool)
      → ((x y : A) → R x y → p x ≡ true → p y ≡ true)
      → (xs ys : List A) → Pointwise xs ys
      → all p xs ≡ true
      → all p ys ≡ true
  all-Pointwise p keeps [] [] rel h = refl
  all-Pointwise p keeps [] (y ∷ ys) rel h = absurd rel
  all-Pointwise p keeps (x ∷ xs) [] rel h = absurd rel
  all-Pointwise p keeps (x ∷ xs) (y ∷ ys) (here, rest) h =
      let (a, b) = &&_elim (p x) (all p xs) h in
      ground (arith, keeps x y here a, all-Pointwise p keeps xs ys rest b)

  module _ (key : A → ℕ) where
    -- An update of one row, whose key no other has.
    pub Pointwise-change_row :
        ((x : A) → R x x)
        → (f : A → A) (rows : List A) (n : ℕ) {old : A} → Ordered key rows n
        → keyed key (key old) rows ≡ some old
        → R old (f old)
        → Pointwise rows (change_row key (key old) f rows)
    unfolding change_row
    Pointwise-change_row stays f [] n o found step = absurd (ground arith)
    Pointwise-change_row stays f (x ∷ rows) n {old} (below, o) found step =
        elim (Bool-cases (key x == key old)) [
          | inl here ↦
              let e : x ≡ old = ground (arith, here) in
              let rest : change_row key (key old) f rows ≡ rows =
                change_row-absent key (key old) f rows (key x) o
                  (omega (arith, (==_iff (key x) (key old)).0 here)) in
              simp (here, rest) (subst (λ y. R y (f y)) (sym e) step, Pointwise-refl stays rows)
          | inr beyond ↦
              simp beyond
                (stays x, Pointwise-change_row stays f rows (key x) o (rw beyond at found) step)
        ]

    module _ (same : (x y : A) → R x y → key y ≡ key x) where
      pub Pointwise-Ordered :
          (xs ys : List A) (n : ℕ) → Pointwise xs ys → Ordered key xs n → Ordered key ys n
      Pointwise-Ordered [] [] n rel o = tt
      Pointwise-Ordered [] (y ∷ ys) n rel o = absurd rel
      Pointwise-Ordered (x ∷ xs) [] n rel o = absurd rel
      Pointwise-Ordered (x ∷ xs) (y ∷ ys) n (here, rest) (below, o) =
          let e = same x y here in
          (
            subst (λ k. k < n) (sym e) below,
            subst (λ k. Ordered key ys k) (sym e) (Pointwise-Ordered xs ys (key x) rest o),
          )

      -- The row with a key, before and after.
      pub keyed-Pointwise :
          (k : ℕ) (xs ys : List A) {r : A}
          → Pointwise xs ys
          → keyed key k xs ≡ some r
          → (y : A) × (keyed key k ys ≡ some y) × R r y
      keyed-Pointwise k [] [] rel found = absurd (ground arith)
      keyed-Pointwise k [] (y ∷ ys) rel found = absurd rel
      keyed-Pointwise k (x ∷ xs) [] rel found = absurd rel
      keyed-Pointwise k (x ∷ xs) (y ∷ ys) {r = r} (here, rest) found =
          elim (Bool-cases (key x == k)) [
            | inl hit ↦
                let one : x ≡ r = ground (arith, hit) in
                let also : key y ≡ k = same x y here ∙ (==_iff (key x) k).0 hit in
                (y, ground (arith, also), subst (λ z. R z y) one here)
            | inr miss ↦
                let (z, there, step) = keyed-Pointwise k xs ys {r = r} rest (rw miss at found) in
                let also : key y ≡ key x = same x y here in
                (z, ground (arith, also, there, miss), step)
          ]

pub Pointwise-weaken :
    {A : Type 0} (R S : A → A → Type 0)
    → ((x y : A) → R x y → S x y)
    → (xs ys : List A) → Pointwise R xs ys
    → Pointwise S xs ys
Pointwise-weaken R S wider [] [] rel = tt
Pointwise-weaken R S wider [] (y ∷ ys) rel = absurd rel
Pointwise-weaken R S wider (x ∷ xs) [] rel = absurd rel
Pointwise-weaken R S wider (x ∷ xs) (y ∷ ys) (here, rest) =
    (wider x y here, Pointwise-weaken R S wider xs ys rest)
