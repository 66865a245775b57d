-- ===== src/Funnels/Codes.antt =====
-- The loop of `Duplicate`, internal/repositories/funnel_stage_repository.go, ends.
use mathlib.Core.Path.{subst}
use kub.Base.{
  ℕ, suc, zero, ◌+◌, ◌≤◌, ◌<◌, String, true, false, Option, some, List, [], ◌∷◌, ◌==◌, ◌=ˢ◌, ◌&&◌,
  ltb, if◌then◌else◌, length, ◌≡◌, ◌≢◌, refl, sym, ◌∙◌, inl, inr, arith, eq_iff, Bool-cases,
  &&_elim,
}
use kub.Funnels.Table.{StageRow}
use kub.Funnels.Copies.{is_taken, free_code, copy_code}

-- Names that are all different.
abbrev pub Distinct : (ℕ → String) → Type 0
Distinct c = (i j : ℕ) → c i ≡ c j → i ≡ j

abbrev skip : ℕ → ℕ → ℕ
skip k i = if ltb i k then i else suc i

skip-≢ : (k i : ℕ) → skip k i ≢ k
skip-≢ k i = ground arith

skip_inj : (k i j : ℕ) → skip k i ≡ skip k j → i ≡ j
skip_inj k i j = ground arith

skip_bound : (k i : ℕ) → skip k i ≤ suc i
skip_bound k i = ground arith

module _ (funnel : ℕ) where
  -- Of names that are all different, one of the first `length rows + 1` is free.
  free_index :
      (rows : List StageRow) (c : ℕ → String)
      → Distinct c
      → (k : ℕ) × (k ≤ length rows) × (is_taken funnel rows (c k) ≡ false)
  free_index [] c distinct = (0, omega arith, refl)
  free_index (r ∷ rows) c distinct =
      let (k, below, free) = free_index rows c distinct in
      elim (Bool-cases (r.funnel_id == funnel && r.code =ˢ c k)) [
        | inr other ↦ (k, omega (arith, below), ground (arith, other, free))
        | inl hit ↦
            let (m, below', free') =
              free_index rows (λ i. c (skip k i))
                (λ i j same. skip_inj k i j (distinct (skip k i) (skip k j) same)) in
            let code : r.code ≡ c k =
              (eq_iff r.code (c k)).0 (&&_elim (r.funnel_id == funnel) (r.code =ˢ c k) hit).1 in
            let away : (r.code =ˢ c (skip k m)) ≡ true → ⊥ = λ e.
              skip-≢ k m
                (distinct (skip k m) k (sym ((eq_iff r.code (c (skip k m))).0 e) ∙ code)) in
            (skip k m, omega (arith, skip_bound k m, below'), ground (arith, away, free'))
      ]

  module _ (sprintf : String → ℕ → String) (rows : List StageRow) (source : String) where
    abbrev Found : Option String → Type 0
    Found answer = (code : String) × (answer ≡ some code) × (is_taken funnel rows code ≡ false)

    search :
        (m i fuel : ℕ) (code : String)
        → m < fuel
        → is_taken funnel rows (sprintf source (i + m)) ≡ false
        → Found (free_code sprintf funnel rows source i (suc fuel) code)
    unfolding free_code
    search m i zero code less free = absurd (omega (arith, less))
    search zero i (suc fuel) code less free = elim (Bool-cases (is_taken funnel rows code)) [
      | inr open_ ↦ (code, simp open_ refl, open_)
      | inl taken ↦
          let here : is_taken funnel rows (sprintf source i) ≡ false =
            subst (λ n. is_taken funnel rows (sprintf source n) ≡ false) (omega arith) free in
          (sprintf source i, simp (taken, here) refl, here)
    ]
    search (suc m) i (suc fuel) code less free = elim (Bool-cases (is_taken funnel rows code)) [
      | inr open_ ↦ (code, simp open_ refl, open_)
      | inl taken ↦
          let later : is_taken funnel rows (sprintf source (suc i + m)) ≡ false =
            subst (λ n. is_taken funnel rows (sprintf source n) ≡ false) (omega arith) free in
          let (found, is, open_) =
            search m (suc i) fuel (sprintf source i) (omega (arith, less)) later in
          (found, simp taken is, open_)
    ]

-- Copying a stage ends: where `fmt.Sprintf` gives different codes for different numbers, the loop
-- finds a code within two more turns than there are stages, and no stage of the funnel has it.
pub copy_code_found :
    (sprintf : String → ℕ → String) (g : StageRow) (rows : List StageRow)
    → Distinct (sprintf g.code)
    → (code : String) × (copy_code sprintf g rows ≡ some code)
      × (is_taken g.funnel_id rows code ≡ false)
copy_code_found sprintf g rows distinct =
    let (k, below, free) =
      free_index g.funnel_id rows (λ i. sprintf g.code (suc i))
        (λ i j same. omega (arith, distinct (suc i) (suc j) same)) in
    search g.funnel_id sprintf rows g.code k 1 (suc (length rows)) g.code (omega (arith, below))
      (subst (λ n. is_taken g.funnel_id rows (sprintf g.code n) ≡ false) (omega arith) free)
