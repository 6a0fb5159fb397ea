-- ===== src/Prelude/Ordered.antt =====
-- What holds of every row goes through `select`, `sort_by` and `take`.
use Prim.Native.Nat.{ℕ, zero, suc}
use mathlib.Core.Path.{◌≡◌, refl, subst}
use mathlib.Core.Logic.{inl, inr}
use mathlib.Core.Bool.{Bool, true, false}
use mathlib.Core.Option.{some, none}
use mathlib.Core.List.{List, [], ◌∷◌}
use native.Mathlib.Omega.{arith}
use package.carry.Prelude.Tests.{Bool-cases, Option-cases, leb}
use package.carry.Prelude.Lists.{All, take}
use package.carry.Prelude.Rows.{select, insert_by, sort_by, first_by}

module _ {ℓ κ} {A : Type ℓ} (P : A → Type κ) where
  pub All-take : (n : ℕ) (xs : List A) → All P xs → All P (take n xs)
  All-take zero xs h = tt
  All-take (suc n) [] h = tt
  All-take (suc n) (x ∷ xs) h = (h.0, All-take n xs h.1)

  pub All-insert_by :
      (key : A → ℕ) (x : A) (xs : List A) → P x → All P xs → All P (insert_by key x xs)
  All-insert_by key x [] hx h = (hx, h)
  All-insert_by key x (y ∷ ys) hx h = elim (Bool-cases (leb (key x) (key y))) [
    | inl e ↦ rw e (hx, h)
    | inr e ↦ rw e (h.0, All-insert_by key x ys hx h.1)
  ]

  pub All-sort_by : (key : A → ℕ) (xs : List A) → All P xs → All P (sort_by key xs)
  All-sort_by key [] h = h
  All-sort_by key (x ∷ xs) h = All-insert_by key x (sort_by key xs) h.0 (All-sort_by key xs h.1)

  pub All-select :
      (p : A → Bool) → ((x : A) → p x ≡ true → P x) → (xs : List A) → All P (select p xs)
  All-select p holds [] = tt
  All-select p holds (x ∷ xs) = elim (Bool-cases (p x)) [
    | inl e ↦ rw e (holds x e, All-select p holds xs)
    | inr e ↦ rw e (All-select p holds xs)
  ]

pub first_by-none {ℓ} :
    {A : Type ℓ} (before : A → A → Bool) (xs : List A) → first_by before xs ≡ none → xs ≡ []
first_by-none before [] h = refl
first_by-none before (x ∷ xs) h = cc

-- The row of `ORDER BY … LIMIT 1`: no selected row comes before it.
module _ {ℓ} {A : Type ℓ} (before : A → A → Bool)
    (asym : (x y : A) → before x y ≡ true → before y x ≡ false)
    (not_trans : (x y z : A) → before x y ≡ false → before y z ≡ false → before x z ≡ false) where
  irrefl : (x : A) → before x x ≡ false
  irrefl x = elim (Bool-cases (before x x)) [ inl e ↦ asym x x e | inr e ↦ e ]

  after_both :
      (x y : A) (xs : List A)
      → before y x ≡ false
      → All (λ z. before z y ≡ false) xs
      → All (λ z. before z x ≡ false) xs
  after_both x y [] h a = tt
  after_both x y (z ∷ zs) h a = (not_trans z y x a.0 h, after_both x y zs h a.1)

  pub first_by-least :
      (xs : List A) {x : A} → first_by before xs ≡ some x → All (λ y. before y x ≡ false) xs
  first_by-least [] {x} h = cc
  first_by-least (y ∷ []) {x} h =
      let same : y ≡ x = ground arith in (subst (λ v. before y v ≡ false) same (irrefl y), tt)
  first_by-least (y ∷ w ∷ ws) {x} h = elim (Option-cases (first_by before (w ∷ ws))) [
    | inl e ↦ cc
    | inr (z, e) ↦ elim (Bool-cases (before z y)) [
      | inl b ↦
          let same : z ≡ x = ground arith in
          subst (λ v. All (λ u. before u v ≡ false) (y ∷ w ∷ ws)) same
            (asym z y b, first_by-least (w ∷ ws) e)
      | inr b ↦
          let same : y ≡ x = ground arith in
          subst (λ v. All (λ u. before u v ≡ false) (y ∷ w ∷ ws)) same
            (irrefl y, after_both y z (w ∷ ws) b (first_by-least (w ∷ ws) e))
    ]
  ]
