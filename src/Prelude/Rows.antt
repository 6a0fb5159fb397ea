-- ===== src/Prelude/Rows.antt =====
-- Tables as lists of rows: the first row that a condition selects, an update of the selected
-- rows, and the least selected row of an order (`ORDER BY … LIMIT 1`).
use Prim.Native.Nat.{ℕ, ◌+◌}
use mathlib.Core.Bool.{Bool, true, false}
use mathlib.Core.Path.{◌≡◌, refl}
use mathlib.Core.Logic.{inl, inr}
use native.Mathlib.Omega.{arith}
use package.carry.Prelude.Lists.{any}
use mathlib.Core.List.{List, [], ◌∷◌}
use mathlib.Core.Option.{Option, none, some}
use package.carry.Prelude.Tests.{Bool-cases, leb, if◌then◌else◌}

module _ {ℓ} {A : Type ℓ} where
  abbrev pub find : (A → Bool) → List A → Option A
  find p [] = none
  find p (x ∷ xs) = if p x then some x else find p xs

  abbrev pub update : (A → Bool) → (A → A) → List A → List A
  update p f [] = []
  update p f (x ∷ xs) = (if p x then f x else x) ∷ update p f xs

  -- `RowsAffected`.
  abbrev pub count : (A → Bool) → List A → ℕ
  count p [] = 0
  count p (x ∷ xs) = (if p x then 1 else 0) + count p xs

  -- Keeps the earlier of the two, the first one if the order does not tell.
  abbrev pub earlier_of : (A → A → Bool) → A → Option A → A
  earlier_of before x none = x
  earlier_of before x (some y) = if before y x then y else x

  abbrev pub first_by : (A → A → Bool) → List A → Option A
  first_by before [] = none
  first_by before (x ∷ xs) = some (earlier_of before x (first_by before xs))

  -- The rows of a `WHERE` clause.
  abbrev pub select : (A → Bool) → List A → List A
  select p [] = []
  select p (x ∷ xs) = if p x then x ∷ select p xs else select p xs

  -- The values that a partial function takes on the rows.
  abbrev pub select_map {κ} : {B : Type κ} → (A → Option B) → List A → List B
  select_map f [] = []
  select_map f (x ∷ xs) =
      let rest = select_map f xs in elim (f x) [ none ↦ rest | some y ↦ y ∷ rest ]

  -- `ORDER BY` a number.
  abbrev pub insert_by : (A → ℕ) → A → List A → List A
  insert_by key x [] = x ∷ []
  insert_by key x (y ∷ ys) = if leb (key x) (key y) then x ∷ y ∷ ys else y ∷ insert_by key x ys

  abbrev pub sort_by : (A → ℕ) → List A → List A
  sort_by key [] = []
  sort_by key (x ∷ xs) = insert_by key x (sort_by key xs)

-- What an update does to one row.
module _ {ℓ} {A : Type ℓ} where
  abbrev pub amend : (A → Bool) → (A → A) → A → A
  amend q f x = if q x then f x else x

  -- An update that keeps the key of each row keeps its place.
  pub find-update :
      (p q : A → Bool) (f : A → A)
      → ((x : A) → p (f x) ≡ p x)
      → (xs : List A) {x : A} → find p xs ≡ some x
      → find p (update q f xs) ≡ some (amend q f x)
  find-update p q f keep [] {x} h = cc
  find-update p q f keep (y ∷ ys) {x} h = ground (arith, keep y, find-update p q f keep ys {x = x})

  pub find-update-none :
      (p q : A → Bool) (f : A → A)
      → ((x : A) → p (f x) ≡ p x)
      → (xs : List A) → find p xs ≡ none
      → find p (update q f xs) ≡ none
  find-update-none p q f keep [] h = refl
  find-update-none p q f keep (y ∷ ys) h = ground (arith, keep y, find-update-none p q f keep ys)

  pub find-update_back :
      (p q : A → Bool) (f : A → A)
      → ((x : A) → p (f x) ≡ p x)
      → (xs : List A) {y : A} → find p (update q f xs) ≡ some y
      → (x : A) × (find p xs ≡ some x) × (y ≡ amend q f x)
  find-update_back p q f keep [] {y} h = cc
  find-update_back p q f keep (x ∷ xs) {y} h = elim (Bool-cases (p x)) [
    | inl e ↦ (x, ground arith, ground (arith, keep x))
    | inr e ↦
        let (z, hz, i) = find-update_back p q f keep xs {y = y} (ground (arith, keep x)) in
        (z, ground arith, i)
  ]

  -- The first row that a test selects passes it.
  pub find_sound : (p : A → Bool) (xs : List A) {x : A} → find p xs ≡ some x → p x ≡ true
  find_sound p [] {x} h = cc
  find_sound p (y ∷ ys) {x} h = ground (arith, find_sound p ys {x = x})

  pub find-none-any : (p : A → Bool) (xs : List A) → any p xs ≡ false → find p xs ≡ none
  find-none-any p [] h = refl
  find-none-any p (y ∷ ys) h = ground (arith, find-none-any p ys)
