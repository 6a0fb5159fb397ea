-- ===== src/Prelude/Cuts.antt =====
-- Lists cut at a position, and what is left above a number in ascending order.
use Prim.Native.Nat.{ℕ, zero, suc, ◌-◌, ◌≤◌, ◌<◌}
use mathlib.Core.Path.{◌≡◌, refl, ap, subst}
use mathlib.Core.Logic.{inl, inr}
use mathlib.Core.Bool.{Bool, true, ◌&&◌}
use mathlib.Core.Option.{Option, some, none}
use mathlib.Core.List.{List, [], ◌∷◌, ◌++◌}
use native.Mathlib.Omega.{arith}
use package.carry.Prelude.Tests.{Bool-cases, ltb, ◌==◌}
use package.carry.Prelude.Lists.{All, take, drop, length}
use package.carry.Prelude.Rows.{select, insert_by, sort_by}
use package.carry.Prelude.Rows.{count}
use package.carry.Prelude.Pairs.{Pairwise, sort_by-Pairwise}

module _ {ℓ} {A : Type ℓ} where
  abbrev pub get_elem? : List A → ℕ → Option A
  get_elem? [] n = none
  get_elem? (x ∷ xs) zero = some x
  get_elem? (x ∷ xs) (suc n) = get_elem? xs n

  pub take-take : (n : ℕ) (xs : List A) → take n (take (suc n) xs) ≡ take n xs
  take-take zero xs = refl
  take-take (suc n) [] = refl
  take-take (suc n) (x ∷ xs) = ap (λ ys. x ∷ ys) (take-take n xs)

  pub get_elem?-take : (n : ℕ) (xs : List A) → get_elem? (take (suc (suc n)) xs) n ≡ get_elem? xs n
  get_elem?-take n [] = refl
  get_elem?-take zero (x ∷ xs) = refl
  get_elem?-take (suc n) (x ∷ xs) = get_elem?-take n xs

  pub length-take_one_more :
      (n : ℕ) (xs : List A) → ltb n (length (take (suc n) xs)) ≡ ltb n (length xs)
  length-take_one_more n [] = refl
  length-take_one_more zero (x ∷ xs) = ground arith
  length-take_one_more (suc n) (x ∷ xs) = ground (arith, length-take_one_more n xs)

  pub take_all : (n : ℕ) (xs : List A) → length xs ≤ n → take n xs ≡ xs
  take_all zero [] h = refl
  take_all (suc n) [] h = refl
  take_all zero (x ∷ xs) h = absurd (omega arith)
  take_all (suc n) (x ∷ xs) h = ap (λ ys. x ∷ ys) (take_all n xs (omega arith))

  pub take-drop : (n : ℕ) (xs : List A) → take n xs ++ drop n xs ≡ xs
  take-drop zero xs = refl
  take-drop (suc n) [] = refl
  take-drop (suc n) (x ∷ xs) = ap (λ ys. x ∷ ys) (take-drop n xs)

  pub length-drop : (n : ℕ) (xs : List A) → length (drop n xs) ≡ length xs - n
  length-drop zero xs = omega arith
  length-drop (suc n) [] = omega arith
  length-drop (suc n) (x ∷ xs) = omega (arith, length-drop n xs)

  pub get_elem?-some : (n : ℕ) (xs : List A) → n < length xs → (x : A) × (get_elem? xs n ≡ some x)
  get_elem?-some n [] h = absurd (omega arith)
  get_elem?-some zero (x ∷ xs) h = (x, refl)
  get_elem?-some (suc n) (x ∷ xs) h = get_elem?-some n xs (omega arith)

  pub length-select : (p : A → Bool) (xs : List A) → length (select p xs) ≤ length xs
  length-select p [] = omega arith
  length-select p (x ∷ xs) = ground (arith, length-select p xs)

  pub select_same :
      (p q : A → Bool) → ((x : A) → p x ≡ q x) → (xs : List A) → select p xs ≡ select q xs
  select_same p q same [] = refl
  select_same p q same (x ∷ xs) = ground (arith, same x, select_same p q same xs)

  pub select-select :
      (p q : A → Bool) (xs : List A) → select p (select q xs) ≡ select (λ x. q x && p x) xs
  select-select p q [] = refl
  select-select p q (x ∷ xs) = ground (arith, select-select p q xs)

  pub select_all : (p : A → Bool) (xs : List A) → All (λ x. p x ≡ true) xs → select p xs ≡ xs
  select_all p [] h = refl
  select_all p (x ∷ xs) h = ground (arith, h.0, select_all p xs h.1)

  All-among : (P : A → Type 0) (q : A → Bool) (xs : List A) → All P xs → All P (select q xs)
  All-among P q [] h = tt
  All-among P q (x ∷ xs) h = elim (Bool-cases (q x)) [
    | inl e ↦ rw e (h.0, All-among P q xs h.1)
    | inr e ↦ rw e (All-among P q xs h.1)
  ]

  pub Pairwise-select :
      (R : A → A → Type 0) (q : A → Bool) (xs : List A) → Pairwise R xs → Pairwise R (select q xs)
  Pairwise-select R q [] h = tt
  Pairwise-select R q (x ∷ xs) h = elim (Bool-cases (q x)) [
    | inl e ↦ rw e (All-among (R x) q xs h.0, Pairwise-select R q xs h.1)
    | inr e ↦ rw e (Pairwise-select R q xs h.1)
  ]

  pub get_elem?-All :
      (P : A → Type 0) (n : ℕ) (xs : List A) (x : A) → All P xs → get_elem? xs n ≡ some x → P x
  get_elem?-All P n [] x h e = cc
  get_elem?-All P zero (y ∷ ys) x h e = let same : y ≡ x = ground arith in subst P same h.0
  get_elem?-All P (suc n) (y ∷ ys) x h e = get_elem?-All P n ys x h.1 e

module _ {ℓ} {A : Type ℓ} (key : A → ℕ) where
  abbrev pub above : ℕ → A → Bool
  above n x = ltb n (key x)

  all_above :
      (n : ℕ) (x : A) (xs : List A)
      → n ≤ key x
      → All (λ y. key x < key y) xs
      → All (λ y. above n y ≡ true) xs
  all_above n x [] l h = tt
  all_above n x (y ∷ ys) l h = (ground (arith, h.0), all_above n x ys l h.1)

  -- Above an entry of an ascending list is what comes after it.
  pub select-above :
      (n : ℕ) (xs : List A) (x : A)
      → Pairwise (λ a b. key a < key b) xs
      → get_elem? xs n ≡ some x
      → select (above (key x)) xs ≡ drop (suc n) xs
  select-above n [] x h e = refl
  select-above zero (y ∷ ys) x h e =
      let same : y ≡ x = ground arith in
      let rest =
        select_all (above (key x)) ys (all_above (key x) y ys (omega (arith, ap key same)) h.0) in
      ground (arith, ap key same, rest)
  select-above (suc n) (y ∷ ys) x h e =
      let less = get_elem?-All (λ b. key y < key b) n ys x h.0 e in
      let rest = select-above n ys x h.1 e in ground (arith, less, rest)

  length-insert_by : (x : A) (xs : List A) → length (insert_by key x xs) ≡ suc (length xs)
  length-insert_by x [] = refl
  length-insert_by x (y ∷ ys) = ground (arith, length-insert_by x ys)

  pub length-sort_by : (xs : List A) → length (sort_by key xs) ≡ length xs
  length-sort_by [] = refl
  length-sort_by (x ∷ xs) = omega (arith, length-insert_by x (sort_by key xs), length-sort_by xs)

  count-insert_by :
      (p : A → Bool) (x : A) (ys : List A) → count p (insert_by key x ys) ≡ count p (x ∷ ys)
  count-insert_by p x [] = refl
  count-insert_by p x (y ∷ ys) = ground (arith, count-insert_by p x ys)

  pub count-sort_by : (p : A → Bool) (xs : List A) → count p (sort_by key xs) ≡ count p xs
  count-sort_by p [] = refl
  count-sort_by p (x ∷ xs) =
      let one = count-insert_by p x (sort_by key xs) in
      let rest = count-sort_by p xs in ground arith

  -- In ascending order with different keys, the order is strict.
  strictly :
      (x : A) (ys : List A)
      → count (λ y. key y == key x) ys ≡ 0
      → All (λ y. key x ≤ key y) ys
      → All (λ y. key x < key y) ys
  strictly x [] c h = tt
  strictly x (y ∷ ys) c h = (ground (arith, h.0), strictly x ys (ground arith) h.1)

  pub Pairwise-strict :
      (xs : List A)
      → ((i : ℕ) → count (λ y. key y == i) xs ≤ 1)
      → Pairwise (λ a b. key a ≤ key b) xs
      → Pairwise (λ a b. key a < key b) xs
  Pairwise-strict [] c h = tt
  Pairwise-strict (x ∷ xs) c h = (
    strictly x xs (ground (arith, c (key x))) h.0,
    Pairwise-strict xs (λ i. ground (arith, c i)) h.1,
  )

  pub sort_by-strict :
      (xs : List A)
      → ((i : ℕ) → count (λ y. key y == i) xs ≤ 1)
      → Pairwise (λ a b. key a < key b) (sort_by key xs)
  sort_by-strict xs c =
      Pairwise-strict (sort_by key xs) (λ i. omega (arith, c i, count-sort_by (λ y. key y == i) xs))
        (sort_by-Pairwise key xs)
