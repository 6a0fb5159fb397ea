-- ===== src/Prelude/Parts.antt =====
-- The entries of a list that is cut, turned around or put in order, and how many there are of each.
use Prim.Native.Nat.{ℕ, ◌+◌, ◌≤◌, zero, suc}
use mathlib.Core.Bool.{Bool}
use mathlib.Core.Path.{◌≡◌, refl, sym, subst, ap}
use mathlib.Core.Logic.{◌⊎◌, inl, inr}
use mathlib.Core.List.{List, [], ◌∷◌, ◌++◌, Memᴰ, reverse, reverse-cons, reverse-reverse}
use native.Mathlib.Omega.{arith}
use package.carry.Prelude.Tests.{Bool-cases, leb}
use package.carry.Prelude.Lists.{All, take, length}
use package.carry.Prelude.Rows.{count, select, insert_by, sort_by}
use package.carry.Prelude.Counts.{mem-cases}
use package.carry.Prelude.Members.{All-has}
use package.carry.Prelude.Pairs.{Pairwise}

module _ {ℓ} {A : Type ℓ} where
  pub mem-take : (n : ℕ) (xs : List A) {x : A} → Memᴰ x (take n xs) → Memᴰ x xs
  mem-take zero xs m = elim m [ ]
  mem-take (suc n) [] m = elim m [ ]
  mem-take (suc n) (y ∷ ys) m = elim (mem-cases m) [
    | inl e ↦ Memᴰ.head e
    | inr k ↦ Memᴰ.tail (mem-take n ys k)
  ]

  mem-front : (xs ys : List A) {x : A} → Memᴰ x xs → Memᴰ x (xs ++ ys)
  mem-front [] ys m = elim m [ ]
  mem-front (z ∷ zs) ys m = elim (mem-cases m) [
    | inl e ↦ Memᴰ.head e
    | inr k ↦ Memᴰ.tail (mem-front zs ys k)
  ]

  mem-back : (xs ys : List A) {x : A} → Memᴰ x ys → Memᴰ x (xs ++ ys)
  mem-back [] ys m = m
  mem-back (z ∷ zs) ys m = Memᴰ.tail (mem-back zs ys m)

  pub mem-reverse : (xs : List A) {x : A} → Memᴰ x xs → Memᴰ x (reverse xs)
  mem-reverse [] m = elim m [ ]
  mem-reverse (y ∷ ys) {x} m = subst (Memᴰ x) (sym (reverse-cons y ys)) (elim (mem-cases m) [
    | inl e ↦ mem-back (reverse ys) (y ∷ []) (Memᴰ.head e)
    | inr k ↦ mem-front (reverse ys) (y ∷ []) (mem-reverse ys k)
  ])

  pub mem-unreverse : (xs : List A) {x : A} → Memᴰ x (reverse xs) → Memᴰ x xs
  mem-unreverse xs {x} m = subst (Memᴰ x) (reverse-reverse xs) (mem-reverse (reverse xs) m)

  -- What a cut leaves out comes after all that it keeps, and then the cut is full.
  pub take-rest :
      (R : A → A → Type 0) (n : ℕ) (xs : List A) {x : A}
      → Pairwise R xs
      → Memᴰ x xs
      → Memᴰ x (take n xs) ⊎ ((length (take n xs) ≡ n) × All (λ y. R y x) (take n xs))
  take-rest R zero xs h m = inr (refl, tt)
  take-rest R (suc n) [] h m = elim m [ ]
  take-rest R (suc n) (y ∷ ys) {x} h m = elim (mem-cases m) [
    | inl e ↦ inl (Memᴰ.head e)
    | inr k ↦ elim (take-rest R n ys h.1 k) [
      | inl t ↦ inl (Memᴰ.tail t)
      | inr (l, a) ↦ inr (omega (arith, l), (All-has (R y) ys h.0 k, a))
    ]
  ]

module _ {ℓ} {A : Type ℓ} (p : A → Bool) where
  pub count-take : (n : ℕ) (xs : List A) → count p (take n xs) ≤ count p xs
  count-take zero xs = omega arith
  count-take (suc n) [] = omega arith
  count-take (suc n) (x ∷ xs) = ground (arith, count-take n xs)

  pub count-select : (q : A → Bool) (xs : List A) → count p (select q xs) ≤ count p xs
  count-select q [] = omega arith
  count-select q (x ∷ xs) = ground (arith, count-select q xs)

  count-append : (xs ys : List A) → count p (xs ++ ys) ≡ count p xs + count p ys
  count-append [] ys = omega arith
  count-append (x ∷ xs) ys = ground (arith, count-append xs ys)

  pub count-reverse : (xs : List A) → count p (reverse xs) ≡ count p xs
  count-reverse [] = refl
  count-reverse (x ∷ xs) =
      let turned = ap (count p) (reverse-cons x xs) in
      let parts = count-append (reverse xs) (x ∷ []) in let rest = count-reverse xs in ground arith

module _ {ℓ} {A : Type ℓ} (key : A → ℕ) where
  mem-insert_by : (y : A) (ys : List A) {x : A} → Memᴰ x (y ∷ ys) → Memᴰ x (insert_by key y ys)
  mem-insert_by y [] m = m
  mem-insert_by y (z ∷ zs) m = elim (Bool-cases (leb (key y) (key z))) [
    | inl e ↦ rw e m
    | inr e ↦ rw e (elim (mem-cases m) [
      | inl s ↦ Memᴰ.tail (mem-insert_by y zs (Memᴰ.head s))
      | inr k ↦ elim (mem-cases k) [
        | inl s ↦ Memᴰ.head s
        | inr l ↦ Memᴰ.tail (mem-insert_by y zs (Memᴰ.tail l))
      ]
    ])
  ]

  mem-uninsert_by : (y : A) (ys : List A) {x : A} → Memᴰ x (insert_by key y ys) → Memᴰ x (y ∷ ys)
  mem-uninsert_by y [] m = m
  mem-uninsert_by y (z ∷ zs) m = elim (Bool-cases (leb (key y) (key z))) [
    | inl e ↦ rw e at m
    | inr e ↦ elim (mem-cases (rw e at m)) [
      | inl s ↦ Memᴰ.tail (Memᴰ.head s)
      | inr k ↦ elim (mem-cases (mem-uninsert_by y zs k)) [
        | inl s ↦ Memᴰ.head s
        | inr l ↦ Memᴰ.tail (Memᴰ.tail l)
      ]
    ]
  ]

  pub mem-sort_by : (xs : List A) {x : A} → Memᴰ x xs → Memᴰ x (sort_by key xs)
  mem-sort_by [] m = m
  mem-sort_by (y ∷ ys) m =
      mem-insert_by y (sort_by key ys)
        (elim (mem-cases m) [ inl e ↦ Memᴰ.head e | inr k ↦ Memᴰ.tail (mem-sort_by ys k) ])

  pub mem-unsort_by : (xs : List A) {x : A} → Memᴰ x (sort_by key xs) → Memᴰ x xs
  mem-unsort_by [] m = m
  mem-unsort_by (y ∷ ys) m = elim (mem-cases (mem-uninsert_by y (sort_by key ys) m)) [
    | inl e ↦ Memᴰ.head e
    | inr k ↦ Memᴰ.tail (mem-unsort_by ys k)
  ]
