-- ===== src/Prelude/Pairs.antt =====
-- A relation that holds between each entry of a list and every later one.
use Prim.Native.Nat.{ℕ, zero, suc, ◌≤◌}
use mathlib.Core.Path.{sym, subst}
use mathlib.Core.Logic.{inl, inr}
use mathlib.Core.List.{List, [], ◌∷◌, ◌++◌, map, reverse, reverse-cons}
use native.Mathlib.Omega.{arith}
use package.carry.Prelude.Tests.{Bool-cases, leb}
use package.carry.Prelude.Lists.{All, All-reverse, take}
use package.carry.Prelude.Rows.{insert_by, sort_by}
use package.carry.Prelude.Ordered.{All-take, All-insert_by}

module _ {ℓ} {A : Type ℓ} (R : A → A → Type 0) where
  abbrev pub Pairwise : List A → Type ℓ
  Pairwise [] = Unit
  Pairwise (x ∷ xs) = All (R x) xs × Pairwise xs

  pub Pairwise-take : (n : ℕ) (xs : List A) → Pairwise xs → Pairwise (take n xs)
  Pairwise-take zero xs h = tt
  Pairwise-take (suc n) [] h = tt
  Pairwise-take (suc n) (x ∷ xs) h = (All-take (R x) n xs h.0, Pairwise-take n xs h.1)

  All-snoc : (x y : A) (zs : List A) → All (R x) zs → R x y → All (R x) (zs ++ (y ∷ []))
  All-snoc x y [] b r = (r, tt)
  All-snoc x y (z ∷ zs) b r = (b.0, All-snoc x y zs b.1 r)

  pub Pairwise-snoc :
      (xs : List A) (y : A) → Pairwise xs → All (λ x. R x y) xs → Pairwise (xs ++ (y ∷ []))
  Pairwise-snoc [] y h a = (tt, tt)
  Pairwise-snoc (x ∷ xs) y h a = (All-snoc x y xs h.0 a.0, Pairwise-snoc xs y h.1 a.1)

pub Pairwise-reverse {ℓ} :
    {A : Type ℓ} (R : A → A → Type 0) (xs : List A)
    → Pairwise R xs
    → Pairwise (λ x y. R y x) (reverse xs)
Pairwise-reverse R [] h = tt
Pairwise-reverse R (x ∷ xs) h = subst (Pairwise (λ x y. R y x)) (sym (reverse-cons x xs)) (
    Pairwise-snoc (λ x y. R y x) (reverse xs) x (Pairwise-reverse R xs h.1)
      (All-reverse (R x) xs h.0))

module _ {ℓ} {A : Type ℓ} (key : A → ℕ) where
  later :
      (x y : A) (zs : List A)
      → key x ≤ key y
      → All (λ b. key y ≤ key b) zs
      → All (λ b. key x ≤ key b) zs
  later x y [] l a = tt
  later x y (z ∷ zs) l a = (omega (arith, l, a.0), later x y zs l a.1)

  pub insert_by-Pairwise :
      (x : A) (xs : List A)
      → Pairwise (λ a b. key a ≤ key b) xs
      → Pairwise (λ a b. key a ≤ key b) (insert_by key x xs)
  insert_by-Pairwise x [] h = (tt, tt)
  insert_by-Pairwise x (y ∷ ys) h = elim (Bool-cases (leb (key x) (key y))) [
    | inl e ↦ rw e ((ground arith, later x y ys (ground arith) h.0), h)
    | inr e ↦ rw e (
      All-insert_by (λ b. key y ≤ key b) key x ys (ground arith) h.0,
      insert_by-Pairwise x ys h.1,
    )
  ]

  pub sort_by-Pairwise : (xs : List A) → Pairwise (λ a b. key a ≤ key b) (sort_by key xs)
  sort_by-Pairwise [] = tt
  sort_by-Pairwise (x ∷ xs) = insert_by-Pairwise x (sort_by key xs) (sort_by-Pairwise xs)

module _ {ℓ κ} {A : Type ℓ} {B : Type κ} (f : A → B) where
  pub All-map : (P : B → Type 0) (xs : List A) → All (λ x. P (f x)) xs → All P (map f xs)
  All-map P [] h = tt
  All-map P (x ∷ xs) h = (h.0, All-map P xs h.1)

  pub Pairwise-map :
      (R : B → B → Type 0) (xs : List A)
      → Pairwise (λ x y. R (f x) (f y)) xs
      → Pairwise R (map f xs)
  Pairwise-map R [] h = tt
  Pairwise-map R (x ∷ xs) h = (All-map (R (f x)) xs h.0, Pairwise-map R xs h.1)
