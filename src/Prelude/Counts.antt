-- ===== src/Prelude/Counts.antt =====
-- How many rows a test selects, and rows that a table holds once.
use Prim.Native.Nat.{◌≤◌}
use mathlib.Core.Path.{◌≡◌, refl, sym, subst}
use mathlib.Core.Logic.{◌⊎◌, inl, inr}
use mathlib.Core.Bool.{Bool, true, false, ◌&&◌}
use mathlib.Core.List.{List, [], ◌∷◌, Memᴰ}
use mathlib.Core.Option.{some, none}
use native.Mathlib.Omega.{arith}
use package.carry.Prelude.Tests.{Bool-cases, Option-cases}
use package.carry.Prelude.Lists.{any}
use package.carry.Prelude.Rows.{find, update, count, first_by, select}

module _ {ℓ} {A : Type ℓ} where
  pub mem-cases : {x y : A} {ys : List A} → Memᴰ x (y ∷ ys) → (x ≡ y) ⊎ Memᴰ x ys
  mem-cases (Memᴰ.head e) = inl e
  mem-cases (Memᴰ.tail m) = inr m

  pub count-any : (p : A → Bool) (xs : List A) → any p xs ≡ false → count p xs ≡ 0
  count-any p [] h = refl
  count-any p (x ∷ xs) h = ground (arith, count-any p xs)

  pub count-update-le :
      (p q : A → Bool) (f : A → A)
      → ((x : A) → q x ≡ true → p (f x) ≡ true → p x ≡ true)
      → (xs : List A) → count p (update q f xs) ≤ count p xs
  count-update-le p q f back [] = omega arith
  count-update-le p q f back (x ∷ xs) = ground (arith, back x, count-update-le p q f back xs)

  pub any-update :
      (p q : A → Bool) (f : A → A)
      → ((x : A) → p (f x) ≡ p x)
      → (xs : List A) → any p (update q f xs) ≡ any p xs
  any-update p q f keep [] = refl
  any-update p q f keep (x ∷ xs) = ground (arith, keep x, any-update p q f keep xs)

  pub find-any : (p : A → Bool) (xs : List A) {x : A} → find p xs ≡ some x → any p xs ≡ true
  find-any p [] {x} h = cc
  find-any p (y ∷ ys) {x} h = ground (arith, find-any p ys {x = x})

  pub any-false : (p : A → Bool) (xs : List A) {x : A} → any p xs ≡ false → find p xs ≡ some x → ⊥
  any-false p xs {x} h e = ground (arith, find-any p xs {x = x})

  pub find-count :
      (p q : A → Bool) (xs : List A) {x : A} → find q xs ≡ some x → p x ≡ true → 1 ≤ count p xs
  find-count p q [] {x} h e = cc
  find-count p q (y ∷ ys) {x} h e = ground (arith, find-count p q ys {x = x})

  -- Two different rows that pass a test are two.
  pub count_two :
      (p a b : A → Bool) (xs : List A) {x y : A}
      → find a xs ≡ some x
      → find b xs ≡ some y
      → p x ≡ true
      → p y ≡ true
      → b x ≡ false
      → a y ≡ false
      → 2 ≤ count p xs
  count_two p a b [] {x} {y} ha hb px py bx ay = cc
  count_two p a b (z ∷ zs) {x} {y} ha hb px py bx ay = ground (
    arith,
    count_two p a b zs {x = x} {y = y},
    find-count p a zs {x = x},
    find-count p b zs {x = y},
  )

  -- A row that passes the narrower of two tests is the one that passes the wider, if that is one.
  pub any-find :
      (p q : A → Bool)
      → ((x : A) → q x ≡ true → p x ≡ true)
      → (xs : List A) → count p xs ≤ 1
      → any q xs ≡ true
      → (x : A) × (find p xs ≡ some x) × (q x ≡ true)
  any-find p q narrow [] one h = cc
  any-find p q narrow (x ∷ xs) one h = elim (Bool-cases (q x)) [
    | inl e ↦ (x, ground (arith, narrow x e), e)
    | inr e ↦ elim (Bool-cases (p x)) [
      | inr f ↦
          let (y, hy, qy) = any-find p q narrow xs (ground arith) (ground arith) in
          (y, ground arith, qy)
      | inl f ↦
          let (y, hy, qy) = any-find p q narrow xs (ground arith) (ground arith) in
          absurd (ground (arith, find-count p p xs {x = y}, narrow y qy))
    ]
  ]

  pub mem-count : (p : A → Bool) (xs : List A) {x : A} → Memᴰ x xs → p x ≡ true → 1 ≤ count p xs
  mem-count p [] m h = elim m [ ]
  mem-count p (y ∷ ys) (Memᴰ.head e) h = ground (arith, subst (λ z. p z ≡ true) e h)
  mem-count p (y ∷ ys) (Memᴰ.tail m) h = ground (arith, mem-count p ys m h)

  pub mem-find :
      (p : A → Bool) (xs : List A) {x : A}
      → count p xs ≤ 1
      → p x ≡ true
      → Memᴰ x xs
      → find p xs ≡ some x
  mem-find p [] one h m = elim m [ ]
  mem-find p (y ∷ ys) one h (Memᴰ.head e) = ground (arith, subst (λ z. p z ≡ true) e h)
  mem-find p (y ∷ ys) one h (Memᴰ.tail m) =
      ground (arith, mem-count p ys m h, mem-find p ys (ground arith) h m)

  pub find-mem : (p : A → Bool) (xs : List A) {x : A} → find p xs ≡ some x → Memᴰ x xs
  find-mem p [] {x} h = cc
  find-mem p (y ∷ ys) {x} h = elim (Bool-cases (p y)) [
    | inl e ↦ Memᴰ.head (ground arith)
    | inr e ↦ Memᴰ.tail (find-mem p ys (ground arith))
  ]

  pub select-mem :
      (p : A → Bool) (xs : List A) {x : A} → Memᴰ x (select p xs) → Memᴰ x xs × (p x ≡ true)
  select-mem p [] m = elim m [ ]
  select-mem p (y ∷ ys) {x} m = elim (Bool-cases (p y)) [
    | inl e ↦ elim (mem-cases (rw e at m)) [
      | inl i ↦ (Memᴰ.head i, subst (λ z. p z ≡ true) (sym i) e)
      | inr n ↦ let (o, h) = select-mem p ys n in (Memᴰ.tail o, h)
    ]
    | inr e ↦ let (o, h) = select-mem p ys (rw e at m) in (Memᴰ.tail o, h)
  ]

  pub first_by-mem :
      (before : A → A → Bool) (xs : List A) {x : A} → first_by before xs ≡ some x → Memᴰ x xs
  first_by-mem before [] {x} h = cc
  first_by-mem before (y ∷ ys) {x} h = elim (Option-cases (first_by before ys)) [
    | inl e ↦ Memᴰ.head (ground arith)
    | inr (z, e) ↦ elim (Bool-cases (before z y)) [
      | inl b ↦ Memᴰ.tail (first_by-mem before ys (ground arith))
      | inr b ↦ Memᴰ.head (ground arith)
    ]
  ]

-- A narrower test selects fewer rows, and the same one if there is only one.
module _ {ℓ} {A : Type ℓ} (p q : A → Bool) (narrow : (x : A) → q x ≡ true → p x ≡ true) where
  pub count-narrow : (xs : List A) → count q xs ≤ count p xs
  count-narrow [] = omega arith
  count-narrow (x ∷ xs) = ground (arith, narrow x, count-narrow xs)

  pub find-narrow : (xs : List A) {x : A} → find p xs ≡ some x → q x ≡ true → find q xs ≡ some x
  find-narrow [] {x} h e = cc
  find-narrow (y ∷ ys) {x} h e = ground (arith, narrow y, find-narrow ys {x = x})

  pub one_row :
      (xs : List A) {x : A} → count p xs ≤ 1 → find p xs ≡ some x → q x ≡ true → count q xs ≡ 1
  one_row xs {x} one h e = omega (arith, one, count-narrow xs, find-count q p xs {x = x} h e)

-- If no row passes a test before an update that lets one pass, the first that passes is updated.
module _ {ℓ} {A : Type ℓ} (p q : A → Bool) (f : A → A) where
  pub find-updated :
      (xs : List A)
      → find p xs ≡ none
      → any (λ x. q x && p (f x)) xs ≡ true
      → (y : A) × (find p (update q f xs) ≡ some (f y)) × (q y ≡ true)
  find-updated [] h e = cc
  find-updated (x ∷ xs) h e = elim (Bool-cases (q x && p (f x))) [
    | inl hit ↦ (x, ground arith, ground arith)
    | inr miss ↦
        let (y, hy, qy) = find-updated xs (ground arith) (ground arith) in (y, ground arith, qy)
  ]

pub mem-any {ℓ} :
    {A : Type ℓ} (p : A → Bool) (xs : List A) {x : A} → Memᴰ x xs → p x ≡ true → any p xs ≡ true
mem-any p [] m h = elim m [ ]
mem-any p (y ∷ ys) (Memᴰ.head e) h = ground (arith, subst (λ z. p z ≡ true) e h)
mem-any p (y ∷ ys) (Memᴰ.tail m) h = ground (arith, mem-any p ys m h)
