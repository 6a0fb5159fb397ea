-- ===== src/Prelude/Members.antt =====
-- Rows that are in a table, before and after a change of it.
use Prim.Native.Nat.{◌+◌, ◌≤◌}
use mathlib.Core.Path.{◌≡◌, refl, sym, ap, subst, ◌∙◌}
use mathlib.Core.Logic.{inl, inr}
use mathlib.Core.Bool.{Bool, true, false}
use mathlib.Core.List.{List, [], ◌∷◌, Memᴰ}
use mathlib.Core.Option.{Option, some}
use native.Mathlib.Omega.{arith}
use package.carry.Prelude.Tests.{Bool-cases, Option-cases}
use package.carry.Prelude.Lists.{any, All}
use package.carry.Prelude.Rows.{update, count, amend, select, select_map}
use package.carry.Prelude.Counts.{mem-cases, mem-find}

module _ {ℓ} {A : Type ℓ} where
  -- A row after an update comes from a row before it.
  pub mem-update :
      (q : A → Bool) (f : A → A) (xs : List A) {y : A}
      → Memᴰ y (update q f xs)
      → (x : A) × Memᴰ x xs × (y ≡ amend q f x)
  mem-update q f [] m = elim m [ ]
  mem-update q f (x ∷ xs) m = elim (mem-cases m) [
    | inl e ↦ (x, Memᴰ.head refl, e)
    | inr n ↦ let (z, k, e) = mem-update q f xs n in (z, Memᴰ.tail k, e)
  ]

  -- An update that a test does not notice keeps its count.
  pub count-stay :
      (p q : A → Bool) (f : A → A) (xs : List A)
      → ((x : A) → Memᴰ x xs → q x ≡ true → p (f x) ≡ p x)
      → count p (update q f xs) ≡ count p xs
  count-stay p q f [] same = refl
  count-stay p q f (x ∷ xs) same =
      let rest = count-stay p q f xs (λ y m. same y (Memᴰ.tail m)) in
      let here = same x (Memᴰ.head refl) in ground (arith, rest, here)

  -- The updated rows passed the test, and pass it no more.
  pub count-leave :
      (p q : A → Bool) (f : A → A) (xs : List A)
      → ((x : A) → Memᴰ x xs → q x ≡ true → p x ≡ true)
      → ((x : A) → Memᴰ x xs → q x ≡ true → p (f x) ≡ false)
      → count p (update q f xs) + count q xs ≡ count p xs
  count-leave p q f [] before after = omega arith
  count-leave p q f (x ∷ xs) before after =
      let rest =
        count-leave p q f xs (λ y m. before y (Memᴰ.tail m)) (λ y m. after y (Memᴰ.tail m)) in
      let here = before x (Memᴰ.head refl) in
      let gone = after x (Memᴰ.head refl) in ground (arith, rest, here, gone)

  -- A test that no row passes counts nothing.
  pub count-none :
      (p : A → Bool) (xs : List A) → ((x : A) → Memᴰ x xs → p x ≡ false) → count p xs ≡ 0
  count-none p [] h = refl
  count-none p (x ∷ xs) h =
      let rest = count-none p xs (λ y m. h y (Memᴰ.tail m)) in
      let here = h x (Memᴰ.head refl) in ground (arith, rest, here)

  -- A row before an update is a row after it, changed as the update has it.
  pub update-mem :
      (q : A → Bool) (f : A → A) (xs : List A) {x : A}
      → Memᴰ x xs
      → Memᴰ (amend q f x) (update q f xs)
  update-mem q f [] m = elim m [ ]
  update-mem q f (x ∷ xs) (Memᴰ.head e) = Memᴰ.head (ap (amend q f) e)
  update-mem q f (x ∷ xs) (Memᴰ.tail m) = Memᴰ.tail (update-mem q f xs m)

  -- Two rows that pass a test which only one row passes are the same.
  pub mem-same :
      (p : A → Bool) (xs : List A) {x y : A}
      → count p xs ≤ 1
      → Memᴰ x xs
      → Memᴰ y xs
      → p x ≡ true
      → p y ≡ true
      → x ≡ y
  mem-same p xs {x} {y} one mx my px py =
      let hx = mem-find p xs one px mx in let hy = mem-find p xs one py my in cc

  -- A value that a partial function takes on a row.
  pub select_map-mem {κ} :
      {B : Type κ} (f : A → Option B) (xs : List A) {y : B}
      → Memᴰ y (select_map f xs)
      → (x : A) × Memᴰ x xs × (f x ≡ some y)
  select_map-mem f [] m = elim m [ ]
  select_map-mem f (x ∷ xs) {y} m = elim (Option-cases (f x)) [
    | inl e ↦ let (z, k, h) = select_map-mem f xs (rw (e, select_map) at m) in (z, Memᴰ.tail k, h)
    | inr (v, e) ↦ elim (mem-cases (rw (e, select_map) at m)) [
      | inl i ↦ (x, Memᴰ.head refl, e ∙ ap some (sym i))
      | inr n ↦ let (z, k, h) = select_map-mem f xs n in (z, Memᴰ.tail k, h)
    ]
  ]

  -- A row that passes a test which some row passes.
  pub any-mem : (p : A → Bool) (xs : List A) → any p xs ≡ true → (x : A) × Memᴰ x xs × (p x ≡ true)
  any-mem p [] h = cc
  any-mem p (x ∷ xs) h = elim (Bool-cases (p x)) [
    | inl e ↦ (x, Memᴰ.head refl, e)
    | inr e ↦ let (y, m, k) = any-mem p xs (ground arith) in (y, Memᴰ.tail m, k)
  ]

module _ {ℓ} {A : Type ℓ} where
  pub select-has :
      (p : A → Bool) (xs : List A) {x : A} → Memᴰ x xs → p x ≡ true → Memᴰ x (select p xs)
  select-has p [] m h = elim m [ ]
  select-has p (y ∷ ys) {x} m h = elim (mem-cases m) [
    | inl e ↦ let hit : p y ≡ true = subst (λ z. p z ≡ true) e h in rw (hit, select) (Memᴰ.head e)
    | inr n ↦ elim (Bool-cases (p y)) [
      | inl e ↦ rw (e, select) (Memᴰ.tail (select-has p ys n h))
      | inr e ↦ rw (e, select) (select-has p ys n h)
    ]
  ]

  pub select_map-has {κ} :
      {B : Type κ} (f : A → Option B) (xs : List A) {x : A} {y : B}
      → Memᴰ x xs
      → f x ≡ some y
      → Memᴰ y (select_map f xs)
  select_map-has f [] m h = elim m [ ]
  select_map-has f (z ∷ zs) {x} {y} m h = elim (mem-cases m) [
    | inl e ↦
        let hit : f z ≡ some y = subst (λ w. f w ≡ some y) e h in
        rw (hit, select_map) (Memᴰ.head refl)
    | inr n ↦ elim (Option-cases (f z)) [
      | inl e ↦ rw (e, select_map) (select_map-has f zs n h)
      | inr (w, e) ↦ rw (e, select_map) (Memᴰ.tail (select_map-has f zs n h))
    ]
  ]

  pub All-has {κ} : (P : A → Type κ) (xs : List A) {x : A} → All P xs → Memᴰ x xs → P x
  All-has P [] h m = elim m [ ]
  All-has P (y ∷ ys) h m = elim (mem-cases m) [
    | inl e ↦ subst P (sym e) h.0
    | inr n ↦ All-has P ys h.1 n
  ]
