-- ===== src/Text/Trim.antt =====
-- `strings.TrimSpace`: white space is what `unicode.IsSpace` accepts, found at the front and at
-- the back by its UTF-8 encoding.
use carry.Prelude.{
  ℕ, zero, suc, Bool, ◌&&◌, ◌||◌, List, [], ◌∷◌, ◌++◌, reverse, ◌≡◌, refl, sym, ap, subst, ◌∙◌,
  arith, leb, ◌==◌, if◌then◌else◌,
}
use mathlib.Core.List.{reverse-append, reverse-reverse}

ascii_space : ℕ → Bool
ascii_space b = (leb 9 b && leb b 13) || b == 32

-- U+0085 and U+00A0.
wide_space : ℕ → ℕ → Bool
wide_space a b = a == 0xC2 && (b == 0x85 || b == 0xA0)

-- U+1680, U+2000 to U+200A, U+2028, U+2029, U+202F, U+205F and U+3000.
wider_space : ℕ → ℕ → ℕ → Bool
wider_space a b c =
    (a == 0xE1 && b == 0x9A && c == 0x80)
    || (a == 0xE2 && b == 0x80 && (leb 0x80 c && leb c 0x8A || c == 0xA8 || c == 0xA9 || c == 0xAF))
    || (a == 0xE2 && b == 0x81 && c == 0x9F)
    || (a == 0xE3 && b == 0x80 && c == 0x80)

-- The width of the white space that a text starts with, 0 if there is none.
front_space : List ℕ → ℕ
front_space [] = 0
front_space (a ∷ []) = if ascii_space a then 1 else 0
front_space (a ∷ b ∷ []) = if ascii_space a then 1 else if wide_space a b then 2 else 0
front_space (a ∷ b ∷ c ∷ s) =
    if ascii_space a then 1 else if wide_space a b then 2 else if wider_space a b c then 3 else 0

-- The same at the end of a text, which is given backwards.
back_space : List ℕ → ℕ
back_space [] = 0
back_space (a ∷ []) = if ascii_space a then 1 else 0
back_space (a ∷ b ∷ []) = if ascii_space a then 1 else if wide_space b a then 2 else 0
back_space (a ∷ b ∷ c ∷ s) =
    if ascii_space a then 1 else if wide_space b a then 2 else if wider_space c b a then 3 else 0

-- Drops `n` bytes, then white space as long as there is some.
strip : (List ℕ → ℕ) → ℕ → List ℕ → List ℕ
strip width n [] = []
strip width (suc n) (b ∷ s) = strip width n s
strip width zero (b ∷ s) = elim (width (b ∷ s)) [ zero ↦ b ∷ s | suc n ↦ strip width n s ]

unfoldable pub trim_space : List ℕ → List ℕ
unfolding strip front_space back_space ascii_space wide_space wider_space
trim_space s = reverse (strip back_space 0 (reverse (strip front_space 0 s)))

module _ (width : List ℕ → ℕ) where
  strip-fix : (s : List ℕ) → width s ≡ 0 → strip width 0 s ≡ s
  unfolding strip
  strip-fix [] h = refl
  strip-fix (b ∷ s) h = rw (h, strip) refl

  strip-done : width [] ≡ 0 → (n : ℕ) (s : List ℕ) → width (strip width n s) ≡ 0
  unfolding strip
  strip-done e n [] = e
  strip-done e (suc n) (b ∷ s) = strip-done e n s
  strip-done e zero (b ∷ s) = go (width (b ∷ s)) refl (λ k. strip-done e k s)
    where
      go :
          (k : ℕ)
          → width (b ∷ s) ≡ k
          → ((m : ℕ) → width (strip width m s) ≡ 0)
          → width (strip width zero (b ∷ s)) ≡ 0
      go zero h rec = rw (h, strip) h
      go (suc k) h rec = rw (h, strip) (rec k)

  -- What was dropped stands in front.
  strip-suffix : (n : ℕ) (s : List ℕ) → (p : List ℕ) × (s ≡ p ++ strip width n s)
  unfolding strip
  strip-suffix n [] = ([], refl)
  strip-suffix (suc n) (b ∷ s) = let (p, e) = strip-suffix n s in (b ∷ p, ap (◌∷◌ b) e)
  strip-suffix zero (b ∷ s) = go (width (b ∷ s)) refl (λ k. strip-suffix k s)
    where
      go :
          (k : ℕ)
          → width (b ∷ s) ≡ k
          → ((m : ℕ) → (p : List ℕ) × (s ≡ p ++ strip width m s))
          → (p : List ℕ) × (b ∷ s ≡ p ++ strip width zero (b ∷ s))
      go zero h rec = ([], rw (h, strip) refl)
      go (suc k) h rec = (b ∷ (rec k).0, rw (h, strip) (ap (◌∷◌ b) (rec k).1))

-- White space at the front of a prefix stands at the front of the whole.
front_space-prefix : (p q : List ℕ) → front_space (p ++ q) ≡ 0 → front_space p ≡ 0
unfolding front_space
front_space-prefix [] q h = refl
front_space-prefix (a ∷ []) [] h = h
front_space-prefix (a ∷ []) (b ∷ []) h = ground arith
front_space-prefix (a ∷ []) (b ∷ c ∷ q) h = ground arith
front_space-prefix (a ∷ b ∷ []) [] h = h
front_space-prefix (a ∷ b ∷ []) (c ∷ q) h = ground arith
front_space-prefix (a ∷ b ∷ c ∷ p) q h = h

module _ (s : List ℕ) where
  left : List ℕ
  left = strip front_space 0 s

  right : List ℕ
  right = strip back_space 0 (reverse (strip front_space 0 s))

  front_space-trim : front_space (reverse right) ≡ 0
  unfolding left right
  front_space-trim =
      let (p, e) = strip-suffix back_space 0 (reverse left) in
      front_space-prefix (reverse right) (reverse p) (
        subst (λ t. front_space t ≡ 0)
          (sym (reverse-reverse left) ∙ ap reverse e ∙ reverse-append p right)
          (strip-done front_space (unfold front_space in refl) 0 s))

-- Trimming a trimmed text changes nothing.
pub trim_space_idem : (s : List ℕ) → trim_space (trim_space s) ≡ trim_space s
unfolding trim_space right
trim_space_idem s =
    ap (λ t. reverse (strip back_space 0 (reverse t)))
      (strip-fix front_space (reverse (right s)) (front_space-trim s))
    ∙ ap (λ t. reverse (strip back_space 0 t)) (reverse-reverse (right s))
    ∙ ap reverse (
        strip-fix back_space (right s)
          (strip-done back_space (unfold back_space in refl) 0 (reverse (strip front_space 0 s))))
