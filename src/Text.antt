-- ===== src/Text.antt =====
-- Texts as Go sees them: lists of bytes. What the source uses of the packages strings and
-- unicode/utf8 (`TrimSpace`, `ValidString`, `ContainsRune` of 0), and the test `validText` that
-- internal/work/work.go and internal/run/run.go share.
mod Trim
unfoldable pub use Trim.*
use Prim.Native.Char.{code}
use Prim.Native.String.{String}
use carry.Prelude.{
  ℕ, zero, suc, Bool, true, false, not, ◌&&◌, ◌||◌, List, [], ◌∷◌, Option, none, some, ◌≡◌, ◌↔◌,
  refl, arith, leb, ◌==◌, if◌then◌else◌, any,
}

abbrev pub Text : Type 0
Text = List ℕ

-- The bytes of an ASCII literal.
abbrev pub codes : String → Text
codes String.[] = []
codes (String.◌∷◌ c s) = code c ∷ codes s

-- How many continuation bytes follow a leading byte, and the range of the first of them.
lead : ℕ → Option (ℕ × ℕ × ℕ)
lead b =
    if leb b 0x7F
    then some (0, 0, 0)
    else if leb 0xC2 b && leb b 0xDF
    then some (1, 0x80, 0xBF)
    else if b == 0xE0
    then some (2, 0xA0, 0xBF)
    else if b == 0xED
    then some (2, 0x80, 0x9F)
    else if leb 0xE1 b && leb b 0xEF
    then some (2, 0x80, 0xBF)
    else if b == 0xF0
    then some (3, 0x90, 0xBF)
    else if leb 0xF1 b && leb b 0xF3
    then some (3, 0x80, 0xBF)
    else if b == 0xF4
    then some (3, 0x80, 0x8F)
    else none

scan_utf8 : ℕ → ℕ → ℕ → Text → Bool
unfolding lead
scan_utf8 zero lo hi [] = true
scan_utf8 (suc n) lo hi [] = false
scan_utf8 (suc n) lo hi (b ∷ s) = leb lo b && leb b hi && scan_utf8 n 0x80 0xBF s
scan_utf8 zero lo hi (b ∷ s) = elim (lead b) [ none ↦ false | some (n, l, h) ↦ scan_utf8 n l h s ]

-- `utf8.ValidString`.
unfoldable pub valid_string : Text → Bool
unfolding scan_utf8
valid_string = scan_utf8 0 0 0

-- `strings.ContainsRune(value, 0)`.
unfoldable pub contains_zero : Text → Bool
contains_zero = any (λ b. b == 0)

-- `validText`.
unfoldable pub valid_text : Text → Bool
unfolding valid_string contains_zero
valid_text s = valid_string s && not (contains_zero s)

abbrev pub is_empty : Text → Bool
is_empty [] = true
is_empty (b ∷ s) = false

-- Equality of texts and of digests (`bytes.Equal`).
unfoldable pub text_eq : Text → Text → Bool
text_eq [] [] = true
text_eq [] (c ∷ t) = false
text_eq (b ∷ s) [] = false
text_eq (b ∷ s) (c ∷ t) = b == c && text_eq s t

pub text_eq_iff : (s t : Text) → (text_eq s t ≡ true) ↔ (s ≡ t)
unfolding text_eq
text_eq_iff [] [] = (λ h. refl, λ e. refl)
text_eq_iff [] (c ∷ t) = (λ h. cc, λ e. cc)
text_eq_iff (b ∷ s) [] = (λ h. cc, λ e. cc)
text_eq_iff (b ∷ s) (c ∷ t) = ground (arith, text_eq_iff s t)

pub text_eq_refl : (s : Text) → text_eq s s ≡ true
text_eq_refl s = (text_eq_iff s s).1 refl

euro_sign : valid_text (0xE2 ∷ 0x82 ∷ 0xAC ∷ []) ≡ true
unfolding valid_text
euro_sign = refl

surrogate : valid_text (0xED ∷ 0xA0 ∷ 0x80 ∷ []) ≡ false
unfolding valid_text
surrogate = refl

zero_byte : valid_text (codes "a\0") ≡ false
unfolding valid_text
zero_byte = refl
