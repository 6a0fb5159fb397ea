-- ===== src/Digest/Injective.antt =====
-- The bytes that `digestFields` of internal/work/work.go hashes.
use carry.Prelude.{ℕ, ◌/◌, ◌%◌, ◌^◌, ◌<◌, List, [], ◌∷◌, ◌++◌, ◌≡◌, refl, ap₂, arith, length, All}
use carry.Text.{Text}

-- `binary.BigEndian.PutUint64`.
put_uint64 : ℕ → Text → Text
put_uint64 n rest =
    (n / 2 ^ 56 % 256)
    ∷ (n / 2 ^ 48 % 256)
    ∷ (n / 2 ^ 40 % 256)
    ∷ (n / 2 ^ 32 % 256)
    ∷ (n / 2 ^ 24 % 256)
    ∷ (n / 2 ^ 16 % 256)
    ∷ (n / 2 ^ 8 % 256)
    ∷ (n % 256)
    ∷ rest

unfoldable pub encode_fields : List Text → Text
unfolding put_uint64
encode_fields [] = []
encode_fields (field ∷ fields) = put_uint64 (length field) (field ++ encode_fields fields)

put_uint64-injective :
    (m n : ℕ) (s t : Text)
    → m < 2 ^ 64
    → n < 2 ^ 64
    → put_uint64 m s ≡ put_uint64 n t
    → (m ≡ n) × (s ≡ t)
unfolding put_uint64
put_uint64-injective m n s t hm hn e = ground arith

append-split : (f g s t : Text) → length f ≡ length g → f ++ s ≡ g ++ t → (f ≡ g) × (s ≡ t)
append-split [] [] s t h e = (refl, e)
append-split [] (c ∷ g) s t h e = absurd (omega arith)
append-split (b ∷ f) [] s t h e = absurd (omega arith)
append-split (b ∷ f) (c ∷ g) s t h e = ground (arith, append-split f g s t)

-- Two lists of fields, each shorter than 2^64 bytes, are hashed alike only if they are equal.
pub encode_fields-injective :
    (fs gs : List Text)
    → All (λ f. length f < 2 ^ 64) fs
    → All (λ g. length g < 2 ^ 64) gs
    → encode_fields fs ≡ encode_fields gs
    → fs ≡ gs
unfolding encode_fields
encode_fields-injective [] [] hf hg e = refl
encode_fields-injective [] (g ∷ gs) hf hg e = unfold put_uint64 in cc
encode_fields-injective (f ∷ fs) [] hf hg e = unfold put_uint64 in cc
encode_fields-injective (f ∷ fs) (g ∷ gs) hf hg e =
    let (el, er) = put_uint64-injective (length f) (length g) _ _ hf.0 hg.0 e in
    let (ef, es) = append-split f g _ _ el er in
    ap₂ ◌∷◌ ef (encode_fields-injective fs gs hf.1 hg.1 es)
