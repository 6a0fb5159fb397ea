-- ===== src/Agent/Keys.antt =====
-- `ValidAdapterKey`, `ValidOccurrenceKey`, `validName` and `NormalizeName`. Folding a name (NFKC and
-- case folding of golang.org/x/text) is an argument.
use carry.Prelude.{
  ℕ, Bool, true, false, not, ◌&&◌, ◌||◌, [], ◌∷◌, ◌≡◌, refl, arith, leb, ◌==◌, length, all,
}
use carry.Result.{Result, ok, ◌>>◌, fail_if, invalid_agent_name}
use carry.Text.{Text, valid_string, is_empty, text_eq, trim_space}

abbrev pub max_adapter_key_bytes : ℕ
max_adapter_key_bytes = 63

abbrev pub max_occurrence_key_bytes : ℕ
max_occurrence_key_bytes = 127

abbrev pub max_name_base_bytes : ℕ
max_name_base_bytes = 96

abbrev pub max_name_bytes : ℕ
max_name_bytes = 128

-- A small letter or a digit.
abbrev pub is_plain : ℕ → Bool
is_plain b = leb 97 b && leb b 122 || leb 48 b && leb b 57

-- The loops over the bytes of a key: the first byte, and the later ones.
abbrev pub is_key : (ℕ → Bool) → Text → Bool
is_key joins [] = false
is_key joins (b ∷ s) = is_plain b && all (λ c. is_plain c || joins c) s

-- `ValidAdapterKey`.
unfoldable pub valid_adapter_key : Text → Bool
valid_adapter_key key = leb (length key) max_adapter_key_bytes && is_key (λ b. b == 45) key

-- `ValidOccurrenceKey`.
unfoldable pub valid_occurrence_key : Text → Bool
valid_occurrence_key key =
    leb (length key) max_occurrence_key_bytes && is_key (λ b. b == 46 || b == 95 || b == 45) key

abbrev starts_c1 : Text → Bool
starts_c1 [] = false
starts_c1 (b ∷ s) = leb 0x80 b && leb b 0x9F

-- `unicode.IsControl` on the characters of valid UTF-8.
has_control : Text → Bool
has_control [] = false
has_control (b ∷ s) = leb b 0x1F || b == 0x7F || (b == 0xC2 && starts_c1 s) || has_control s

-- `validName`.
unfoldable pub valid_name : ℕ → Text → Bool
unfolding has_control
valid_name max_bytes name =
    valid_string name
    && not (is_empty name)
    && leb (length name) max_bytes
    && text_eq (trim_space name) name
    && not (has_control name)

-- `NormalizeName`.
unfoldable pub normalize_name : (Text → Text) → Text → Result Text
normalize_name fold name = do
  fail_if (not (valid_name max_name_bytes name)) invalid_agent_name
  let normalized = fold name
  fail_if (is_empty normalized) invalid_agent_name
  ok normalized

all-weaken :
    (p q : ℕ → Bool)
    → ((b : ℕ) → p b ≡ true → q b ≡ true)
    → (s : Text) → all p s ≡ true
    → all q s ≡ true
all-weaken p q w [] h = refl
all-weaken p q w (b ∷ s) h = ground (arith, w b, all-weaken p q w s)

-- Every adapter key is also an occurrence key.
valid_adapter_key-occurrence :
    (key : Text) → valid_adapter_key key ≡ true → valid_occurrence_key key ≡ true
unfolding valid_adapter_key valid_occurrence_key
valid_adapter_key-occurrence [] h = cc
valid_adapter_key-occurrence (b ∷ s) h = ground (
  arith,
  all-weaken (λ c. is_plain c || c == 45) (λ c. is_plain c || (c == 46 || c == 95 || c == 45))
      (λ c e. ground arith) s,
)
