-- ===== src/Agent/Vocabulary.antt =====
-- `NewVocabulary`: the map is the list of its descriptors, with the last one that was added first. A
-- limit that is negative in the source is refused like 0.
use carry.Prelude.{
  ℕ, ◌+◌, ◌-◌, Bool, not, ◌||◌, List, [], ◌∷◌, Option, ltb, ◌==◌, length, any, find,
}
use carry.Result.{Result, ok, err, ◌>>=◌, ◌>>◌, fail_if, invalid_vocabulary}
use carry.Text.{Text, text_eq}
use carry.Agent.Keys.{valid_adapter_key, valid_name, max_name_base_bytes, normalize_name}

abbrev pub max_observations_per_report : ℕ
max_observations_per_report = 32

-- `Descriptor`.
pub record Descriptor : Type 0 where
  pub key : Text
  pub name_base : Text
  pub max_occurrences : ℕ

-- The test of one descriptor on its own, and against the occurrences that are spoken for.
abbrev pub is_refused : ℕ → Descriptor → Bool
is_refused total d =
    not (valid_adapter_key d.key)
    || d.max_occurrences == 0
    || ltb (max_observations_per_report - total) d.max_occurrences
    || not (valid_name max_name_base_bytes d.name_base)

-- `if err != nil` with another error.
abbrev pub or_invalid : Result Text → Result Text
or_invalid (ok t) = ok t
or_invalid (err e) = err invalid_vocabulary

abbrev pub has_key : Text → Descriptor → Bool
has_key key d = text_eq d.key key

abbrev pub is_text : Text → Text → Bool
is_text t s = text_eq s t

-- One round of the loop: the descriptors and the folded names so far, and their occurrences.
unfoldable pub add_descriptor :
    (Text → Text)
    → Descriptor
    → List Descriptor × List Text × ℕ
    → Result (List Descriptor × List Text × ℕ)
add_descriptor fold d (copied, bases, total) = do
  fail_if (is_refused total d) invalid_vocabulary
  name_key ← or_invalid (normalize_name fold d.name_base)
  fail_if (any (has_key d.key) copied) invalid_vocabulary
  fail_if (any (is_text name_key) bases) invalid_vocabulary
  ok (d ∷ copied, name_key ∷ bases, total + d.max_occurrences)

unfoldable pub add_descriptors :
    (Text → Text)
    → List Descriptor
    → List Descriptor × List Text × ℕ
    → Result (List Descriptor × List Text × ℕ)
add_descriptors fold [] state = ok state
add_descriptors fold (d ∷ ds) state =
    add_descriptor fold d state >>= λ next. add_descriptors fold ds next

-- `NewVocabulary`.
unfoldable pub new_vocabulary : (Text → Text) → List Descriptor → Result (List Descriptor)
new_vocabulary fold descriptors = do
  fail_if (length descriptors == 0 || ltb max_observations_per_report (length descriptors))
      invalid_vocabulary
  (copied, bases, total) ← add_descriptors fold descriptors ([], [], 0)
  ok copied

-- `Vocabulary.Descriptor`.
unfoldable pub descriptor : Text → List Descriptor → Option Descriptor
descriptor key v = find (has_key key) v
