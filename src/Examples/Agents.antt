-- ===== src/Examples/Agents.antt =====
-- The theorems on agents at the vocabulary of `NativeVocabulary`.
use carry.Prelude.{[], ◌∷◌, true, ◌≡◌, refl}
use carry.Result.{ok}
use carry.Text.{codes, valid_string, trim_space, text_eq}
use carry.Agent.Keys.{valid_adapter_key, valid_name, normalize_name}
use carry.Agent.Vocabulary.{Descriptor, new_vocabulary, add_descriptors, add_descriptor}
use carry.Agent.Sound.{Recognizes, new_vocabulary-Recognizes}
use carry.Examples.Scene.{hash}

pi_valid : valid_adapter_key (codes "pi") ≡ true
unfolding valid_adapter_key
pi_valid = refl

abbrev pi : Descriptor
pi = record { key = codes "pi"; name_base = codes "Pi"; max_occurrences = 1 }

abbrev codex : Descriptor
codex = record { key = codes "codex"; name_base = codes "Codex"; max_occurrences = 1 }

native : new_vocabulary hash (pi ∷ codex ∷ []) ≡ ok (codex ∷ pi ∷ [])
unfolding new_vocabulary add_descriptors add_descriptor valid_adapter_key valid_name normalize_name
    valid_string trim_space text_eq
native = refl

new_vocabulary-Recognizes_example : Recognizes hash (codex ∷ pi ∷ [])
new_vocabulary-Recognizes_example = new_vocabulary-Recognizes hash (pi ∷ codex ∷ []) native
