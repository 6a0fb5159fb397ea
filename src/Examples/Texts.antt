-- ===== src/Examples/Texts.antt =====
-- The theorems on texts and digests at concrete inputs.
use carry.Prelude.{[], ◌∷◌, ◌≡◌, ◌↔◌, ◌≤◌, refl, arith}
use carry.Result.{ok}
use carry.Text.{Text, codes, trim_space, valid_text}
use carry.Digest.{encode_fields-injective}
use carry.Work.{
  normalize_goal, validate_understanding_update, IsNormal, max_understanding_bytes,
  max_next_step_bytes, normalize_goal-IsNormal, normalize_idempotency_key-IsNormal,
  normalize_idempotency_key, max_idempotency_key_bytes, validate_understanding_update_idem,
}
use carry.Execution.Input.{select_run_input_end_range}
use carry.Store.Claims.{select_run_input_end}
use carry.Examples.Scene.{created_db}

spaced_goal : normalize_goal (codes " ship it") ≡ ok (codes "ship it")
unfolding normalize_goal trim_space valid_text
spaced_goal = refl

normalize_goal-IsNormal_example :
    (IsNormal 2000 (codes "ship it") ↔ (normalize_goal (codes "ship it") ≡ ok (codes "ship it")))
    × ((value : Text)
        → normalize_goal value ≡ ok (codes "ship it")
        → IsNormal 2000 (codes "ship it"))
normalize_goal-IsNormal_example = normalize_goal-IsNormal (codes "ship it")

normalize_idempotency_key-IsNormal_example :
    IsNormal max_idempotency_key_bytes (codes "k1")
    ↔ (normalize_idempotency_key (codes "k1") ≡ ok (codes "k1"))
normalize_idempotency_key-IsNormal_example = normalize_idempotency_key-IsNormal (codes "k1")

padded_update :
    validate_understanding_update (codes "shipped ") (codes " rest")
    ≡ ok (codes "shipped", codes "rest")
unfolding validate_understanding_update trim_space valid_text
padded_update = refl

validate_understanding_update_idem_example :
    IsNormal max_understanding_bytes (codes "shipped")
    × IsNormal max_next_step_bytes (codes "rest")
    × (validate_understanding_update (codes "shipped") (codes "rest")
        ≡ ok (codes "shipped", codes "rest"))
validate_understanding_update_idem_example =
    validate_understanding_update_idem (codes "shipped ") (codes " rest") padded_update

encode_fields-injective_example : codes "ab" ∷ codes "c" ∷ [] ≡ codes "ab" ∷ codes "c" ∷ []
encode_fields-injective_example =
    encode_fields-injective (codes "ab" ∷ codes "c" ∷ []) (codes "ab" ∷ codes "c" ∷ [])
      (omega arith, (omega arith, tt)) (omega arith, (omega arith, tt)) refl

select_run_input_end_range_example :
    (1 ≤ select_run_input_end 1 50 4 created_db) × (select_run_input_end 1 50 4 created_db ≤ 4)
select_run_input_end_range_example = select_run_input_end_range 1 50 4 created_db (omega arith)
