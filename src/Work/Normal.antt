-- ===== src/Work/Normal.antt =====
-- The texts of a Work in normal form.
use carry.Prelude.{
  ℕ, ◌*◌, ◌↔◌, [], ◌∷◌, ◌≤◌, not, ◌||◌, ◌≡◌, refl, arith, ltb, true, false, length, if◌then◌else◌,
}
use carry.Result.{
  Error, Result, ok, err, fail_if, invalid_goal, invalid_message, invalid_idempotency,
  invalid_update,
}
use carry.Text.{Text, trim_space, trim_space_idem, valid_text, is_empty}

abbrev pub max_goal_bytes : ℕ
max_goal_bytes = 2000

abbrev pub max_message_bytes : ℕ
max_message_bytes = 60 * 1024

abbrev pub max_idempotency_key_bytes : ℕ
max_idempotency_key_bytes = 255

abbrev pub max_understanding_bytes : ℕ
max_understanding_bytes = 60 * 1024

abbrev pub max_next_step_bytes : ℕ
max_next_step_bytes = 8 * 1024

unfoldable pub bounded : ℕ → Error → Text → Result Text
bounded limit e value =
    let text = trim_space value in
    if is_empty text || ltb limit (length text) || not (valid_text text) then err e else ok text

unfoldable pub normalize_goal : Text → Result Text
unfolding bounded
normalize_goal = bounded max_goal_bytes invalid_goal

unfoldable pub normalize_idempotency_key : Text → Result Text
unfolding bounded
normalize_idempotency_key = bounded max_idempotency_key_bytes invalid_idempotency

unfoldable pub validate_message : Text → Result (Unit {0})
validate_message value =
    fail_if
      (is_empty (trim_space value)
        || ltb max_message_bytes (length value)
        || not (valid_text value))
      invalid_message

unfoldable pub validate_understanding_update : Text → Text → Result (Text × Text)
validate_understanding_update understanding next_step =
    let u = trim_space understanding in
    let n = trim_space next_step in
    if is_empty u
      || is_empty n
      || ltb max_understanding_bytes (length u)
      || ltb max_next_step_bytes (length n)
      || not (valid_text u)
      || not (valid_text n)
    then err invalid_update
    else ok (u, n)

-- What `bounded` accepts is its own normal form, not empty, within the limit and valid.
pub record IsNormal (limit : ℕ) (text : Text) : Type 0 where
  pub nonempty : 1 ≤ length text
  pub within : length text ≤ limit
  pub valid : valid_text text ≡ true
  pub trimmed : trim_space text ≡ text

length_pos : (s : Text) → is_empty s ≡ false → 1 ≤ length s
length_pos [] h = cc
length_pos (b ∷ s) h = omega arith

pub bounded-IsNormal :
    (limit : ℕ) (e : Error) (value : Text) {text : Text}
    → bounded limit e value ≡ ok text
    → IsNormal limit text
unfolding bounded
bounded-IsNormal limit e value {text} h = record {
  nonempty = ground (arith, length_pos (trim_space value));
  within = ground arith;
  valid = ground arith;
  trimmed = ground (arith, trim_space_idem value);
}

IsNormal-nonempty : (limit : ℕ) (text : Text) → IsNormal limit text → is_empty text ≡ false
IsNormal-nonempty limit [] v = absurd (omega (arith, v.nonempty))
IsNormal-nonempty limit (b ∷ s) v = refl

pub bounded_self :
    (limit : ℕ) (e : Error) (text : Text) → IsNormal limit text → bounded limit e text ≡ ok text
unfolding bounded
bounded_self limit e text v =
    ground (arith, IsNormal-nonempty limit text v, v.valid, v.trimmed, v.within)

-- A goal is accepted unchanged exactly if it is in normal form: not blank, at most 2000 bytes, valid,
-- trimmed; and every goal that a text is turned into is in normal form.
pub normalize_goal-IsNormal :
    (goal : Text)
    → (IsNormal 2000 goal ↔ (normalize_goal goal ≡ ok goal))
      × ((value : Text) → normalize_goal value ≡ ok goal → IsNormal 2000 goal)
unfolding normalize_goal
normalize_goal-IsNormal goal = (
  (bounded_self 2000 invalid_goal goal, bounded-IsNormal 2000 invalid_goal goal),
  λ value. bounded-IsNormal 2000 invalid_goal value,
)

-- A key is accepted unchanged exactly if it is in normal form: not blank, at most 255 bytes, valid,
-- trimmed.
pub normalize_idempotency_key-IsNormal :
    (key : Text) → IsNormal max_idempotency_key_bytes key ↔ (normalize_idempotency_key key ≡ ok key)
unfolding normalize_idempotency_key
normalize_idempotency_key-IsNormal key = (
  bounded_self max_idempotency_key_bytes invalid_idempotency key,
  bounded-IsNormal max_idempotency_key_bytes invalid_idempotency key,
)

-- An accepted update of the understanding is two texts in normal form, which are accepted unchanged
-- when they are sent again.
pub validate_understanding_update_idem :
    (understanding next_step : Text) {u n : Text}
    → validate_understanding_update understanding next_step ≡ ok (u, n)
    → IsNormal max_understanding_bytes u
      × IsNormal max_next_step_bytes n
      × (validate_understanding_update u n ≡ ok (u, n))
unfolding validate_understanding_update
validate_understanding_update_idem understanding next_step {u} {n} h = (
  record {
    nonempty = ground (arith, length_pos (trim_space understanding));
    within = ground arith;
    valid = ground arith;
    trimmed = ground (arith, trim_space_idem understanding);
  },
  record {
    nonempty = ground (arith, length_pos (trim_space next_step));
    within = ground arith;
    valid = ground arith;
    trimmed = ground (arith, trim_space_idem next_step);
  },
  ground (arith, trim_space_idem understanding, trim_space_idem next_step),
)
