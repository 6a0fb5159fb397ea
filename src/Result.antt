-- ===== src/Result.antt =====
-- The error values of internal/work, internal/run, internal/conversation and internal/space, and
-- the `(value, error)` results of the functions that return them. `database` is any error that
-- PostgreSQL reports and the store only wraps.
use carry.Prelude.{ℕ, Bool, true, false, Option, none, some, ◌≡◌, refl}

pub data Error : Type 0 where
  invalid_goal invalid_message invalid_idempotency idempotency_conflict : Error
  retry_not_needed review_not_current not_found not_open forbidden : Error
  identity_required machine_not_found machine_revoked : Error
  no_run_available stale_attempt invalid_update invalid_outcome : Error
  invalid_text invalid_cursor invalid_context : Error
  reply_pending no_reply_available stale_reply_claim reply_conflict : Error
  connection_unavailable connection_conflict connection_rate_limited connection_pending : Error
  connection_denied connection_cancelled connection_expired connection_already_decided : Error
  connection_replay_expired machine_unavailable machine_authority invalid_connection : Error
  connection_slow_down : ℕ → Error
  invalid_agent_name invalid_vocabulary invalid_agent_report database : Error

pub data Result {ℓ} (V : Type ℓ) : Type ℓ where
  err : Error → Result V
  ok : V → Result V

-- The early return of `if err != nil`.
infixl 5 ◌>>=◌
infixl 5 ◌>>◌
abbrev pub ◌>>=◌ {ℓ κ} : {V : Type ℓ} {W : Type κ} → Result V → (V → Result W) → Result W
err failure >>= next = err failure
ok value >>= next = next value

abbrev pub ◌>>◌ {κ} : {W : Type κ} → Result (Unit {0}) → Result W → Result W
first >> next = first >>= λ done. next

-- Returns `e` if the test passes, and goes on otherwise.
abbrev pub fail_if : Bool → Error → Result (Unit {0})
fail_if true e = err e
fail_if false e = ok tt

-- `errors.Is(err, pgx.ErrNoRows)` turned into the error `e`.
abbrev pub or_fail {ℓ} : {A : Type ℓ} → Option A → Error → Result A
or_fail none e = err e
or_fail (some a) e = ok a

-- What went well, step by step.
pub >>=-eq-ok {ℓ κ} :
    {V : Type ℓ} {W : Type κ} (m : Result V) (next : V → Result W) {w : W}
    → (m >>= next) ≡ ok w
    → (v : V) × (m ≡ ok v) × (next v ≡ ok w)
>>=-eq-ok (err failure) next h = cc
>>=-eq-ok (ok v) next h = (v, refl, h)

-- A step that goes well, followed by what comes after it.
pub >>=-ok {ℓ κ} :
    {V : Type ℓ} {W : Type κ} (m : Result V) (next : V → Result W) {v : V} {r : Result W}
    → m ≡ ok v
    → next v ≡ r
    → (m >>= next) ≡ r
>>=-ok (err failure) next h e = cc
>>=-ok (ok a) next h e = cc

pub or_fail-some {ℓ} :
    {A : Type ℓ} (o : Option A) (e : Error) {a : A} → or_fail o e ≡ ok a → o ≡ some a
or_fail-some none e h = cc
or_fail-some (some x) e h = cc

pub fail_if-passed : (b : Bool) (e : Error) {u : Unit {0}} → fail_if b e ≡ ok u → b ≡ false
fail_if-passed true e h = cc
fail_if-passed false e h = refl
