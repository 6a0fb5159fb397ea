-- ===== src/Works/Effects.antt =====
-- What AppendWorkMessage of internal/postgres/work.go changes.
use carry.Prelude.{
  ℕ, ◌+◌, true, ◌||◌, ◌∷◌, some, ◌≡◌, ◌⊎◌, inl, inr, arith, find, update, Option-cases, Bool-cases,
}
use carry.Result.{ok, or_fail, fail_if, >>=-eq-ok, or_fail-some, identity_required, not_found}
use carry.Text.{Text, text_eq}
use carry.Work.{normalize_idempotency_key, validate_message}
use carry.Store.Tables.{Db, Work, WorkMessage, is_open}
use carry.Store.Retries.{lock_work}
use carry.Store.Works.{
  find_work_message_by_idempotency, advance_work_input_head, create_work_message, open_work,
}
use carry.Execution.Retry.{is_nobody, acting, is_blank, column, require_membership}
use carry.Works.Append.{
  AppendMessageCommand, append_new, append_locked, append_work_message, message_digest,
}

-- A message that was added: the next input of its open Work.
pub record Appended (now message_id work_id user_id : ℕ) (text key digest : Text) (d : Db)
    (m : WorkMessage) (d' : Db) : Type 0 where
  pub work : Work
  pub found : find (open_work work_id) d.works ≡ some work
  pub message : m ≡ record {
    message_id = message_id;
    work_id = work_id;
    author_user_id = user_id;
    text = text;
    input_seq = work.input_head_seq + 1;
    idempotency_key = key;
    request_digest = digest;
    created_at = now;
  }
  pub after : d' ≡ record d {
    works =
        update
          (open_work work_id)
          (λ w. record w { input_head_seq = w.input_head_seq + 1 })
          d.works;
    messages = m ∷ d.messages;
  }

append_new-Appended :
    (now message_id work_id user_id : ℕ) (text key digest : Text) (d : Db) {m : WorkMessage}
    {d' : Db}
    → append_new now message_id work_id user_id text key digest d ≡ ok (m, d')
    → Appended now message_id work_id user_id text key digest d m d'
unfolding append_new advance_work_input_head create_work_message
append_new-Appended now message_id work_id user_id text key digest d {m} {d'} h =
    elim (Option-cases (find (open_work work_id) d.works)) [
      | inl e ↦ absurd (ground arith)
      | inr (w, e) ↦ record { work = w; found = e; message = ground arith; after = ground arith }
    ]

-- The message was there already, under the same key and digest, or it is new.
abbrev pub Answered : ℕ → ℕ → ℕ → ℕ → Text → Text → Text → Db → WorkMessage → Db → Type 0
Answered now message_id work_id user_id text key digest d m d' =
    ((d' ≡ d)
      × (find_work_message_by_idempotency work_id user_id key d ≡ some m)
      × (text_eq m.request_digest digest ≡ true))
    ⊎ Appended now message_id work_id user_id text key digest d m d'

append_locked-Answered :
    (now message_id : ℕ) (w : Work) (work_id user_id : ℕ) (text key digest : Text) (d : Db)
    {m : WorkMessage} {d' : Db}
    → append_locked now message_id w work_id user_id text key digest d ≡ ok (m, d')
    → Answered now message_id work_id user_id text key digest d m d'
unfolding append_locked
append_locked-Answered now message_id w work_id user_id text key digest d h =
    elim (Option-cases (find_work_message_by_idempotency work_id user_id key d)) [
      | inr (m, e) ↦ inl (ground arith)
      | inl e ↦ elim (Bool-cases (is_open w.lifecycle)) [
        | inl o ↦ inr (
            append_new-Appended now message_id work_id user_id text key digest d
              (rw (e, o, append_locked) at h))
        | inr o ↦ cc (rw (e, o, append_locked) at h)
      ]
    ]

module _ (sha256 : Text → Text) (spell : ℕ → Text) where
  -- The answer to a command: for the Work, the space and the author that it names, and its key.
  abbrev pub AnswerTo : ℕ → ℕ → AppendMessageCommand → Db → WorkMessage → Db → Type 0
  AnswerTo now message_id c d m d' =
      (work_id space_id user_id : ℕ) × (key : Text) × (w : Work) × (column c.work_id ≡ ok work_id)
      × (column c.space_id ≡ ok space_id)
      × (acting c.author_user_id ≡ ok user_id)
      × (validate_message c.text ≡ ok tt)
      × (normalize_idempotency_key c.idempotency_key ≡ ok key)
      × (require_membership space_id user_id d ≡ ok tt)
      × (lock_work space_id work_id d ≡ some w)
      × Answered now message_id work_id user_id c.text key
          (message_digest sha256 spell c.work_id c.author_user_id c.text) d m d'

  -- A message that is accepted has a valid text and a key; its author is a member of the space of the
  -- command, and its Work is the one that the command names in this space. Either it was added before,
  -- under the same key and with the same digest, and nothing changes, or its Work is open, the message
  -- gets the number after the head, and the head moves on by one; nothing else changes.
  pub append_work_message-Answered :
      (now message_id : ℕ) (c : AppendMessageCommand) (d : Db) {m : WorkMessage} {d' : Db}
      → append_work_message sha256 spell now message_id c d ≡ ok (m, d')
      → AnswerTo now message_id c d m d'
  unfolding append_work_message
  append_work_message-Answered now message_id c d h =
      let required = is_blank c.work_id || is_blank c.space_id || is_nobody c.author_user_id in
      let (u0, e0, h0) = >>=-eq-ok (fail_if required identity_required) _ h in
      let (u1, e1, h1) = >>=-eq-ok (validate_message c.text) _ h0 in
      let (key, e2, h2) = >>=-eq-ok (normalize_idempotency_key c.idempotency_key) _ h1 in
      let (space_id, e3, h3) = >>=-eq-ok (column c.space_id) _ h2 in
      let (user_id, e4, h4) = >>=-eq-ok (acting c.author_user_id) _ h3 in
      let (u5, e5, h5) = >>=-eq-ok (require_membership space_id user_id d) _ h4 in
      let (work_id, e6, h6) = >>=-eq-ok (column c.work_id) _ h5 in
      let (w, e7, h7) = >>=-eq-ok (or_fail (lock_work space_id work_id d) not_found) _ h6 in
      (
        work_id,
        space_id,
        user_id,
        key,
        w,
        e6,
        e3,
        e4,
        e1,
        e2,
        e5,
        or_fail-some (lock_work space_id work_id d) not_found e7,
        append_locked-Answered now message_id w work_id user_id c.text key
            (message_digest sha256 spell c.work_id c.author_user_id c.text) d h7,
      )
