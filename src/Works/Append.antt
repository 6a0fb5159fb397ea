-- ===== src/Works/Append.antt =====
-- AppendWorkMessage of internal/postgres/work.go.
use carry.Prelude.{ℕ, ◌||◌, [], ◌∷◌, none, some, if◌then◌else◌}
use carry.Result.{
  Result, ok, err, ◌>>=◌, ◌>>◌, fail_if, or_fail, identity_required, idempotency_conflict,
  not_found, not_open,
}
use carry.Text.{Text, text_eq}
use carry.Digest.{encode_fields}
use carry.Work.{validate_message, normalize_idempotency_key}
use carry.Store.Tables.{Db, Work, WorkMessage, is_open}
use carry.Store.Retries.{lock_work}
use carry.Store.Works.{
  find_work_message_by_idempotency, advance_work_input_head, create_work_message,
}
use carry.Execution.Retry.{
  Principal, is_nobody, acting, name_of, text_of, Identifier, is_blank, column, require_membership,
}

-- `work.AppendMessageCommand`.
pub record AppendMessageCommand : Type 0 where
  pub work_id : Identifier
  pub space_id : Identifier
  pub author_user_id : Principal
  pub text : Text
  pub idempotency_key : Text

-- A new message at the next input number.
unfoldable pub append_new : ℕ → ℕ → ℕ → ℕ → Text → Text → Text → Db → Result (WorkMessage × Db)
append_new now message_id work_id user_id text key digest db = do
  (input_seq, db') ← or_fail (advance_work_input_head work_id db) not_open
  create_work_message
      (record {
        message_id = message_id;
        work_id = work_id;
        author_user_id = user_id;
        text = text;
        input_seq = input_seq;
        idempotency_key = key;
        request_digest = digest;
        created_at = now;
      })
      db'

-- The rest of the transaction, once the Work is locked.
unfoldable pub append_locked :
    ℕ → ℕ → Work → ℕ → ℕ → Text → Text → Text → Db → Result (WorkMessage × Db)
append_locked now message_id w work_id user_id text key digest db =
    elim (find_work_message_by_idempotency work_id user_id key db) [
      | some existing ↦
          if text_eq existing.request_digest digest
          then ok (existing, db)
          else err idempotency_conflict
      | none ↦
          if is_open w.lifecycle
          then append_new now message_id work_id user_id text key digest db
          else err not_open
    ]

module _ (sha256 : Text → Text) (spell : ℕ → Text) where
  -- `MessageDigest`, of the identifiers as they are spelled.
  abbrev pub message_digest : Identifier → Principal → Text → Text
  message_digest work_id user_id text =
      sha256 (encode_fields (text_of spell work_id ∷ name_of spell user_id ∷ text ∷ []))

  -- AppendWorkMessage.
  unfoldable pub append_work_message : ℕ → ℕ → AppendMessageCommand → Db → Result (WorkMessage × Db)
  append_work_message now message_id c db = do
    fail_if (is_blank c.work_id || is_blank c.space_id || is_nobody c.author_user_id)
        identity_required
    validate_message c.text
    key ← normalize_idempotency_key c.idempotency_key
    space_id ← column c.space_id
    user_id ← acting c.author_user_id
    require_membership space_id user_id db
    work_id ← column c.work_id
    w ← or_fail (lock_work space_id work_id db) not_found
    append_locked now message_id w work_id user_id c.text key
        (message_digest c.work_id c.author_user_id c.text) db
