-- ===== src/Works/Create.antt =====
-- CreateWork of internal/postgres/work.go, and the Work that it returns. `sha256` is the hash, and
-- `spell` the text of a uuid in a command.
use carry.Prelude.{ℕ, Bool, false, ◌&&◌, ◌||◌, not, [], ◌∷◌, none, some, ltb, ◌==◌, any}
use carry.Result.{
  Result, ok, ◌>>=◌, ◌>>◌, fail_if, or_fail, identity_required, idempotency_conflict, database,
}
use carry.Text.{Text, text_eq}
use carry.Digest.{encode_fields}
use carry.Work.{normalize_goal, normalize_idempotency_key}
use carry.Store.Tables.{Db, Work, ResultCheck, is_null}
use carry.Store.Retries.{is_retryable}
use carry.Store.Works.{insert_work, find_work_by_create_idempotency}
use carry.Execution.Retry.{
  Principal, is_nobody, acting, name_of, text_of, Identifier, is_blank, column, require_membership,
}

-- `work.CreateCommand`.
pub record CreateCommand : Type 0 where
  pub space_id : Identifier
  pub creator_user_id : Principal
  pub goal : Text
  pub idempotency_key : Text

-- `work.Work`: the row, and what is derived from the tables.
pub record WorkView : Type 0 where
  pub work : Work
  pub has_unapplied_input : Bool
  pub needs_retry : Bool
  pub needs_review : Bool

-- The column `needs_retry` of FindWorkByCreateIdempotency and LoadWork.
abbrev pub work_needs_retry : Work → Db → Bool
work_needs_retry w db = any (is_retryable w.work_id) db.runs

-- A review of the current understanding that nobody accepted, of a Work with no new input.
abbrev pub current_review : Work → ResultCheck → Bool
current_review w c =
    c.work_id == w.work_id
    && c.understanding_version == w.understanding_version
    && is_null c.acceptance
    && w.applied_input_seq == w.input_head_seq

-- The column `needs_review`.
abbrev pub work_needs_review : Work → Db → Bool
work_needs_review w db = any (current_review w) db.checks

-- `workFromCreateRow`.
abbrev pub work_from_create_row : Work → WorkView
work_from_create_row w = record {
  work = w;
  has_unapplied_input = ltb w.applied_input_seq w.input_head_seq;
  needs_retry = false;
  needs_review = false;
}

-- `workFromIdempotencyRow`.
abbrev pub work_from_idempotency_row : Work → Db → WorkView
work_from_idempotency_row w db = record {
  work = w;
  has_unapplied_input = ltb w.applied_input_seq w.input_head_seq;
  needs_retry = work_needs_retry w db;
  needs_review = work_needs_review w db;
}

-- The answer to a key that was used before.
unfoldable pub replay_create : ℕ → ℕ → Text → Text → Db → Result (WorkView × Db)
replay_create space_id user_id key digest db = do
  existing ← or_fail (find_work_by_create_idempotency space_id user_id key db) database
  fail_if (not (text_eq existing.create_request_digest digest)) idempotency_conflict
  ok (work_from_idempotency_row existing db, db)

-- The transaction, once the command is checked.
unfoldable pub create_checked : ℕ → ℕ → ℕ → ℕ → Text → Text → Text → Db → Result (WorkView × Db)
create_checked now work_id space_id user_id goal key digest db = do
  require_membership space_id user_id db
  (row, db') ← insert_work now work_id space_id goal user_id key digest db
  elim row [
    | none ↦ replay_create space_id user_id key digest db'
    | some w ↦ ok (work_from_create_row w, db')
  ]

module _ (sha256 : Text → Text) (spell : ℕ → Text) where
  -- `CreateDigest`, of the identifiers as they are spelled.
  abbrev pub create_digest : Identifier → Principal → Text → Text
  create_digest space_id user_id goal =
      sha256 (encode_fields (text_of spell space_id ∷ name_of spell user_id ∷ goal ∷ []))

  -- CreateWork.
  unfoldable pub create_work : ℕ → ℕ → CreateCommand → Db → Result (WorkView × Db)
  create_work now work_id c db = do
    goal ← normalize_goal c.goal
    fail_if (is_blank c.space_id || is_nobody c.creator_user_id) identity_required
    key ← normalize_idempotency_key c.idempotency_key
    space_id ← column c.space_id
    user_id ← acting c.creator_user_id
    create_checked now work_id space_id user_id goal key
        (create_digest c.space_id c.creator_user_id goal) db
