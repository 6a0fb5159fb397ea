-- ===== src/Store/Works.antt =====
-- internal/postgres/dbsqlc/work.sql.go: the statements that create a Work, add a message and accept
-- a review.
use carry.Prelude.{
  ℕ, ◌+◌, Bool, false, ◌&&◌, ◌||◌, ◌∷◌, Option, none, some, ◌==◌, if◌then◌else◌, find, update,
  count, any,
}
use carry.Result.{Result, ok, err, database}
use carry.Text.{Text, text_eq}
use carry.Store.Tables.{
  Db, Work, WorkMessage, ResultCheck, Acceptance, lifecycle_open, is_null, is_open, work_with,
}

abbrev pub created_by : ℕ → ℕ → Text → Work → Bool
created_by space_id user_id key w =
    w.space_id == space_id && w.creator_user_id == user_id && text_eq w.create_idempotency_key key

-- The row that CreateWork inserts; the goal is the first input.
abbrev pub new_work : ℕ → ℕ → ℕ → Text → ℕ → Text → Text → Work
new_work now work_id space_id goal user_id key digest = record {
  work_id = work_id;
  space_id = space_id;
  goal = goal;
  lifecycle = lifecycle_open;
  owner_user_id = user_id;
  creator_user_id = user_id;
  input_head_seq = 1;
  applied_input_seq = 0;
  understanding_version = 0;
  understanding = none;
  next_step = none;
  create_idempotency_key = key;
  create_request_digest = digest;
  created_at = now;
}

-- CreateWork: no row if the creator used the key before, an error if the uuid is taken.
unfoldable pub insert_work : ℕ → ℕ → ℕ → Text → ℕ → Text → Text → Db → Result (Option Work × Db)
insert_work now work_id space_id goal user_id key digest db =
    let w = new_work now work_id space_id goal user_id key digest in
    if any (created_by space_id user_id key) db.works
    then ok (none, db)
    else if any (work_with work_id) db.works
    then err database
    else ok (some w, record db { works = w ∷ db.works })

-- FindWorkByCreateIdempotency.
unfoldable pub find_work_by_create_idempotency : ℕ → ℕ → Text → Db → Option Work
find_work_by_create_idempotency space_id user_id key db =
    find (created_by space_id user_id key) db.works

abbrev pub written_by : ℕ → ℕ → Text → WorkMessage → Bool
written_by work_id user_id key m =
    m.work_id == work_id && m.author_user_id == user_id && text_eq m.idempotency_key key

-- FindWorkMessageByIdempotency.
unfoldable pub find_work_message_by_idempotency : ℕ → ℕ → Text → Db → Option WorkMessage
find_work_message_by_idempotency work_id user_id key db =
    find (written_by work_id user_id key) db.messages

abbrev pub open_work : ℕ → Work → Bool
open_work work_id w = w.work_id == work_id && is_open w.lifecycle

-- AdvanceWorkInputHead.
unfoldable pub advance_work_input_head : ℕ → Db → Option (ℕ × Db)
advance_work_input_head work_id db = elim (find (open_work work_id) db.works) [
  | none ↦ none
  | some w ↦ some (
    w.input_head_seq + 1,
    record db {
      works =
          update (open_work work_id) (λ v. record v { input_head_seq = v.input_head_seq + 1 })
            db.works;
    },
  )
]

-- CreateWorkMessage. A taken uuid, input number or key is an error.
unfoldable pub create_work_message : WorkMessage → Db → Result (WorkMessage × Db)
create_work_message m db =
    if any (λ n. n.message_id == m.message_id) db.messages
      || any (λ n. n.work_id == m.work_id && n.input_seq == m.input_seq) db.messages
      || any (written_by m.work_id m.author_user_id m.idempotency_key) db.messages
    then err database
    else ok (m, record db { messages = m ∷ db.messages })

abbrev pub accepted_by : ℕ → ℕ → Text → ResultCheck → Bool
accepted_by work_id user_id key c = c.work_id == work_id && under_key c.acceptance
  where
    under_key : Option Acceptance → Bool
    under_key none = false
    under_key (some a) = a.accepted_by_user_id == user_id && text_eq a.idempotency_key key

-- FindWorkReviewAcceptanceByIdempotency.
unfoldable pub find_work_review_acceptance : ℕ → ℕ → ℕ → Text → Db → Option ResultCheck
find_work_review_acceptance work_id space_id user_id key db =
    if any (λ w. w.work_id == work_id && w.space_id == space_id) db.works
    then find (accepted_by work_id user_id key) db.checks
    else none

abbrev pub check_of : ℕ → ℕ → ResultCheck → Bool
check_of work_id review_id c = c.work_id == work_id && c.review_id == review_id

-- LockWorkResultCheck.
unfoldable pub lock_work_result_check : ℕ → ℕ → Db → Option ResultCheck
lock_work_result_check work_id review_id db = find (check_of work_id review_id) db.checks

abbrev pub unaccepted : ℕ → ℕ → ResultCheck → Bool
unaccepted work_id review_id c = check_of work_id review_id c && is_null c.acceptance

-- AcceptWorkResultCheck, with the number of rows.
unfoldable pub accept_work_result_check : ℕ → ℕ → Text → Text → ℕ → ℕ → Db → ℕ × Db
accept_work_result_check now user_id key digest work_id review_id db = (
  count (unaccepted work_id review_id) db.checks,
  record db {
    checks =
        update (unaccepted work_id review_id)
          (λ c. record c {
            acceptance = some (record {
              accepted_by_user_id = user_id;
              idempotency_key = key;
              request_digest = digest;
              accepted_at = now;
            });
          })
          db.checks;
  },
)
