-- ===== src/Connection/Requests.antt =====
-- internal/postgres/dbsqlc/machine.sql.go: the statements on connection requests. They all read
-- `transaction_timestamp()`, which is the argument `now`.
use carry.Prelude.{
  ℕ, ◌+◌, ◌*◌, Bool, true, false, ◌&&◌, ◌||◌, not, ◌∷◌, Option, none, some, ltb, ◌==◌,
  if◌then◌else◌, find, update, count, any,
}
use carry.Result.{Result, ok, err, connection_rate_limited, connection_conflict}
use carry.Text.{Text, text_eq}
use carry.Store.Tables.{is_null}
use carry.Conversation.Tables.{is_some}
use carry.Conversation.Posts.{same_text}
use carry.Connection.Tables.{Network, Request, Decision, approved, request_with, minute}

-- LoadMachineConnectionForBegin and LockMachineConnectionRequest.
unfoldable pub lock_request : ℕ → Network → Option Request
lock_request id n = find (request_with id) n.requests

abbrev pub undecided : Option Decision → Bool
undecided none = true
undecided (some x) = false

abbrev pub live : ℕ → Request → Bool
live now r = ltb now r.expires_at && undecided r.decision && is_null r.cancelled_at

abbrev pub live_of : ℕ → Text → Request → Bool
live_of now source r = text_eq source r.source_digest && live now r

-- CountLiveMachineConnectionsForSource.
unfoldable pub count_live_for_source : ℕ → Text → Network → ℕ
count_live_for_source now source n = count (live_of now source) n.requests

-- CountLiveMachineConnections.
unfoldable pub count_live : ℕ → Network → ℕ
count_live now n = count (live now) n.requests

-- The row that CreateMachineConnection inserts.
abbrev pub new_request : ℕ → ℕ → Text → Text → Text → Text → Text → Text → Text → Text → Request
new_request now id key digest source code poll name public_key proof = record {
  request_id = id;
  begin_idempotency_key = key;
  begin_request_digest = digest;
  source_digest = source;
  user_code_digest = code;
  poll_secret_digest = poll;
  display_name = name;
  public_key_der = public_key;
  key_proof = proof;
  created_at = now;
  expires_at = now + 15 * minute;
  last_polled_at = none;
  poll_interval_seconds = 5;
  decision = none;
  decided_at = none;
  decided_by_user_id = none;
  decided_space_id = none;
  decision_idempotency_key = none;
  decision_request_digest = none;
  prepared_machine_id = none;
  cancelled_at = none;
  resulting_machine_id = none;
  redeemed_at = none;
  replay_until = none;
}

abbrev pub same_code : Text → Request → Bool
same_code code r = text_eq code r.user_code_digest

abbrev pub same_secret : Text → Request → Bool
same_secret poll r = text_eq poll r.poll_secret_digest

abbrev pub same_begin_key : Text → Request → Bool
same_begin_key key r = text_eq key r.begin_idempotency_key

-- CreateMachineConnection. A taken uuid or key is a conflict, a taken code or secret a limit.
unfoldable pub create_request : Request → Network → Result (Request × Network)
create_request r n =
    if any (request_with r.request_id) n.requests
      || any (same_begin_key r.begin_idempotency_key) n.requests
    then err connection_conflict
    else if any (same_code r.user_code_digest) n.requests
        || any (same_secret r.poll_secret_digest) n.requests
    then err connection_rate_limited
    else ok (r, record n { requests = r ∷ n.requests })

abbrev pub findable : ℕ → Text → Request → Bool
findable now code r = same_code code r && ltb now r.expires_at && is_null r.cancelled_at

-- FindLiveMachineConnectionByCode.
unfoldable pub find_live_by_code : ℕ → Text → Network → Option Request
find_live_by_code now code n = find (findable now code) n.requests

abbrev pub open_request : ℕ → ℕ → Request → Bool
open_request now id r =
    r.request_id == id && undecided r.decision && is_null r.cancelled_at && ltb now r.expires_at

-- What DecideMachineConnection writes: the space and the prepared machine are those of an approval.
pub record Verdict : Type 0 where
  pub decision : Decision
  pub user_id : ℕ
  pub space_id : Option ℕ
  pub key : Text
  pub digest : Text
  pub prepared_machine_id : Option ℕ

abbrev pub decided : ℕ → Verdict → Request → Request
decided now x r = record r {
  decision = some x.decision;
  decided_at = some now;
  decided_by_user_id = some x.user_id;
  decided_space_id = x.space_id;
  decision_idempotency_key = some x.key;
  decision_request_digest = some x.digest;
  prepared_machine_id = x.prepared_machine_id;
}

-- The index on the user and the key of a decision.
abbrev pub decided_under : ℕ → Text → Request → Bool
decided_under user_id key r =
    not (undecided r.decision)
    && is_some user_id r.decided_by_user_id
    && same_text key r.decision_idempotency_key

-- DecideMachineConnection: no row if the request is not open, an error if the user has used the key.
unfoldable pub decide_request : ℕ → Verdict → ℕ → Network → Result (Option (Request × Network))
decide_request now x id n = elim (find (open_request now id) n.requests) [
  | none ↦ ok none
  | some r ↦
      if any (decided_under x.user_id x.key) n.requests
      then err connection_conflict
      else ok (
          some (
            decided now x r,
            record n { requests = update (open_request now id) (decided now x) n.requests },
          ))
]

abbrev pub change_request : ℕ → (Request → Request) → Network → Network
change_request id f n = record n { requests = update (request_with id) f n.requests }

-- RecordMachineConnectionPoll.
abbrev pub polled : ℕ → Request → Request
polled now r = record r { last_polled_at = some now }

-- SlowDownMachineConnectionPoll, with `least(30, poll_interval_seconds + 5)`.
abbrev pub slower : ℕ → ℕ
slower s = if ltb 30 (s + 5) then 30 else s + 5

abbrev pub slowed : ℕ → Request → Request
slowed now r = record r {
  last_polled_at = some now;
  poll_interval_seconds = slower r.poll_interval_seconds;
}

abbrev pub is_approved : Option Decision → Bool
is_approved (some approved) = true
is_approved _ = false

abbrev pub redeemable : ℕ → Request → Bool
redeemable id r =
    r.request_id == id && is_approved r.decision && is_null r.cancelled_at && is_null r.redeemed_at

abbrev pub redeemed : ℕ → ℕ → Request → Request
redeemed now machine_id r = record r {
  resulting_machine_id = some machine_id;
  redeemed_at = some now;
  replay_until = some (now + 15 * minute);
}

-- RedeemMachineConnection.
unfoldable pub redeem_request : ℕ → ℕ → ℕ → Network → Option (Request × Network)
redeem_request now machine_id id n = elim (find (redeemable id) n.requests) [
  | none ↦ none
  | some r ↦ some (
    redeemed now machine_id r,
    record n { requests = update (redeemable id) (redeemed now machine_id) n.requests },
  )
]

-- CancelMachineConnection.
unfoldable pub cancel_request : ℕ → ℕ → Network → Option Network
cancel_request now id n =
    if any (open_request now id) n.requests
    then some (record n {
      requests =
          update (open_request now id) (λ r. record r { cancelled_at = some now }) n.requests;
    })
    else none
