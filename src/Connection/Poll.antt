-- ===== src/Connection/Poll.antt =====
-- PollMachineConnection of internal/postgres/machine.go.
use carry.Prelude.{ℕ, ◌+◌, ◌*◌, Bool, true, false, not, Option, none, some, ltb, leb, if◌then◌else◌}
use carry.Result.{
  Result, ok, err, ◌>>=◌, ◌>>◌, fail_if, or_fail, connection_unavailable, connection_pending,
  connection_denied, connection_cancelled, connection_expired, connection_replay_expired,
  connection_slow_down, machine_unavailable, database,
}
use carry.Text.{Text, text_eq}
use carry.Store.Tables.{is_null}
use carry.Conversation.Claims.{runs_on}
use carry.Connection.Tables.{Network, Request, Enrolled, Decision, denied, second}
use carry.Connection.Requests.{lock_request, change_request, polled, slowed, slower, redeem_request}
use carry.Connection.Machines.{load_machine, new_machine, create_connected_machine}

-- `IssuedMachineCertificate`.
pub record IssuedCertificate : Type 0 where
  pub certificate_pem : Text
  pub serial : Text

-- `ConnectedMachine`, without the origin of the server.
pub record ConnectedMachine : Type 0 where
  pub machine_id : ℕ
  pub space_id : ℕ
  pub display_name : Text
  pub certificate_pem : Text
  pub redeemed_at : Option ℕ
  pub replay_until : Option ℕ

-- `connectedMachine`.
abbrev pub connected_machine : Request → Enrolled → ConnectedMachine
connected_machine r m = record {
  machine_id = m.machine_id;
  space_id = m.space_id;
  display_name = m.display_name;
  certificate_pem = m.certificate_pem;
  redeemed_at = r.redeemed_at;
  replay_until = r.replay_until;
}

-- A request that was redeemed is told again for a while, until its machine is revoked.
unfoldable pub poll_again : ℕ → Request → Network → Result ConnectedMachine
poll_again now r n = do
  fail_if (not (runs_on now r.replay_until)) connection_replay_expired
  machine_id ← or_fail r.resulting_machine_id connection_replay_expired
  m ← or_fail (load_machine machine_id n) machine_unavailable
  fail_if (not (is_null m.revoked_at)) machine_unavailable
  ok (connected_machine r m)

-- When the next poll may come.
abbrev pub next_poll_at : Request → ℕ
next_poll_at r =
    let interval = r.poll_interval_seconds * second in
    elim r.last_polled_at [ none ↦ r.created_at + interval | some t ↦ t + interval ]

-- A uuid that is missing is the empty text in the source, which no uuid column takes. A request that
-- was decided has the time of its decision, by a constraint of the table.
abbrev pub required : Option ℕ → Result ℕ
required o = or_fail o database

module _ (issuer : ℕ → Text → ℕ → Result IssuedCertificate) where
  -- The machine of an approved request is made, and the request is redeemed.
  unfoldable pub redeem : ℕ → Request → Network → Result (ConnectedMachine × Network)
  redeem now r n = do
    machine_id ← required r.prepared_machine_id
    decided_at ← required r.decided_at
    issued ← issuer machine_id r.public_key_der decided_at
    space_id ← required r.decided_space_id
    user_id ← required r.decided_by_user_id
    (m, n1) ←
        create_connected_machine
          (new_machine now machine_id space_id r.display_name r.public_key_der
            issued.certificate_pem issued.serial user_id)
          n
    (q, n2) ← or_fail (redeem_request now machine_id r.request_id n1) database
    ok (connected_machine q m, n2)

  -- An error rolls the transaction back.
  abbrev pub settle :
      Network → Result (ConnectedMachine × Network) → Result ConnectedMachine × Network
  settle n (err e) = (err e, n)
  settle n (ok (x, n1)) = (ok x, n1)

  -- A poll of a request that is not redeemed, is not denied or cancelled and has not expired. A poll
  -- that comes too early, or before a decision, is recorded although its result is an error.
  unfoldable pub poll_open : ℕ → Request → Network → Result ConnectedMachine × Network
  poll_open now r n =
      let noted = change_request r.request_id (polled now) n in
      if ltb now (next_poll_at r)
      then (
        err (connection_slow_down (slower r.poll_interval_seconds * second)),
        change_request r.request_id (slowed now) n,
      )
      else elim r.decision [
        | none ↦ (err connection_pending, noted)
        | some d ↦ settle n (redeem now (polled now r) noted)
      ]

  abbrev pub is_denied : Option Decision → Bool
  is_denied (some denied) = true
  is_denied _ = false

  -- The rest of a poll, once the secret is right.
  unfoldable pub poll_locked : ℕ → Request → Network → Result ConnectedMachine × Network
  poll_locked now r n =
      if not (is_null r.redeemed_at)
      then (poll_again now r n, n)
      else if is_denied r.decision
      then (err connection_denied, n)
      else if not (is_null r.cancelled_at)
      then (err connection_cancelled, n)
      else if leb r.expires_at now
      then (err connection_expired, n)
      else poll_open now r n

  -- PollMachineConnection.
  unfoldable pub poll_machine_connection :
      ℕ → ℕ → Text → Network → Result ConnectedMachine × Network
  poll_machine_connection now id poll_digest n = elim (lock_request id n) [
    | none ↦ (err connection_unavailable, n)
    | some r ↦
        if text_eq r.poll_secret_digest poll_digest
        then poll_locked now r n
        else (err machine_unavailable, n)
  ]
