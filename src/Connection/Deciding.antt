-- ===== src/Connection/Deciding.antt =====
-- DecideMachineConnection and CancelMachineConnection of internal/postgres/machine.go keep the tables
-- in order.
use carry.Prelude.{
  ℕ, true, not, Option, none, some, ◌≡◌, inl, inr, refl, subst, arith, Bool-cases, Option-cases,
  leb,
}
use carry.Result.{
  ok, or_fail, fail_if, >>=-eq-ok, or_fail-some, connection_unavailable, connection_cancelled,
  connection_expired, connection_already_decided, machine_unavailable,
}
use carry.Text.{Text, text_eq}
use carry.Store.Tables.{is_null}
use carry.Connection.Tables.{Network, Request, Decision}
use carry.Connection.Requests.{
  lock_request, undecided, open_request, Verdict, decided, decide_request, cancel_request,
}
use carry.Connection.Machines.{lock_browser_session}
use carry.Connection.Begin.{
  DecideConnectionCommand, authorize, decide_new, cancel_open, decide_locked,
  decide_machine_connection, cancel_machine_connection, is_same_decision,
}
use carry.Connection.Later.{Later, Fair}
use carry.Connection.Honest.{Honest, Sound, Sound-refl}
use carry.Connection.Changes.{change_requests}

-- A request that is open may be decided or cancelled.
decided-Later :
    (now : ℕ) (x : Verdict) (id : ℕ) (r : Request)
    → open_request now id r ≡ true
    → Fair r
    → Later r (decided now x r) × Fair (decided now x r)
decided-Later now x id r e v = (
  record {
    id = refl;
    secret = refl;
    key = refl;
    name = refl;
    decision = λ h. absurd (ground arith);
    by = λ h. absurd (ground arith);
    space = λ h. absurd (ground arith);
    prepared = λ h. absurd (ground arith);
    cancelled = λ h. refl;
    redeemed = λ h. refl;
    resulting = λ h. refl;
    replay = λ h. refl;
  },
  record {
    slow = v.slow;
    quick = v.quick;
    quiet = λ h. absurd (ground arith);
    earned = λ h. absurd (let was = v.earned h in ground arith);
    given = λ h. absurd (let was = v.earned h in ground arith);
  },
)

undecided-none : (o : Option Decision) → undecided o ≡ true → o ≡ none
undecided-none none h = refl
undecided-none (some d) h = cc

cancelled-Later :
    (now id : ℕ) (r : Request)
    → open_request now id r ≡ true
    → Fair r
    → Later r (record r { cancelled_at = some now }) × Fair (record r { cancelled_at = some now })
cancelled-Later now id r e v = (
  record {
    id = refl;
    secret = refl;
    key = refl;
    name = refl;
    decision = λ h. refl;
    by = λ h. refl;
    space = λ h. refl;
    prepared = λ h. refl;
    cancelled = λ h. absurd (ground arith);
    redeemed = λ h. refl;
    resulting = λ h. refl;
    replay = λ h. refl;
  },
  record {
    slow = v.slow;
    quick = v.quick;
    quiet = λ h. undecided-none r.decision (ground arith);
    earned = v.earned;
    given = v.given;
  },
)

decide_request-Sound :
    (now : ℕ) (x : Verdict) (id : ℕ) (n : Network) {o : Option (Request × Network)} {r : Request}
    {e : Network}
    → decide_request now x id n ≡ ok o
    → o ≡ some (r, e)
    → Honest n
    → Sound n e
unfolding decide_request
decide_request-Sound now x id n h k v = subst (Sound n) (ground arith) (
    change_requests n v (open_request now id) (decided now x) (λ r. refl)
      (λ r m e. decided-Later now x id r e (v.fair r m)))

decide_new-Sound :
    (now : ℕ) (c : DecideConnectionCommand) (x : Verdict) (r : Request) (n : Network) {s : Request}
    {e : Network}
    → decide_new now c x r n ≡ ok (s, e)
    → Honest n
    → Sound n e
unfolding decide_new
decide_new-Sound now c x r n {s} h v =
    let (u, e1, h1) = >>=-eq-ok (fail_if (not (is_null r.cancelled_at)) connection_cancelled) _ h in
    let (w, e2, h2) = >>=-eq-ok (fail_if (leb r.expires_at now) connection_expired) _ h1 in
    let (o, e3, h3) = >>=-eq-ok (decide_request now x c.request_id n) _ h2 in
    decide_request-Sound now x c.request_id n {r = s} e3
      (or_fail-some o connection_already_decided h3) v

decide_locked-Sound :
    (now user_id : ℕ) (c : DecideConnectionCommand) (x : Verdict) (r : Request) (n : Network)
    {s : Request} {e : Network}
    → decide_locked now user_id c x r n ≡ ok (s, e)
    → Honest n
    → Sound n e
unfolding decide_locked
decide_locked-Sound now user_id c x r n {s} h v = elim (Option-cases r.decision) [
  | inr (d, k) ↦ elim (Bool-cases (is_same_decision user_id c d r)) [
    | inl b ↦ subst (Sound n) (ground arith) (Sound-refl n v)
    | inr b ↦ absurd (ground arith)
  ]
  | inl k ↦ decide_new-Sound now c x r n {s = s} (ground arith) v
]

pub decide_machine_connection-Sound :
    (now : ℕ) (c : DecideConnectionCommand) (n : Network) {r : Request} {e : Network}
    → decide_machine_connection now c n ≡ ok (r, e)
    → Honest n
    → Sound n e
unfolding decide_machine_connection
decide_machine_connection-Sound now c n h v =
    let (user_id, e1, h1) =
      >>=-eq-ok (or_fail (lock_browser_session now c.browser_session_id n) machine_unavailable) _
        h in
    let (x, e2, h2) = >>=-eq-ok (authorize user_id c n) _ h1 in
    let (r, e3, h3) =
      >>=-eq-ok (or_fail (lock_request c.request_id n) connection_unavailable) _ h2 in
    let (u, e4, h4) =
      >>=-eq-ok (fail_if (not (text_eq r.user_code_digest c.code_digest)) connection_unavailable) _
        h3 in
    decide_locked-Sound now user_id c x r n h4 v

cancel_open-Sound :
    (now id : ℕ) (r : Request) (n : Network) {e : Network}
    → cancel_open now id r n ≡ ok e
    → Honest n
    → Sound n e
unfolding cancel_open cancel_request
cancel_open-Sound now id r n h v =
    let (w, e5, h5) =
      >>=-eq-ok (fail_if (not (undecided r.decision)) connection_already_decided) _ h in
    let (z, e6, h6) = >>=-eq-ok (fail_if (leb r.expires_at now) connection_expired) _ h5 in
    subst (Sound n) (ground arith) (
      change_requests n v (open_request now id) (λ r. record r { cancelled_at = some now })
        (λ r. refl) (λ r m e. cancelled-Later now id r e (v.fair r m)))

pub cancel_machine_connection-Sound :
    (now id : ℕ) (poll_digest : Text) (n : Network) {e : Network}
    → cancel_machine_connection now id poll_digest n ≡ ok e
    → Honest n
    → Sound n e
unfolding cancel_machine_connection
cancel_machine_connection-Sound now id poll_digest n h v =
    let (r, e3, h3) = >>=-eq-ok (or_fail (lock_request id n) connection_unavailable) _ h in
    let (u, e4, h4) =
      >>=-eq-ok (fail_if (not (text_eq r.poll_secret_digest poll_digest)) machine_unavailable) _
        h3 in
    elim (Bool-cases (is_null r.cancelled_at)) [
      | inr b ↦ subst (Sound n) (ground arith) (Sound-refl n v)
      | inl b ↦ cancel_open-Sound now id r n (ground arith) v
    ]
