-- ===== src/Connection/Beginning.antt =====
-- BeginMachineConnection and LookupMachineConnection of internal/postgres/machine.go keep the tables
-- in order.
use carry.Prelude.{ℕ, ◌||◌, ◌≡◌, inl, inr, subst, arith, Bool-cases, Option-cases, leb}
use carry.Result.{Result, ok, fail_if, >>=-eq-ok, connection_rate_limited}
use carry.Connection.Tables.{Network, Request}
use carry.Connection.Requests.{
  lock_request, count_live_for_source, count_live, new_request, create_request, find_live_by_code,
}
use carry.Connection.Machines.{lock_browser_session}
use carry.Connection.Begin.{
  BeginConnectionCommand, begin_new, begin_machine_connection, LookupConnectionCommand,
  lookup_machine_connection, record_failure, too_many_failures,
}
use carry.Connection.Later.{Later-refl, Fair, Kept-refl}
use carry.Connection.Honest.{Honest, Sound, Sound-refl}
use carry.Connection.Changes.{add_request}

create_request-Sound :
    (r : Request) (n : Network) {s : Request} {e : Network}
    → create_request r n ≡ ok (s, e)
    → Fair r
    → Honest n
    → Sound n e
unfolding create_request
create_request-Sound r n h fair v =
    subst (Sound n) (ground arith) (add_request n v r (ground arith) fair)

begin_new-Sound :
    (now : ℕ) (c : BeginConnectionCommand) (n : Network) {r : Request} {e : Network}
    → begin_new now c n ≡ ok (r, e)
    → Honest n
    → Sound n e
unfolding begin_new
begin_new-Sound now c n h v =
    let many = leb 5 (count_live_for_source now c.source_digest n) || leb 1000 (count_live now n) in
    let (u, e1, h1) = >>=-eq-ok (fail_if many connection_rate_limited) _ h in
    create_request-Sound
      (new_request now c.request_id c.idempotency_key c.request_digest c.source_digest c.code_digest
        c.poll_digest c.display_name c.public_key_der c.key_proof)
      n h1
      (record {
        slow = omega arith;
        quick = omega arith;
        quiet = λ k. absurd (ground arith);
        earned = λ k. absurd (ground arith);
        given = λ k. absurd (ground arith);
      })
      v

pub begin_machine_connection-Sound :
    (now : ℕ) (c : BeginConnectionCommand) (n : Network) {r : Request} {e : Network}
    → begin_machine_connection now c n ≡ ok (r, e)
    → Honest n
    → Sound n e
unfolding begin_machine_connection
begin_machine_connection-Sound now c n {r} h v = elim (Option-cases (lock_request c.request_id n)) [
  | inl k ↦ begin_new-Sound now c n {r = r} (ground arith) v
  | inr (s, k) ↦ subst (Sound n) (ground arith) (Sound-refl n v)
]

fails-Sound :
    (now failure_id : ℕ) (c : LookupConnectionCommand) (n : Network)
    → Honest n
    → Sound n (record_failure now failure_id c n)
fails-Sound now failure_id c n v = (
  record {
    requests_once = v.requests_once;
    machines_once = v.machines_once;
    fair = v.fair;
    made = v.made;
  },
  record {
    request_kept = λ id r h. (r, h, Later-refl r);
    machine_kept = λ id m h. (m, h, Kept-refl m);
  },
)

-- A failed look up is all that LookupMachineConnection may write.
pub lookup_machine_connection-Sound :
    (now failure_id : ℕ) (c : LookupConnectionCommand) (n : Network) {o : Result Request}
    {e : Network}
    → lookup_machine_connection now failure_id c n ≡ (o, e)
    → Honest n
    → Sound n e
unfolding lookup_machine_connection
lookup_machine_connection-Sound now failure_id c n {o} {e} h v =
    elim (Option-cases (lock_browser_session now c.browser_session_id n)) [
      | inl k ↦ subst (Sound n) (ground arith) (Sound-refl n v)
      | inr (u, k) ↦ elim (Bool-cases (too_many_failures now c n)) [
        | inl b ↦ subst (Sound n) (ground arith) (Sound-refl n v)
        | inr b ↦ elim (Option-cases (find_live_by_code now c.code_digest n)) [
          | inr (r, f) ↦ subst (Sound n) (ground arith) (Sound-refl n v)
          | inl f ↦ subst (Sound n) (ground arith) (fails-Sound now failure_id c n v)
        ]
      ]
    ]
