-- ===== src/Connection/Again.antt =====
-- A machine that polls again after its connection (internal/postgres/machine.go).
use carry.Connection.Told.{Told, Told-Grows, poll_machine_connection-Told}
use carry.Prelude.{ℕ, true, false, not, none, some, ◌≡◌, refl, ap, subst, sym, ◌∙◌, arith, find}
use carry.Result.{
  Result, ok, or_fail, fail_if, >>=-ok, machine_unavailable, connection_replay_expired,
}
use carry.Text.{Text, text_eq}
use carry.Conversation.Claims.{runs_on}
use carry.Store.Tables.{is_null}
use carry.Connection.Tables.{Network, Request, Enrolled, request_with, enrolled_with}
use carry.Connection.Requests.{lock_request}
use carry.Connection.Poll.{
  IssuedCertificate, ConnectedMachine, connected_machine, poll_again, poll_locked,
  poll_machine_connection,
}
use carry.Connection.Machines.{load_machine}
use carry.Connection.Steps.{Reach, Reach-Sound, poll_machine_connection-Sound}
use carry.Connection.Honest.{Honest}

module _ (issuer : ℕ → Text → ℕ → Result IssuedCertificate) where
  poll_again_told :
      (now : ℕ) (r : Request) (m : Enrolled) (n : Network)
      → runs_on now r.replay_until ≡ true
      → r.resulting_machine_id ≡ some m.machine_id
      → find (enrolled_with m.machine_id) n.machines ≡ some m
      → m.revoked_at ≡ none
      → poll_again now r n ≡ ok (connected_machine r m)
  unfolding poll_again load_machine
  poll_again_told now r m n runs resulting enrolled active =
      >>=-ok (fail_if (not (runs_on now r.replay_until)) connection_replay_expired) _ {v = tt}
        (ground arith)
        (>>=-ok (or_fail r.resulting_machine_id connection_replay_expired) _ {v = m.machine_id}
          (ground arith)
          (>>=-ok (or_fail (find (enrolled_with m.machine_id) n.machines) machine_unavailable) _
            {v = m} (ground arith)
            (>>=-ok (fail_if (not (is_null m.revoked_at)) machine_unavailable) _ {v = tt}
              (ground arith) refl)))

  poll_told :
      (now id : ℕ) (poll_digest : Text) (r : Request) (n : Network) {x : ConnectedMachine}
      → find (request_with id) n.requests ≡ some r
      → text_eq r.poll_secret_digest poll_digest ≡ true
      → is_null r.redeemed_at ≡ false
      → poll_again now r n ≡ ok x
      → poll_machine_connection issuer now id poll_digest n ≡ (ok x, n)
  unfolding poll_machine_connection poll_locked lock_request
  poll_told now id poll_digest r n found secret done told = ground arith

  tells :
      (now id : ℕ) (poll_digest : Text) (x : ConnectedMachine) (n : Network)
      → (a : Told id poll_digest x n) → runs_on now x.replay_until ≡ true
      → a.machine.revoked_at ≡ none
      → poll_machine_connection issuer now id poll_digest n ≡ (ok x, n)
  tells now id poll_digest x n a runs active =
      let until = ap (λ (z : ConnectedMachine). z.replay_until) a.told in
      poll_told now id poll_digest a.request n a.found a.secret a.redeemed_once (
        poll_again_told now a.request a.machine n (subst (λ o. runs_on now o ≡ true) until runs)
          a.resulting a.enrolled active
        ∙ ap ok (sym a.told))

  -- A machine that was connected gets the same certificate when it polls again after any further
  -- history, until the end that the first poll told, and nothing changes. The machine is not revoked by
  -- then; the tables are in order before the first poll.
  pub poll_machine_connection_again :
      (now id : ℕ) (poll_digest : Text) {x : ConnectedMachine} {n n1 e : Network} {m : Enrolled}
      → Honest n
      → poll_machine_connection issuer now id poll_digest n ≡ (ok x, n1)
      → Reach issuer n1 e
      → (later : ℕ) → runs_on later x.replay_until ≡ true
      → find (enrolled_with x.machine_id) e.machines ≡ some m
      → m.revoked_at ≡ none
      → poll_machine_connection issuer later id poll_digest e ≡ (ok x, e)
  poll_machine_connection_again now id poll_digest {x} {n} {n1} {e} {m} v h p later runs hm active =
      let w = (poll_machine_connection-Sound issuer now id poll_digest n h v).0 in
      let a =
        Told-Grows id poll_digest x (Reach-Sound issuer p w).1
          (poll_machine_connection-Told issuer now id poll_digest n h v).0 in
      let key = ap (λ (z : ConnectedMachine). z.machine_id) a.told in
      let one : some m ≡ some a.machine =
        sym (subst (λ i. find (enrolled_with i) e.machines ≡ some m) key hm) ∙ a.enrolled in
      let same : m ≡ a.machine = ground arith in
      tells later id poll_digest x e a runs
        (subst (λ (z : Enrolled). z.revoked_at ≡ none) same active)
