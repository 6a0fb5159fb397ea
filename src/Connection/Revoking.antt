-- ===== src/Connection/Revoking.antt =====
-- RevokeMachineFromBrowser and RevokeMachineFromHost of internal/postgres/machine.go keep the tables
-- in order.
use carry.Prelude.{
  ℕ, true, not, List, Option, none, some, ◌≡◌, inl, inr, refl, subst, arith, Bool-cases,
}
use carry.Result.{ok, or_fail, fail_if, >>=-eq-ok, machine_unavailable, machine_authority}
use carry.Text.{Text, text_eq}
use carry.Store.Tables.{is_null}
use carry.Connection.Tables.{
  Network, Session, Member, AgentRow, Actor, by_user, by_machine, Enrolled,
}
use carry.Connection.Machines.{
  revoke_machine, remove_active_agents, active_machine, revoked, lock_browser_session, lock_space,
  lock_enrollment_membership, load_machine, lock_machine_for_revocation,
}
use carry.Connection.Revoke.{
  RevokeMachineCommand, SelfRevokeMachineCommand, revoke_locked, revoke_machine_from_browser,
  revoke_machine_from_host,
}
use carry.Connection.Later.{Later-refl, Kept, Kept-refl}
use carry.Connection.Honest.{Honest, Sound, Sound-refl, Sound-trans}
use carry.Connection.Changes.{change_machines}

-- The agents, sessions, spaces and members do not matter.
pub other-Sound :
    (n : Network) (agents : List AgentRow) (sessions : List Session) (spaces : List ℕ)
    (members : List Member)
    → Honest n
    → Sound n
        (record n { agents = agents; sessions = sessions; spaces = spaces; members = members })
other-Sound n agents sessions spaces members v = (
  record {
    requests_once = v.requests_once;
    machines_once = v.machines_once;
    fair = v.fair;
    made = v.made;
  },
  record {
    request_kept = λ id r h. (r, h, Later-refl r);
    machine_kept = λ id m h. (m, h, Kept-refl m);
  },
)

revoked-Kept :
    (now : ℕ) (actor : Actor) (user_id : Option ℕ) (key digest : Text) (id : ℕ) (m : Enrolled)
    → active_machine id m ≡ true
    → Kept m (revoked now actor user_id key digest m)
revoked-Kept now actor user_id key digest id m e = record {
  id = refl;
  space = refl;
  name = refl;
  key = refl;
  certificate = refl;
  by = refl;
  gone = λ h. absurd (ground arith);
}

revoke_machine-Sound :
    (now : ℕ) (actor : Actor) (user_id : Option ℕ) (key digest : Text) (id : ℕ) (n : Network)
    {m : Enrolled} {e : Network}
    → revoke_machine now actor user_id key digest id n ≡ ok (m, e)
    → Honest n
    → Sound n e
unfolding revoke_machine
revoke_machine-Sound now actor user_id key digest id n h v = subst (Sound n) (ground arith) (
    change_machines n v (active_machine id) (revoked now actor user_id key digest) (λ m. refl)
      (revoked-Kept now actor user_id key digest id))

revoke_locked-Sound :
    (now : ℕ) (actor : Actor) (user_id : Option ℕ) (key digest : Text) (m : Enrolled) (n : Network)
    {x : Enrolled} {e : Network}
    → revoke_locked now actor user_id key digest m n ≡ ok (x, e)
    → Honest n
    → Sound n e
unfolding revoke_locked remove_active_agents
revoke_locked-Sound now actor user_id key digest m n h v =
    elim (Bool-cases (is_null m.revoked_at)) [
      | inr b ↦ subst (Sound n) (ground arith) (Sound-refl n v)
      | inl b ↦
          let ((y, n1), e1, h1) =
            >>=-eq-ok (revoke_machine now actor user_id key digest m.machine_id n) _
              (rw (b, revoke_locked) at h) in
          let s = revoke_machine-Sound now actor user_id key digest m.machine_id n e1 v in
          subst (Sound n) (ground arith) (
            Sound-trans s (
              other-Sound n1 (remove_active_agents now m.machine_id n1).agents n1.sessions n1.spaces
                n1.members s.0))
    ]

pub revoke_machine_from_browser-Sound :
    (now : ℕ) (c : RevokeMachineCommand) (n : Network) {m : Enrolled} {e : Network}
    → revoke_machine_from_browser now c n ≡ ok (m, e)
    → Honest n
    → Sound n e
unfolding revoke_machine_from_browser
revoke_machine_from_browser-Sound now c n h v =
    let (user_id, e1, h1) =
      >>=-eq-ok (or_fail (lock_browser_session now c.browser_session_id n) machine_unavailable) _
        h in
    let (s, e2, h2) = >>=-eq-ok (or_fail (lock_space c.space_id n) machine_unavailable) _ h1 in
    let (b, e3, h3) =
      >>=-eq-ok (or_fail (lock_enrollment_membership c.space_id user_id n) machine_authority) _
        h2 in
    let (u, e4, h4) = >>=-eq-ok (fail_if (not b) machine_authority) _ h3 in
    let (m, e5, h5) =
      >>=-eq-ok
        (or_fail (lock_machine_for_revocation c.machine_id c.space_id n) machine_unavailable) _
        h4 in
    revoke_locked-Sound now by_user (some user_id) c.idempotency_key c.request_digest m n h5 v

pub revoke_machine_from_host-Sound :
    (now : ℕ) (c : SelfRevokeMachineCommand) (n : Network) {m : Enrolled} {e : Network}
    → revoke_machine_from_host now c n ≡ ok (m, e)
    → Honest n
    → Sound n e
unfolding revoke_machine_from_host
revoke_machine_from_host-Sound now c n h v =
    let (m, e1, h1) = >>=-eq-ok (or_fail (load_machine c.machine_id n) machine_unavailable) _ h in
    let (u, e2, h2) =
      >>=-eq-ok
        (fail_if (not (text_eq m.certificate_serial c.certificate_serial)) machine_unavailable) _
        h1 in
    revoke_locked-Sound now by_machine none c.idempotency_key c.request_digest m n h2 v
