-- ===== src/Connection/Ended.antt =====
-- A machine that is revoked (internal/postgres/machine.go).
use carry.Prelude.{
  ℕ, ◌&&◌, ◌≢◌, false, not, List, ◌∷◌, [], Option, none, some, ◌≡◌, inl, inr, refl, ap, subst, sym,
  ◌∙◌, arith, ◌==◌, find, update, count, mem-find, find-update, find_sound, find-mem, Option-cases,
}
use carry.Result.{
  Result, ok, or_fail, fail_if, >>=-eq-ok, or_fail-some, machine_unavailable, machine_authority,
}
use carry.Text.{Text}
use carry.Store.Tables.{is_null}
use carry.Connection.Tables.{Network, AgentRow, Actor, by_user, Enrolled, enrolled_with}
use carry.Connection.Poll.{IssuedCertificate, ConnectedMachine, poll_machine_connection}
use carry.Connection.Machines.{
  revoke_machine, remove_active_agents, active_machine, revoked, lock_browser_session, lock_space,
  lock_enrollment_membership, lock_machine_for_revocation,
}
use carry.Connection.Revoke.{RevokeMachineCommand, revoke_locked, revoke_machine_from_browser}
use carry.Connection.Machines.{active_agent}
use carry.Connection.Steps.{Reach, Reach-Sound, poll_machine_connection-Sound}
use carry.Connection.Revoking.{revoke_machine_from_browser-Sound}
use carry.Connection.Told.{poll_machine_connection-Told}
use carry.Connection.Honest.{Honest}

revoke_machine_inv :
    (now : ℕ) (actor : Actor) (user_id : Option ℕ) (key digest : Text) (id : ℕ) (n : Network)
    {x : Enrolled} {e : Network}
    → revoke_machine now actor user_id key digest id n ≡ ok (x, e)
    → (m : Enrolled) × (find (active_machine id) n.machines ≡ some m)
      × (x ≡ revoked now actor user_id key digest m)
      × (e ≡ record n {
        machines = update (active_machine id) (revoked now actor user_id key digest) n.machines;
      })
unfolding revoke_machine
revoke_machine_inv now actor user_id key digest id n h =
    elim (Option-cases (find (active_machine id) n.machines)) [
      | inl k ↦ absurd (ground arith)
      | inr (m, k) ↦ (m, k, ground arith, ground arith)
    ]

-- No agent is active after all of a machine are removed.
no_agent_left :
    (now machine_id : ℕ) (agents : List AgentRow)
    → count (active_agent machine_id) (
        update
          (active_agent machine_id)
          (λ a. record a { removed_at = some now; present = false })
          agents)
      ≡ 0
no_agent_left now machine_id [] = refl
no_agent_left now machine_id (a ∷ others) =
    let rest = no_agent_left now machine_id others in ground arith

revoke_locked-ends :
    (now : ℕ) (actor : Actor) (user_id : Option ℕ) (key digest : Text) (m : Enrolled) (n : Network)
    {x : Enrolled} {e : Network}
    → Honest n
    → m.revoked_at ≡ none
    → revoke_locked now actor user_id key digest m n ≡ ok (x, e)
    → (find (enrolled_with m.machine_id) e.machines ≡ some x)
      × (x.revoked_at ≡ some now)
      × (count (active_agent m.machine_id) e.agents ≡ 0)
unfolding revoke_locked remove_active_agents
revoke_locked-ends now actor user_id key digest m n {x} {e} v active h =
    let id = m.machine_id in
    let q = active_machine id in
    let f = revoked now actor user_id key digest in
    let ((y, n1), e1, h1) =
      >>=-eq-ok (revoke_machine now actor user_id key digest id n) _
        (rw (active, revoke_locked) at h) in
    let (w, hw, is_y, is_n1) = revoke_machine_inv now actor user_id key digest id n e1 in
    let hit = find_sound q n.machines hw in
    let found : find (enrolled_with id) n.machines ≡ some w =
      mem-find (enrolled_with id) n.machines (v.machines_once id) (ground arith)
        (find-mem q n.machines hw) in
    let moved =
      find-update (enrolled_with id) q f (λ z. refl) n.machines found ∙ ap some (rw hit refl) in
    let same_y : x ≡ y = ground arith in
    let is_e : e ≡ remove_active_agents now id n1 = ground arith in
    (
      subst (λ (z : Network). find (enrolled_with id) z.machines ≡ some x) (sym is_e)
          (subst (λ (z : Network). find (enrolled_with id) z.machines ≡ some x) (sym is_n1)
            (moved ∙ ap some (sym (same_y ∙ is_y)))),
      ap (λ (z : Enrolled). z.revoked_at) (same_y ∙ is_y),
      subst (λ (z : Network). count (active_agent id) z.agents ≡ 0) (sym is_e)
          (no_agent_left now id n1.agents),
    )

module _ (issuer : ℕ → Text → ℕ → Result IssuedCertificate) where
  -- A member who revokes a machine that is active ends it: its row is revoked at that time and stays so
  -- through any further history, and right after the revocation it has no active agent. The tables are
  -- in order before.
  pub revoke_machine_from_browser-ends :
      (now : ℕ) (c : RevokeMachineCommand) {m x : Enrolled} {n n1 e : Network}
      → Honest n
      → lock_machine_for_revocation c.machine_id c.space_id n ≡ some m
      → m.revoked_at ≡ none
      → revoke_machine_from_browser now c n ≡ ok (x, n1)
      → Reach issuer n1 e
      → (find (enrolled_with c.machine_id) e.machines ≡ some x)
        × (x.revoked_at ≡ some now)
        × (count (active_agent c.machine_id) n1.agents ≡ 0)
  unfolding revoke_machine_from_browser lock_machine_for_revocation
  revoke_machine_from_browser-ends now c {m} {x} {n} {n1} {e} v hm active h p =
      let (user_id, e1, h1) =
        >>=-eq-ok (or_fail (lock_browser_session now c.browser_session_id n) machine_unavailable) _
          h in
      let (s, e2, h2) = >>=-eq-ok (or_fail (lock_space c.space_id n) machine_unavailable) _ h1 in
      let (b, e3, h3) =
        >>=-eq-ok (or_fail (lock_enrollment_membership c.space_id user_id n) machine_authority) _
          h2 in
      let (u, e4, h4) = >>=-eq-ok (fail_if (not b) machine_authority) _ h3 in
      let lock = lock_machine_for_revocation c.machine_id c.space_id n in
      let (k, e5, h5) = >>=-eq-ok (or_fail lock machine_unavailable) _ h4 in
      let one : some k ≡ some m = sym (or_fail-some lock machine_unavailable e5) ∙ hm in
      let same : k ≡ m = ground arith in
      let sound =
        find_sound (λ (z : Enrolled). z.machine_id == c.machine_id && z.space_id == c.space_id)
          n.machines hm in
      let key : m.machine_id ≡ c.machine_id = ground arith in
      let (found, at_now, no_agent) =
        revoke_locked-ends now by_user (some user_id) c.idempotency_key c.request_digest m n v
          active
          (subst
            (λ z.
              revoke_locked now by_user (some user_id) c.idempotency_key c.request_digest z n
              ≡ ok (x, n1))
            same h5) in
      let w = (revoke_machine_from_browser-Sound now c n h v).0 in
      let (y, hy, kept) = (Reach-Sound issuer p w).1.machine_kept m.machine_id x found in
      let stays = kept.gone (ground (arith, at_now)) in
      (
        subst (λ i. find (enrolled_with i) e.machines ≡ some x) key (hy ∙ ap some stays),
        at_now,
        subst (λ i. count (active_agent i) n1.agents ≡ 0) key no_agent,
      )

  -- Once a machine has been revoked, no poll gives its certificate any more, whatever happens in between.
  -- The tables are in order before.
  pub poll_machine_connection-refused :
      {n e f : Network} {m : Enrolled}
      → Honest n
      → find (enrolled_with m.machine_id) n.machines ≡ some m
      → is_null m.revoked_at ≡ false
      → Reach issuer n e
      → (now id : ℕ) (poll_digest : Text) {x : ConnectedMachine}
      → poll_machine_connection issuer now id poll_digest e ≡ (ok x, f)
      → x.machine_id ≢ m.machine_id
  poll_machine_connection-refused {n} {e} {f} {m} v found gone p now id poll_digest {x} h same =
      let (w, g) = Reach-Sound issuer p v in
      let (y, hy, kept) = g.machine_kept m.machine_id m found in
      let (z, hz, kept2) =
        (poll_machine_connection-Sound issuer now id poll_digest e h w).1.machine_kept m.machine_id
          y hy in
      let is_y = kept.gone gone in
      let is_z =
        kept2.gone (subst (λ (o : Enrolled). is_null o.revoked_at ≡ false) (sym is_y) gone) in
      let (a, active) = poll_machine_connection-Told issuer now id poll_digest e h w in
      let key : a.machine.machine_id ≡ m.machine_id =
        sym (ap (λ (o : ConnectedMachine). o.machine_id) a.told) ∙ same in
      let one : some a.machine ≡ some z =
        sym (subst (λ i. find (enrolled_with i) f.machines ≡ some a.machine) key a.enrolled) ∙ hz in
      let it : a.machine ≡ z = ground arith in
      let was : a.machine.revoked_at ≡ m.revoked_at =
        ap (λ (o : Enrolled). o.revoked_at) (it ∙ (is_z ∙ is_y)) in
      ground arith
