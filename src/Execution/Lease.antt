-- ===== src/Execution/Lease.antt =====
-- RenewRunAttempt and FinishUnresolvedAttempt for the attempt that holds its run.
use carry.Prelude.{
  ℕ, ◌+◌, ◌<◌, true, ◌&&◌, none, some, ◌≡◌, inl, inr, refl, arith, ltb, ◌==◌, find, any, update,
  find_sound, find-mem, mem-any, if◌then◌else◌, any-find, Option-cases, Bool-cases, one_row,
}
use carry.Result.{ok, err, stale_attempt}
use carry.Store.Tables.{
  Db, Run, Attempt, AttemptState, Machine, run_with, attempt_with, machine_with, is_null,
  run_active, lease_interval,
}
use carry.Store.Attempts.{
  lock_attempt, lock_attempt_for_renew, lock_attempt_for_finish, holds, extendable,
  extend_run_attempt_lease, run_attempt_lease_is_current, active_attempt, active_run,
}
use carry.Execution.Attempt.{
  FinishCommand, renew_run_attempt, finish_unresolved_attempt, validate_unresolved_outcome,
}
use carry.Execution.Consistent.{Consistent}
use carry.Execution.Completion.{end_both-completes}

-- The rows that a lock finds.
pub record Owned (run_id attempt_id machine_id fence : ℕ) (d : Db) (r : Run) (a : Attempt)
    : Type 0 where
  pub machine : Machine
  pub run_found : find (run_with run_id) d.runs ≡ some r
  pub attempt_found : find (attempt_with attempt_id) d.attempts ≡ some a
  pub machine_found : find (machine_with a.machine_id) d.machines ≡ some machine
  pub held : holds machine_id fence r a machine ≡ true

lock_attempt-Owned :
    (run_id attempt_id machine_id fence : ℕ) (d : Db) (r : Run) (a : Attempt)
    → lock_attempt run_id attempt_id machine_id fence d ≡ some (r, a)
    → Owned run_id attempt_id machine_id fence d r a
unfolding lock_attempt
lock_attempt-Owned run_id attempt_id machine_id fence d r a h =
    elim (Option-cases (find (run_with run_id) d.runs)) [
      | inl e ↦ absurd (ground arith)
      | inr (s, e) ↦ elim (Option-cases (find (attempt_with attempt_id) d.attempts)) [
        | inl f ↦ absurd (ground arith)
        | inr (b, f) ↦ elim (Option-cases (find (machine_with b.machine_id) d.machines)) [
          | inl g ↦ absurd (ground arith)
          | inr (m, g) ↦ record {
            machine = m;
            run_found = ground arith;
            attempt_found = ground arith;
            machine_found = ground arith;
            held = ground arith;
          }
        ]
      ]
    ]

extend_run_attempt_lease-lem :
    (now run_id attempt_id machine_id fence : ℕ) (d : Db) (r : Run) (a : Attempt)
    → Consistent d
    → Owned run_id attempt_id machine_id fence d r a
    → extend_run_attempt_lease now attempt_id run_id fence machine_id d ≡ (
        if ltb now a.lease_expires_at
        then some (
          now + lease_interval,
          record d {
            attempts =
                update
                  (extendable now attempt_id run_id fence machine_id)
                  (λ b. record b { lease_expires_at = now + lease_interval })
                  d.attempts;
          },
        )
        else none)
unfolding extend_run_attempt_lease
extend_run_attempt_lease-lem now run_id attempt_id machine_id fence d r a v o =
    let t = extendable now attempt_id run_id fence machine_id in
    let er = find_sound (run_with run_id) d.runs o.run_found in
    let ea = find_sound (attempt_with attempt_id) d.attempts o.attempt_found in
    let em = find_sound (machine_with a.machine_id) d.machines o.machine_found in
    let here =
      mem-any (λ m. m.machine_id == machine_id && is_null m.revoked_at) d.machines
        (find-mem (machine_with a.machine_id) d.machines o.machine_found)
        (ground (arith, o.held)) in
    let live =
      mem-any (λ x. x.run_id == run_id && x.current_fence == fence && run_active x.state) d.runs
        (find-mem (run_with run_id) d.runs o.run_found) (ground (arith, o.held)) in
    elim (Bool-cases (ltb now a.lease_expires_at)) [
      | inl e ↦
          let hit =
            mem-any t d.attempts (find-mem (attempt_with attempt_id) d.attempts o.attempt_found)
              (ground (arith, o.held)) in
          ground (arith, here, live, hit, e)
      | inr e ↦ elim (Bool-cases (any t d.attempts)) [
        | inr n ↦ ground (arith, n, e)
        | inl y ↦
            let (b, hb, tb) =
              any-find (attempt_with attempt_id) t (λ x g. ground arith) d.attempts
                (v.attempts_once attempt_id) y in
            absurd (ground (arith, o.attempt_found, hb, tb))
      ]
    ]

-- In consistent tables the attempt that holds its run renews its lease if the lease has not
-- expired: it then ends five minutes from now, and nothing else changes. Otherwise the attempt is
-- told that it is stale.
pub renew_run_attempt-lem :
    (now run_id attempt_id machine_id fence : ℕ) (d : Db) (r : Run) (a : Attempt)
    → Consistent d
    → lock_attempt run_id attempt_id machine_id fence d ≡ some (r, a)
    → renew_run_attempt now machine_id run_id attempt_id fence d ≡ (
        if ltb now a.lease_expires_at
        then ok (
          now + lease_interval,
          record d {
            attempts =
                update
                  (extendable now attempt_id run_id fence machine_id)
                  (λ b. record b { lease_expires_at = now + lease_interval })
                  d.attempts;
          },
        )
        else err stale_attempt)
unfolding renew_run_attempt lock_attempt_for_renew
renew_run_attempt-lem now run_id attempt_id machine_id fence d r a v h =
    let extended =
      extend_run_attempt_lease-lem now run_id attempt_id machine_id fence d r a v
        (lock_attempt-Owned run_id attempt_id machine_id fence d r a h) in
    rw (h, renew_run_attempt, lock_attempt_for_renew, extended)
      (elim (Bool-cases (ltb now a.lease_expires_at)) [ inl e ↦ rw e refl | inr e ↦ rw e refl ])

-- In consistent tables the attempt that holds its run under a lease that has not expired can finish
-- it as failed or unknown: the attempt and the run end in that state, and nothing else changes.
pub finish_unresolved_attempt-completes :
    (now : ℕ) (c : FinishCommand) (d : Db) (r : Run) (a : Attempt) (state : AttemptState)
    → Consistent d
    → lock_attempt c.run_id c.attempt_id c.machine_id c.fence d ≡ some (r, a)
    → now < a.lease_expires_at
    → validate_unresolved_outcome c.outcome ≡ ok state
    → finish_unresolved_attempt now c d
      ≡ ok (record d {
        attempts =
            update
              (active_attempt c.attempt_id)
              (λ b. record b { state = state; completed_at = some now })
              d.attempts;
        runs =
            update
              (active_run c.run_id)
              (λ x. record x { state = c.outcome; completed_at = some now })
              d.runs;
      })
unfolding finish_unresolved_attempt lock_attempt_for_finish run_attempt_lease_is_current
finish_unresolved_attempt-completes now c d r a state v h less valid =
    let o = lock_attempt-Owned c.run_id c.attempt_id c.machine_id c.fence d r a h in
    let er = find_sound (run_with c.run_id) d.runs o.run_found in
    let ea = find_sound (attempt_with c.attempt_id) d.attempts o.attempt_found in
    let one_attempt =
      one_row (attempt_with c.attempt_id) (active_attempt c.attempt_id) (λ x e. ground arith)
        d.attempts (v.attempts_once c.attempt_id) o.attempt_found (ground (arith, o.held)) in
    let one_run =
      one_row (run_with c.run_id) (active_run c.run_id) (λ x e. ground arith) d.runs
        (v.runs_once c.run_id) o.run_found (ground (arith, o.held)) in
    let current : ltb now a.lease_expires_at ≡ true = ground arith in
    rw
      (
        valid, finish_unresolved_attempt, h, lock_attempt_for_finish, o.attempt_found,
        run_attempt_lease_is_current, current,
      )
      (end_both-completes now state c.outcome c.attempt_id c.run_id d one_attempt one_run)
