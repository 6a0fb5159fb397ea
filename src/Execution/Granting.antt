-- ===== src/Execution/Granting.antt =====
-- ClaimRun as a whole: a run that is taken over, a run that is started, or none.
use carry.Prelude.{
  ℕ, ◌+◌, true, false, not, [], ◌∷◌, none, some, ◌≡◌, ◌≢◌, ◌↔◌, ◌⊎◌, inl, inr, refl, ap,
  first_by-none, arith, any, update, select, select_map, first_by, first_by-least, first_by-mem,
  select-mem, Option-cases, Memᴰ, find, subst, sym, select_map-mem, All-has, select-has,
  select_map-has, ◌&&◌, ◌==◌,
}
use carry.Result.{
  ok, err, ◌>>=◌, or_fail, fail_if, >>=-eq-ok, or_fail-some, fail_if-passed, no_run_available,
  machine_not_found, machine_revoked,
}
use carry.Store.Tables.{
  work_with, Run, Db, Work, AttemptState, Machine, is_null, holds_work, lease_interval,
}
use carry.Store.Claims.{
  Candidate, lock_claiming_machine, lock_expired_run_for_claim, lock_work_for_run_claim,
  created_before, expires_before, join_run, expirable, expire_run_attempt, rotatable,
  rotate_run_fence, create_run, create_run_attempt, list_run_input_messages,
}
use carry.Execution.Claim.{
  Claim, Clock, Locks, Draft, claim_run, draft_run, recover_run, start_run, grant_attempt,
  text_value,
}
use carry.Execution.Claiming.{
  Started, start_run-Started, lock_work_for_run_claim-least, recoverable, startable, new_attempt,
  expires_before_asym, expires_before_trans,
}

-- A row of the join: a run of the table, its Work, and the attempt under its current fence.
pub record Joined (d : Db) (k : Candidate) : Type 0 where
  pub run_in_table : Memᴰ k.run d.runs
  pub of_work : find (work_with k.run.work_id) d.works ≡ some k.work
  pub under_fence :
      find (λ a. a.run_id == k.run.run_id && a.fence == k.run.current_fence) d.attempts
      ≡ some k.attempt

join_run-Joined :
    (d : Db) (r : Run) (k : Candidate) → Memᴰ r d.runs → join_run d r ≡ some k → Joined d k
unfolding join_run
join_run-Joined d r k m h =
    let same : k.run ≡ r = ground arith in
    record {
      run_in_table = subst (λ x. Memᴰ x d.runs) (sym same) m;
      of_work = ground arith;
      under_fence = ground arith;
    }

Joined-join_run : (d : Db) (k : Candidate) → Joined d k → join_run d k.run ≡ some k
unfolding join_run
Joined-join_run d k j = ground (arith, j.of_work, j.under_fence)

-- The run whose lease ran out first, under its next fence; the old attempt is expired.
pub record Recovered (clock : Clock) (locks : Locks) (attempt_id machine_id space_id : ℕ) (d : Db)
    (c : Claim) (d' : Db) : Type 0 where
  pub taken : Candidate
  pub joined : Joined d taken
  pub ran_out : recoverable clock.searched locks space_id taken ≡ true
  pub earliest :
      (k : Candidate)
      → Joined d k
      → recoverable clock.searched locks space_id k ≡ true
      → expires_before k taken ≡ false
  pub granted : c ≡ record {
    run_id = taken.run.run_id;
    attempt_id = attempt_id;
    work_id = taken.run.work_id;
    fence = taken.run.current_fence + 1;
    lease_expires_at = clock.leased + lease_interval;
    goal = taken.work.goal;
    current_understanding = text_value taken.work.understanding;
    current_next_step = text_value taken.work.next_step;
    base_understanding_version = taken.run.base_understanding_version;
    input_end_seq = taken.run.input_end_seq;
    messages =
        list_run_input_messages taken.run.work_id taken.run.input_start_seq taken.run.input_end_seq
          d;
  }
  pub after : d' ≡ record d {
    runs =
        update
          (rotatable taken.run.run_id taken.run.current_fence)
          (λ r. record r { current_fence = r.current_fence + 1 })
          d.runs;
    attempts =
        new_attempt clock.leased attempt_id taken.run.run_id machine_id
          (taken.run.current_fence + 1)
        ∷ update
            (expirable clock.expired taken.attempt.attempt_id taken.run.run_id
              taken.run.current_fence)
            (λ a. record a { state = AttemptState.expired; completed_at = some clock.expired })
            d.attempts;
  }

recover_run-Recovered :
    (clock : Clock) (locks : Locks) (attempt_id machine_id space_id : ℕ) (d d1 : Db) (x : Draft)
    (k : Candidate) {c : Claim} {d' : Db}
    → lock_expired_run_for_claim clock.searched locks.run space_id d ≡ some k
    → recover_run clock.expired k d ≡ ok (x, d1)
    → grant_attempt clock.leased attempt_id machine_id x d1 ≡ ok (c, d')
    → Recovered clock locks attempt_id machine_id space_id d c d'
unfolding recover_run expire_run_attempt rotate_run_fence grant_attempt create_run_attempt
    list_run_input_messages lock_expired_run_for_claim
recover_run-Recovered clock locks attempt_id machine_id space_id d d1 x k hk hr hg =
    let rows = select_map (join_run d) d.runs in
    let p = recoverable clock.searched locks space_id in
    let (m, e) = select-mem p rows (first_by-mem expires_before _ hk) in
    let (r, mr, er) = select_map-mem (join_run d) d.runs m in
    let least = first_by-least expires_before expires_before_asym expires_before_trans _ hk in
    record {
      taken = k;
      joined = join_run-Joined d r k mr er;
      ran_out = e;
      earliest = λ x j ex.
          All-has (λ y. expires_before y k ≡ false) (select p rows) least
            (select-has p rows
              (select_map-has (join_run d) d.runs j.run_in_table (Joined-join_run d x j)) ex);
      granted = ground arith;
      after = ground arith;
    }

draft_run-granted :
    (clock : Clock) (locks : Locks) (run_id attempt_id machine_id space_id : ℕ) (d d1 : Db)
    (x : Draft) {c : Claim} {d' : Db}
    → draft_run clock locks run_id space_id d ≡ ok (x, d1)
    → grant_attempt clock.leased attempt_id machine_id x d1 ≡ ok (c, d')
    → Recovered clock locks attempt_id machine_id space_id d c d'
      ⊎ ((lock_expired_run_for_claim clock.searched locks.run space_id d ≡ none)
          × Started clock locks run_id attempt_id machine_id space_id d c d')
unfolding draft_run
draft_run-granted clock locks run_id attempt_id machine_id space_id d d1 x h g =
    elim (Option-cases (lock_expired_run_for_claim clock.searched locks.run space_id d)) [
      | inr (k, e) ↦ inl (
          recover_run-Recovered clock locks attempt_id machine_id space_id d d1 x k e
            (rw (e, draft_run) at h) g)
      | inl e ↦ elim (Option-cases (lock_work_for_run_claim locks.work space_id d)) [
        | inl n ↦ cc (rw (e, n, draft_run) at h)
        | inr (w, s) ↦ inr (
          e,
          start_run-Started clock locks run_id attempt_id machine_id space_id d d1 x w s
              (rw (e, s, draft_run) at h) g,
        )
      ]
    ]

abbrev pub Granted : Clock → Locks → ℕ → ℕ → ℕ → Db → Claim → Db → Type 0
Granted clock locks run_id attempt_id machine_id d c d' =
    (m : Machine) × (lock_claiming_machine machine_id d ≡ some m)
    × (is_null m.revoked_at ≡ true)
    × (Recovered clock locks attempt_id machine_id m.space_id d c d'
        ⊎ ((lock_expired_run_for_claim clock.searched locks.run m.space_id d ≡ none)
            × Started clock locks run_id attempt_id machine_id m.space_id d c d'))

-- A claim that succeeds is made by a machine that is not revoked. If a lease in its space has run
-- out, the claim takes over the run whose lease ran out first, under the next fence and with the
-- input and the base that the run has; otherwise it starts a run of the oldest open Work that has
-- input to apply and that no run holds. Rows that others have locked do not count.
pub claim_run-grants :
    (clock : Clock) (locks : Locks) (run_id attempt_id machine_id : ℕ) (d : Db) {c : Claim}
    {d' : Db}
    → claim_run clock locks run_id attempt_id machine_id d ≡ ok (c, d')
    → Granted clock locks run_id attempt_id machine_id d c d'
unfolding claim_run
claim_run-grants clock locks run_id attempt_id machine_id d h =
    let (m, em, h1) =
      >>=-eq-ok (or_fail (lock_claiming_machine machine_id d) machine_not_found) _ h in
    let (u, eu, h2) = >>=-eq-ok (fail_if (not (is_null m.revoked_at)) machine_revoked) _ h1 in
    let ((x, d1), ed, h3) = >>=-eq-ok (draft_run clock locks run_id m.space_id d) _ h2 in
    (
      m,
      or_fail-some (lock_claiming_machine machine_id d) machine_not_found em,
      ground (arith, fail_if-passed (not (is_null m.revoked_at)) machine_revoked eu),
      draft_run-granted clock locks run_id attempt_id machine_id m.space_id d d1 x ed h3,
    )

abbrev pub NothingToRun : Clock → Locks → ℕ → Db → Type 0
NothingToRun clock locks space_id d =
    (select (recoverable clock.searched locks space_id) (select_map (join_run d) d.runs) ≡ [])
    × (select (startable locks space_id d) d.works ≡ [])

recover_run-runs_out :
    (now later attempt_id machine_id : ℕ) (k : Candidate) (d : Db)
    → (recover_run now k d >>= λ (x, d1). grant_attempt later attempt_id machine_id x d1)
      ≢ err no_run_available
unfolding recover_run grant_attempt expire_run_attempt create_run_attempt
recover_run-runs_out now later attempt_id machine_id k d h = ground arith

start_run-free :
    (now later run_id attempt_id machine_id : ℕ) (w : Work) (d : Db)
    → any (holds_work w.work_id) d.runs ≡ false
    → (start_run now run_id w d >>= λ (x, d1). grant_attempt later attempt_id machine_id x d1)
      ≢ err no_run_available
unfolding start_run grant_attempt create_run create_run_attempt
start_run-free now later run_id attempt_id machine_id w d f h = ground arith

lock_expired-NothingToRun :
    (clock : Clock) (locks : Locks) (space_id : ℕ) (d : Db)
    → NothingToRun clock locks space_id d ↔ (
        (lock_expired_run_for_claim clock.searched locks.run space_id d ≡ none)
        × (lock_work_for_run_claim locks.work space_id d ≡ none))
unfolding lock_expired_run_for_claim lock_work_for_run_claim
lock_expired-NothingToRun clock locks space_id d = (
  λ (e, f). (ap (first_by expires_before) e, ap (first_by created_before) f),
  λ (e, f). (first_by-none expires_before _ e, first_by-none created_before _ f),
)

draft_run-none :
    (clock : Clock) (locks : Locks) (run_id attempt_id machine_id space_id : ℕ) (d : Db)
    → NothingToRun clock locks space_id d ↔ (
        (draft_run clock locks run_id space_id d >>= λ (x, d1).
        grant_attempt clock.leased attempt_id machine_id x d1)
        ≡ err no_run_available)
unfolding draft_run
draft_run-none clock locks run_id attempt_id machine_id space_id d =
    let (to, from) = lock_expired-NothingToRun clock locks space_id d in
    (
      λ n. let (e, f) = to n in rw (e, draft_run, f) refl,
      λ h.
          from
            (elim (Option-cases (lock_expired_run_for_claim clock.searched locks.run space_id d)) [
              | inr (k, e) ↦ absurd (
                  recover_run-runs_out clock.expired clock.leased attempt_id machine_id k d
                    (rw (e, draft_run) at h))
              | inl e ↦ (
                e,
                elim (Option-cases (lock_work_for_run_claim locks.work space_id d)) [
                  | inl n ↦ n
                  | inr (w, s) ↦
                      let (m, f, l) = lock_work_for_run_claim-least locks space_id d s in
                      absurd (
                        start_run-free clock.began clock.leased run_id attempt_id machine_id w d
                          (ground arith) (rw (e, draft_run, s) at h))
                ],
              )
            ]),
    )

-- A machine that is not revoked is told that no run is available exactly if no lease in its space
-- has run out and no open Work with input is free, not counting rows that others have locked.
pub claim_run-none :
    (clock : Clock) (locks : Locks) (run_id attempt_id machine_id : ℕ) (d : Db) (m : Machine)
    → lock_claiming_machine machine_id d ≡ some m
    → is_null m.revoked_at ≡ true
    → NothingToRun clock locks m.space_id d
      ↔ (claim_run clock locks run_id attempt_id machine_id d ≡ err no_run_available)
unfolding claim_run
claim_run-none clock locks run_id attempt_id machine_id d m hm hr =
    rw (hm, claim_run, hr) (draft_run-none clock locks run_id attempt_id machine_id m.space_id d)
