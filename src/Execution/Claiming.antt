-- ===== src/Execution/Claiming.antt =====
-- A run that ClaimRun of internal/postgres/run.go starts.
use carry.Prelude.{
  ℕ, ◌+◌, Bool, true, false, not, ◌&&◌, List, ◌∷◌, none, some, ◌≡◌, refl, arith, select, All,
  first_by-least, first_by-mem, select-mem,
}
use mathlib.Core.List.{Memᴰ}
use carry.Result.{ok}
use carry.Store.Tables.{Db, Work, Run, Attempt, AttemptState, lease_interval}
use carry.Store.Claims.{
  Candidate, lock_work_for_run_claim, is_claimable, created_before, is_expired, expires_before,
  select_run_input_end, new_run, create_run, create_run_attempt, list_run_input_messages,
}
use carry.Execution.Claim.{Claim, Clock, Locks, Draft, start_run, grant_attempt, text_value}

created_before_asym : (v w : Work) → created_before v w ≡ true → created_before w v ≡ false
created_before_asym v w h = ground arith

created_before_trans :
    (u v w : Work)
    → created_before u v ≡ false
    → created_before v w ≡ false
    → created_before u w ≡ false
created_before_trans u v w h e = ground arith

pub expires_before_asym : (v w : Candidate) → expires_before v w ≡ true → expires_before w v ≡ false
expires_before_asym v w h = ground arith

pub expires_before_trans :
    (u v w : Candidate)
    → expires_before u v ≡ false
    → expires_before v w ≡ false
    → expires_before u w ≡ false
expires_before_trans u v w h e = ground arith

-- The Works that a claim may start a run of, and the runs that it may take over.
abbrev pub startable : Locks → ℕ → Db → Work → Bool
startable locks space_id d w = is_claimable space_id d w && not (locks.work w.work_id)

abbrev pub recoverable : ℕ → Locks → ℕ → Candidate → Bool
recoverable now locks space_id k = is_expired now space_id k && not (locks.run k.run.run_id)

-- The attempt that a claim creates.
abbrev pub new_attempt : ℕ → ℕ → ℕ → ℕ → ℕ → Attempt
new_attempt now attempt_id run_id machine_id fence = record {
  attempt_id = attempt_id;
  run_id = run_id;
  machine_id = machine_id;
  fence = fence;
  state = AttemptState.active;
  lease_expires_at = now + lease_interval;
  completed_at = none;
}

-- A new run of the oldest Work that has input and that no run holds.
pub record Started (clock : Clock) (locks : Locks) (run_id attempt_id machine_id space_id : ℕ)
    (d : Db) (c : Claim) (d' : Db) : Type 0 where
  pub work : Work
  pub in_table : Memᴰ work d.works
  pub free : startable locks space_id d work ≡ true
  pub oldest :
      All (λ v. created_before v work ≡ false) (select (startable locks space_id d) d.works)
  pub granted : c ≡ record {
    run_id = run_id;
    attempt_id = attempt_id;
    work_id = work.work_id;
    fence = 1;
    lease_expires_at = clock.leased + lease_interval;
    goal = work.goal;
    current_understanding = text_value work.understanding;
    current_next_step = text_value work.next_step;
    base_understanding_version = work.understanding_version;
    input_end_seq =
        select_run_input_end (work.applied_input_seq + 1) work.work_id work.input_head_seq d;
    messages = list_run_input_messages work.work_id (work.applied_input_seq + 1) c.input_end_seq d;
  }
  pub after : d' ≡ record d {
    runs =
        new_run clock.began run_id work.work_id
          (work.applied_input_seq + 1)
          c.input_end_seq
          work.understanding_version
        ∷ d.runs;
    attempts = new_attempt clock.leased attempt_id run_id machine_id 1 ∷ d.attempts;
  }

pub lock_work_for_run_claim-least :
    (locks : Locks) (space_id : ℕ) (d : Db) {w : Work}
    → lock_work_for_run_claim locks.work space_id d ≡ some w
    → (Memᴰ w d.works)
      × (startable locks space_id d w ≡ true)
      × All (λ v. created_before v w ≡ false) (select (startable locks space_id d) d.works)
unfolding lock_work_for_run_claim
lock_work_for_run_claim-least locks space_id d h =
    let (m, e) =
      select-mem (startable locks space_id d) d.works (first_by-mem created_before _ h) in
    (m, e, first_by-least created_before created_before_asym created_before_trans _ h)

list_run_input_messages-runs :
    (work_id low high : ℕ) (d : Db) (rs : List Run) (xs : List Attempt)
    → list_run_input_messages work_id low high (record d { runs = rs; attempts = xs })
      ≡ list_run_input_messages work_id low high d
unfolding list_run_input_messages
list_run_input_messages-runs work_id low high d rs xs = refl

pub start_run-Started :
    (clock : Clock) (locks : Locks) (run_id attempt_id machine_id space_id : ℕ) (d d1 : Db)
    (x : Draft) (w : Work) {c : Claim} {d' : Db}
    → lock_work_for_run_claim locks.work space_id d ≡ some w
    → start_run clock.began run_id w d ≡ ok (x, d1)
    → grant_attempt clock.leased attempt_id machine_id x d1 ≡ ok (c, d')
    → Started clock locks run_id attempt_id machine_id space_id d c d'
unfolding start_run create_run grant_attempt create_run_attempt list_run_input_messages
start_run-Started clock locks run_id attempt_id machine_id space_id d d1 x w hw hs hg =
    let (m, e, least) = lock_work_for_run_claim-least locks space_id d hw in
    record {
      work = w;
      in_table = m;
      free = e;
      oldest = least;
      granted = ground arith;
      after = ground arith;
    }
