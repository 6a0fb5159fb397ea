-- ===== src/Connection/Steps.antt =====
-- PollMachineConnection of internal/postgres/machine.go keeps the tables in order, and so does every
-- history of its transactions.
use carry.Connection.Revoking.{
  other-Sound, revoke_machine_from_browser-Sound, revoke_machine_from_host-Sound,
}
use carry.Prelude.{
  ℕ, List, some, ◌≡◌, inl, inr, refl, ap, subst, sym, ◌∙◌, arith, find, find-update, find_sound,
  Bool-cases, Option-cases, leb, ltb, ==-true, ==_refl,
}
use carry.Result.{Result, ok, err}
use carry.Text.{Text, text_eq}
use carry.Store.Tables.{is_null}
use carry.Connection.Tables.{Network, Session, Member, AgentRow, Request, Enrolled, request_with}
use carry.Connection.Requests.{lock_request, change_request, polled, slowed}
use carry.Connection.Poll.{
  IssuedCertificate, ConnectedMachine, next_poll_at, redeem, settle, poll_open, is_denied,
  poll_locked, poll_machine_connection,
}
use carry.Connection.Polling.{noted-Sound, polled-Later, slowed-Later, redeem-Sound}
use carry.Connection.Revoke.{
  RevokeMachineCommand, SelfRevokeMachineCommand, revoke_machine_from_browser,
  revoke_machine_from_host,
}
use carry.Connection.Begin.{
  BeginConnectionCommand, begin_machine_connection, LookupConnectionCommand,
  lookup_machine_connection, DecideConnectionCommand, decide_machine_connection,
  cancel_machine_connection,
}
use carry.Connection.Deciding.{decide_machine_connection-Sound, cancel_machine_connection-Sound}
use carry.Connection.Beginning.{begin_machine_connection-Sound, lookup_machine_connection-Sound}
use carry.Connection.Honest.{Honest, Sound, Sound-refl, Sound-trans}

module _ (issuer : ℕ → Text → ℕ → Result IssuedCertificate) where
  settle-Sound :
      (n n1 : Network) (r : Result (ConnectedMachine × Network)) {o : Result ConnectedMachine}
      {e : Network}
      → settle issuer n r ≡ (o, e)
      → ((x : ConnectedMachine) (f : Network) → r ≡ ok (x, f) → Sound n f)
      → Honest n
      → Sound n e
  settle-Sound n n1 (err x) h good v = subst (Sound n) (ground arith) (Sound-refl n v)
  settle-Sound n n1 (ok (x, f)) h good v = subst (Sound n) (ground arith) (good x f refl)

  -- The request that a poll notes, as it is after.
  pub noted_request :
      (now : ℕ) (r : Request) (n : Network)
      → find (request_with r.request_id) n.requests ≡ some r
      → find (request_with r.request_id) (change_request r.request_id (polled now) n).requests
        ≡ some (polled now r)
  noted_request now r n h =
      find-update (request_with r.request_id) (request_with r.request_id) (polled now) (λ x. refl)
        n.requests h
      ∙ ap some (rw (==_refl r.request_id) refl)

  poll_open-Sound :
      (now : ℕ) (r : Request) (n : Network) {o : Result ConnectedMachine} {e : Network}
      → poll_open issuer now r n ≡ (o, e)
      → find (request_with r.request_id) n.requests ≡ some r
      → Honest n
      → Sound n e
  unfolding poll_open
  poll_open-Sound now r n {o} {e} h found v =
      let noted = change_request r.request_id (polled now) n in
      let note = noted-Sound n r.request_id (polled now) v (polled-Later now) (λ x. refl) in
      let slow = noted-Sound n r.request_id (slowed now) v (slowed-Later now) (λ x. refl) in
      elim (Bool-cases (ltb now (next_poll_at r))) [
        | inl b ↦ subst (Sound n) (ground arith) slow
        | inr b ↦ elim (Option-cases r.decision) [
          | inl k ↦ subst (Sound n) (ground arith) note
          | inr (d, k) ↦
              let made : settle issuer n (redeem issuer now (polled now r) noted) ≡ (o, e) =
                ground arith in
              settle-Sound n noted (redeem issuer now (polled now r) noted) made
                (λ x f good. Sound-trans note (
                  redeem-Sound issuer now (polled now r) noted good (noted_request now r n found)
                    note.0))
                v
        ]
      ]

  poll_locked-Sound :
      (now : ℕ) (r : Request) (n : Network) {o : Result ConnectedMachine} {e : Network}
      → poll_locked issuer now r n ≡ (o, e)
      → find (request_with r.request_id) n.requests ≡ some r
      → Honest n
      → Sound n e
  unfolding poll_locked
  poll_locked-Sound now r n {o} {e} h found v =
      let stay = Sound-refl n v in
      elim (Bool-cases (is_null r.redeemed_at)) [
        | inr a ↦ subst (Sound n) (ground arith) stay
        | inl a ↦ elim (Bool-cases (is_denied issuer r.decision)) [
          | inl b ↦ subst (Sound n) (ground arith) stay
          | inr b ↦ elim (Bool-cases (is_null r.cancelled_at)) [
            | inr c ↦ subst (Sound n) (ground arith) stay
            | inl c ↦ elim (Bool-cases (leb r.expires_at now)) [
              | inl d ↦ subst (Sound n) (ground arith) stay
              | inr d ↦ poll_open-Sound now r n {o = o} (ground arith) found v
            ]
          ]
        ]
      ]

  pub poll_machine_connection-Sound :
      (now id : ℕ) (poll_digest : Text) (n : Network) {o : Result ConnectedMachine} {e : Network}
      → poll_machine_connection issuer now id poll_digest n ≡ (o, e)
      → Honest n
      → Sound n e
  unfolding poll_machine_connection lock_request
  poll_machine_connection-Sound now id poll_digest n {o} {e} h v =
      elim (Option-cases (find (request_with id) n.requests)) [
        | inl k ↦ subst (Sound n) (ground arith) (Sound-refl n v)
        | inr (r, k) ↦ elim (Bool-cases (text_eq r.poll_secret_digest poll_digest)) [
          | inr b ↦ subst (Sound n) (ground arith) (Sound-refl n v)
          | inl b ↦
              let key : r.request_id ≡ id =
                ==-true r.request_id id (find_sound (request_with id) n.requests k) in
              poll_locked-Sound now r n {o = o} (ground arith)
                (subst (λ i. find (request_with i) n.requests ≡ some r) (sym key) k) v
        ]
      ]

-- The transactions that succeed, those whose error is committed, and those of other components, which
-- change no request and no machine.
module _ (issuer : ℕ → Text → ℕ → Result IssuedCertificate) where
  pub data Step (n e : Network) : Type 0 where
    begins :
        (now : ℕ) (c : BeginConnectionCommand) (r : Request)
        → begin_machine_connection now c n ≡ ok (r, e)
        → Step n e
    looks_up :
        (now failure_id : ℕ) (c : LookupConnectionCommand) (o : Result Request)
        → lookup_machine_connection now failure_id c n ≡ (o, e)
        → Step n e
    decides :
        (now : ℕ) (c : DecideConnectionCommand) (r : Request)
        → decide_machine_connection now c n ≡ ok (r, e)
        → Step n e
    polls :
        (now id : ℕ) (poll_digest : Text) (o : Result ConnectedMachine)
        → poll_machine_connection issuer now id poll_digest n ≡ (o, e)
        → Step n e
    cancels :
        (now id : ℕ) (poll_digest : Text)
        → cancel_machine_connection now id poll_digest n ≡ ok e
        → Step n e
    browser_revokes :
        (now : ℕ) (c : RevokeMachineCommand) (m : Enrolled)
        → revoke_machine_from_browser now c n ≡ ok (m, e)
        → Step n e
    host_revokes :
        (now : ℕ) (c : SelfRevokeMachineCommand) (m : Enrolled)
        → revoke_machine_from_host now c n ≡ ok (m, e)
        → Step n e
    elsewhere :
        (agents : List AgentRow) (sessions : List Session) (spaces : List ℕ) (members : List Member)
        → e ≡ record n { agents = agents; sessions = sessions; spaces = spaces; members = members }
        → Step n e

  -- A history from one state of the tables to another.
  pub data Reach (n : Network) : Network → Type 0 where
    here : Reach n n
    next : {e f : Network} → Reach n e → Step e f → Reach n f

  pub Step-Sound : {n e : Network} → Step n e → Honest n → Sound n e
  Step-Sound (begins now c r h) v = begin_machine_connection-Sound now c _ h v
  Step-Sound (looks_up now failure_id c o h) v =
      lookup_machine_connection-Sound now failure_id c _ h v
  Step-Sound (decides now c r h) v = decide_machine_connection-Sound now c _ h v
  Step-Sound (polls now id poll_digest o h) v =
      poll_machine_connection-Sound issuer now id poll_digest _ h v
  Step-Sound (cancels now id poll_digest h) v =
      cancel_machine_connection-Sound now id poll_digest _ h v
  Step-Sound (browser_revokes now c m h) v = revoke_machine_from_browser-Sound now c _ h v
  Step-Sound (host_revokes now c m h) v = revoke_machine_from_host-Sound now c _ h v
  Step-Sound (elsewhere agents sessions spaces members e) v =
      subst (Sound _) (sym e) (other-Sound _ agents sessions spaces members v)

  pub Reach-Sound : {n e : Network} → Reach n e → Honest n → Sound n e
  Reach-Sound {n} here v = Sound-refl n v
  Reach-Sound (next p s) v = let a = Reach-Sound p v in Sound-trans a (Step-Sound s a.0)
