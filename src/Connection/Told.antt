-- ===== src/Connection/Told.antt =====
-- What a poll that succeeded told, as PollMachineConnection of internal/postgres/machine.go tells it.
use carry.Prelude.{
  ℕ, true, false, not, Option, none, some, ◌≡◌, inl, inr, refl, ap, subst, sym, ◌∙◌, arith, find,
  update, find-update, find_sound, find-mem, mem-same, Bool-cases, Option-cases, ltb, ==-true,
  ==_refl,
}
use carry.Result.{
  Result, ok, err, or_fail, fail_if, >>=-eq-ok, or_fail-some, fail_if-passed, machine_unavailable,
  connection_replay_expired,
}
use carry.Text.{Text, text_eq}
use carry.Conversation.Claims.{runs_on}
use carry.Store.Tables.{is_null}
use carry.Connection.Tables.{Network, Request, Enrolled, request_with, enrolled_with}
use carry.Connection.Requests.{lock_request, change_request, polled, redeemable, redeemed}
use carry.Connection.Machines.{new_machine}
use carry.Connection.Poll.{
  IssuedCertificate, ConnectedMachine, connected_machine, poll_again, next_poll_at, redeem, settle,
  poll_open, poll_locked, poll_machine_connection,
}
use carry.Connection.Polling.{noted-Sound, polled-Later, redeem-Redeemed}
use carry.Connection.Machines.{load_machine}
use carry.Connection.Steps.{noted_request}
use carry.Connection.Honest.{Honest, Grows}

-- What a poll that succeeded leaves: the request was redeemed, and its machine is in the table.
pub record Told (id : ℕ) (poll_digest : Text) (x : ConnectedMachine) (n : Network) : Type 0 where
  pub request : Request
  pub found : find (request_with id) n.requests ≡ some request
  pub secret : text_eq request.poll_secret_digest poll_digest ≡ true
  pub redeemed_once : is_null request.redeemed_at ≡ false
  pub machine : Enrolled
  pub resulting : request.resulting_machine_id ≡ some machine.machine_id
  pub enrolled : find (enrolled_with machine.machine_id) n.machines ≡ some machine
  pub told : x ≡ connected_machine request machine

is_null-none : (o : Option ℕ) → is_null o ≡ true → o ≡ none
is_null-none none h = refl
is_null-none (some n) h = cc

connected_same :
    (r s : Request) (m y : Enrolled)
    → r.redeemed_at ≡ s.redeemed_at
    → r.replay_until ≡ s.replay_until
    → m.machine_id ≡ y.machine_id
    → m.space_id ≡ y.space_id
    → m.display_name ≡ y.display_name
    → m.certificate_pem ≡ y.certificate_pem
    → connected_machine r m ≡ connected_machine s y
connected_same r s m y a b c d e f = ground arith

-- The machine is not revoked either, right after the poll.
abbrev pub ToldNow : ℕ → Text → ConnectedMachine → Network → Type 0
ToldNow id poll_digest x n = (a : Told id poll_digest x n) × (a.machine.revoked_at ≡ none)

-- It stays so.
pub Told-Grows :
    (id : ℕ) (poll_digest : Text) (x : ConnectedMachine) {n e : Network}
    → Grows n e
    → Told id poll_digest x n
    → Told id poll_digest x e
Told-Grows id poll_digest x {n} {e} g a =
    let (s, hs, l) = g.request_kept id a.request a.found in
    let (y, hy, k) = g.machine_kept a.machine.machine_id a.machine a.enrolled in
    let done = l.redeemed a.redeemed_once in
    let until = l.replay a.redeemed_once in
    let same : connected_machine a.request a.machine ≡ connected_machine s y =
      connected_same a.request s a.machine y (sym done) (sym until) (sym k.id) (sym k.space)
        (sym k.name) (sym k.certificate) in
    record {
      request = s;
      found = hs;
      secret = subst (λ t. text_eq t poll_digest ≡ true) (sym l.secret) a.secret;
      redeemed_once = subst (λ o. is_null o ≡ false) (sym done) a.redeemed_once;
      machine = y;
      resulting = l.resulting a.redeemed_once ∙ (a.resulting ∙ ap some (sym k.id));
      enrolled = subst (λ i. find (enrolled_with i) e.machines ≡ some y) (sym k.id) hy;
      told = a.told ∙ same;
    }

module _ (issuer : ℕ → Text → ℕ → Result IssuedCertificate) where
  redeem-Told :
      (now id : ℕ) (poll_digest : Text) (r : Request) (n : Network) {x : ConnectedMachine}
      {e : Network}
      → redeem issuer now r n ≡ ok (x, e)
      → r.request_id ≡ id
      → find (request_with r.request_id) n.requests ≡ some r
      → text_eq r.poll_secret_digest poll_digest ≡ true
      → Honest n
      → ToldNow id poll_digest x e
  redeem-Told now id poll_digest r n {x} {e} h is_id here secret v =
      let a = redeem-Redeemed issuer now r n h in
      let q = redeemable r.request_id in
      let f = redeemed now a.machine_id in
      let m =
        new_machine now a.machine_id a.space_id r.display_name r.public_key_der
          a.issued.certificate_pem a.issued.serial a.user_id in
      let hit = find_sound q n.requests a.found in
      let same : a.was ≡ r =
        mem-same (request_with r.request_id) n.requests (v.requests_once r.request_id)
          (find-mem q n.requests a.found) (find-mem (request_with r.request_id) n.requests here)
          (ground arith) (find_sound (request_with r.request_id) n.requests here) in
      let ready : q r ≡ true = subst (λ (s : Request). q s ≡ true) same hit in
      subst (ToldNow id poll_digest x) (sym a.after) (
        record {
          request = f r;
          found =
              subst (λ i. find (request_with i) (update q f n.requests) ≡ some (f r)) is_id
                (find-update (request_with r.request_id) q f (λ z. refl) n.requests here
                  ∙ ap some (rw ready refl));
          secret = secret;
          redeemed_once = refl;
          machine = m;
          resulting = refl;
          enrolled = rw (==_refl a.machine_id) refl;
          told = subst (λ z. x ≡ connected_machine (f z) m) same a.told;
        },
        refl,
      )

  settle_ok :
      (n : Network) (r : Result (ConnectedMachine × Network)) {x : ConnectedMachine} {e : Network}
      → settle issuer n r ≡ (ok x, e)
      → r ≡ ok (x, e)
  settle_ok n (err y) h = cc
  settle_ok n (ok (y, f)) h = ground arith

  poll_open-Told :
      (now id : ℕ) (poll_digest : Text) (r : Request) (n : Network) {x : ConnectedMachine}
      {e : Network}
      → poll_open issuer now r n ≡ (ok x, e)
      → r.request_id ≡ id
      → find (request_with r.request_id) n.requests ≡ some r
      → text_eq r.poll_secret_digest poll_digest ≡ true
      → Honest n
      → ToldNow id poll_digest x e
  unfolding poll_open
  poll_open-Told now id poll_digest r n {x} {e} h is_id found secret v =
      let noted = change_request r.request_id (polled now) n in
      let note = noted-Sound n r.request_id (polled now) v (polled-Later now) (λ x. refl) in
      elim (Bool-cases (ltb now (next_poll_at r))) [
        | inl b ↦ absurd (ground arith)
        | inr b ↦ elim (Option-cases r.decision) [
          | inl k ↦ absurd (ground arith)
          | inr (d, k) ↦
              redeem-Told now id poll_digest (polled now r) noted
                (settle_ok n (redeem issuer now (polled now r) noted) (ground arith)) is_id
                (noted_request issuer now r n found) secret note.0
        ]
      ]

  poll_again-Told :
      (now id : ℕ) (poll_digest : Text) (r : Request) (n : Network) {x : ConnectedMachine}
      → poll_again now r n ≡ ok x
      → is_null r.redeemed_at ≡ false
      → find (request_with id) n.requests ≡ some r
      → text_eq r.poll_secret_digest poll_digest ≡ true
      → ToldNow id poll_digest x n
  unfolding poll_again load_machine
  poll_again-Told now id poll_digest r n {x} h done found secret =
      let (u, e1, h1) =
        >>=-eq-ok (fail_if (not (runs_on now r.replay_until)) connection_replay_expired) _ h in
      let (machine_id, e2, h2) =
        >>=-eq-ok (or_fail r.resulting_machine_id connection_replay_expired) _ h1 in
      let (m, e3, h3) =
        >>=-eq-ok (or_fail (find (enrolled_with machine_id) n.machines) machine_unavailable) _ h2 in
      let (w, e4, h4) = >>=-eq-ok (fail_if (not (is_null m.revoked_at)) machine_unavailable) _ h3 in
      let hm = or_fail-some (find (enrolled_with machine_id) n.machines) machine_unavailable e3 in
      let key : m.machine_id ≡ machine_id =
        ==-true m.machine_id machine_id (find_sound (enrolled_with machine_id) n.machines hm) in
      (
        record {
          request = r;
          found = found;
          secret = secret;
          redeemed_once = done;
          machine = m;
          resulting =
              or_fail-some r.resulting_machine_id connection_replay_expired e2 ∙ ap some (sym key);
          enrolled = subst (λ i. find (enrolled_with i) n.machines ≡ some m) (sym key) hm;
          told = ground arith;
        },
        is_null-none m.revoked_at
            (ground (arith, fail_if-passed (not (is_null m.revoked_at)) machine_unavailable e4)),
      )

  pub poll_machine_connection-Told :
      (now id : ℕ) (poll_digest : Text) (n : Network) {x : ConnectedMachine} {e : Network}
      → poll_machine_connection issuer now id poll_digest n ≡ (ok x, e)
      → Honest n
      → ToldNow id poll_digest x e
  unfolding poll_machine_connection poll_locked lock_request
  poll_machine_connection-Told now id poll_digest n {x} {e} h v =
      elim (Option-cases (find (request_with id) n.requests)) [
        | inl k ↦ absurd (ground arith)
        | inr (r, k) ↦ elim (Bool-cases (text_eq r.poll_secret_digest poll_digest)) [
          | inr b ↦ absurd (ground arith)
          | inl b ↦ elim (Bool-cases (is_null r.redeemed_at)) [
            | inr a ↦
                let told : poll_again now r n ≡ ok x = ground arith in
                subst (ToldNow id poll_digest x) (ground arith)
                  (poll_again-Told now id poll_digest r n told a k b)
            | inl a ↦
                let key : r.request_id ≡ id =
                  ==-true r.request_id id (find_sound (request_with id) n.requests k) in
                let opened : poll_open issuer now r n ≡ (ok x, e) = ground arith in
                poll_open-Told now id poll_digest r n opened key
                  (subst (λ i. find (request_with i) n.requests ≡ some r) (sym key) k) b v
          ]
        ]
      ]
