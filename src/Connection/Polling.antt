-- ===== src/Connection/Polling.antt =====
-- PollMachineConnection of internal/postgres/machine.go keeps the tables in order.
use carry.Connection.Changes.{change_requests, add_machine}
use carry.Prelude.{
  ℕ, true, false, ◌∷◌, Option, none, some, ◌≡◌, inl, inr, refl, subst, sym, arith, find, update,
  any, find_sound, find-mem, update-mem, mem-same, Option-cases, Memᴰ,
}
use carry.Result.{Result, ok, or_fail, >>=-eq-ok, or_fail-some, database}
use carry.Text.{Text}
use carry.Connection.Tables.{
  Network, Request, Enrolled, Decision, approved, denied, request_with, enrolled_with,
}
use carry.Connection.Requests.{
  change_request, polled, slowed, is_approved, redeemable, redeemed, redeem_request,
}
use carry.Connection.Machines.{new_machine, create_connected_machine}
use carry.Connection.Poll.{IssuedCertificate, ConnectedMachine, connected_machine, required, redeem}
use carry.Connection.Later.{Later, Fair, slower_bounds}
use carry.Connection.Honest.{Honest, Sound}

-- A poll changes only the times of the polls.
pub noted-Sound :
    (n : Network) (id : ℕ) (f : Request → Request)
    → Honest n
    → ((r : Request) → Fair r → Later r (f r) × Fair (f r))
    → ((r : Request) → (f r).request_id ≡ r.request_id)
    → Sound n (change_request id f n)
noted-Sound n id f v step same =
    change_requests n v (request_with id) f same (λ r m e. step r (v.fair r m))

pub polled-Later : (now : ℕ) (r : Request) → Fair r → Later r (polled now r) × Fair (polled now r)
polled-Later now r v = (
  record {
    id = refl;
    secret = refl;
    key = refl;
    name = refl;
    decision = λ h. refl;
    by = λ h. refl;
    space = λ h. refl;
    prepared = λ h. refl;
    cancelled = λ h. refl;
    redeemed = λ h. refl;
    resulting = λ h. refl;
    replay = λ h. refl;
  },
  record { slow = v.slow; quick = v.quick; quiet = v.quiet; earned = v.earned; given = v.given },
)

pub slowed-Later : (now : ℕ) (r : Request) → Fair r → Later r (slowed now r) × Fair (slowed now r)
slowed-Later now r v =
    let (low, high) = slower_bounds r.poll_interval_seconds v.slow in
    (
      record {
        id = refl;
        secret = refl;
        key = refl;
        name = refl;
        decision = λ h. refl;
        by = λ h. refl;
        space = λ h. refl;
        prepared = λ h. refl;
        cancelled = λ h. refl;
        redeemed = λ h. refl;
        resulting = λ h. refl;
        replay = λ h. refl;
      },
      record { slow = low; quick = high; quiet = v.quiet; earned = v.earned; given = v.given },
    )

is_approved_inv : (o : Option Decision) → is_approved o ≡ true → o ≡ some approved
is_approved_inv (some approved) h = refl
is_approved_inv (some denied) h = cc
is_approved_inv none h = cc

redeemed-Later :
    (now machine_id id : ℕ) (r : Request)
    → redeemable id r ≡ true
    → r.prepared_machine_id ≡ some machine_id
    → Fair r
    → Later r (redeemed now machine_id r) × Fair (redeemed now machine_id r)
redeemed-Later now machine_id id r e prepared v = (
  record {
    id = refl;
    secret = refl;
    key = refl;
    name = refl;
    decision = λ h. refl;
    by = λ h. refl;
    space = λ h. refl;
    prepared = λ h. refl;
    cancelled = λ h. refl;
    redeemed = λ h. absurd (ground arith);
    resulting = λ h. absurd (ground arith);
    replay = λ h. absurd (ground arith);
  },
  record {
    slow = v.slow;
    quick = v.quick;
    quiet = v.quiet;
    earned = λ h. is_approved_inv r.decision (ground arith);
    given = λ h. sym prepared;
  },
)

-- What a redemption finds and writes.
pub record Redeemed (issuer : ℕ → Text → ℕ → Result IssuedCertificate) (now : ℕ) (r : Request)
    (n : Network) (x : ConnectedMachine) (e : Network) : Type 0 where
  pub machine_id : ℕ
  pub prepared : r.prepared_machine_id ≡ some machine_id
  pub space_id : ℕ
  pub space : r.decided_space_id ≡ some space_id
  pub user_id : ℕ
  pub by : r.decided_by_user_id ≡ some user_id
  pub issued : IssuedCertificate
  pub fresh : any (enrolled_with machine_id) n.machines ≡ false
  pub was : Request
  pub found : find (redeemable r.request_id) n.requests ≡ some was
  pub told :
      x
      ≡ connected_machine (redeemed now machine_id was) (
          new_machine now machine_id space_id r.display_name r.public_key_der issued.certificate_pem
            issued.serial user_id)
  pub after : e ≡ record n {
    requests = update (redeemable r.request_id) (redeemed now machine_id) n.requests;
    machines =
        new_machine now machine_id space_id r.display_name r.public_key_der issued.certificate_pem
          issued.serial user_id
        ∷ n.machines;
  }

create_connected_machine_inv :
    (m : Enrolled) (n : Network) {x : Enrolled} {e : Network}
    → create_connected_machine m n ≡ ok (x, e)
    → (any (enrolled_with m.machine_id) n.machines ≡ false)
      × (x ≡ m)
      × (e ≡ record n { machines = m ∷ n.machines })
unfolding create_connected_machine
create_connected_machine_inv m n h = (ground arith, ground arith, ground arith)

redeem_request_inv :
    (now machine_id id : ℕ) (n : Network) {q : Request} {e : Network}
    → redeem_request now machine_id id n ≡ some (q, e)
    → (r : Request) × (find (redeemable id) n.requests ≡ some r)
      × (q ≡ redeemed now machine_id r)
      × (e ≡ record n { requests = update (redeemable id) (redeemed now machine_id) n.requests })
unfolding redeem_request
redeem_request_inv now machine_id id n h = elim (Option-cases (find (redeemable id) n.requests)) [
  | inl k ↦ absurd (ground arith)
  | inr (r, k) ↦ (r, k, ground arith, ground arith)
]

module _ (issuer : ℕ → Text → ℕ → Result IssuedCertificate) where
  pub redeem-Redeemed :
      (now : ℕ) (r : Request) (n : Network) {x : ConnectedMachine} {e : Network}
      → redeem issuer now r n ≡ ok (x, e)
      → Redeemed issuer now r n x e
  unfolding redeem
  redeem-Redeemed now r n {x} {e} h =
      let (machine_id, e1, h1) = >>=-eq-ok (required r.prepared_machine_id) _ h in
      let (decided_at, e2, h2) = >>=-eq-ok (required r.decided_at) _ h1 in
      let (issued, e3, h3) = >>=-eq-ok (issuer machine_id r.public_key_der decided_at) _ h2 in
      let (space_id, e4, h4) = >>=-eq-ok (required r.decided_space_id) _ h3 in
      let (user_id, e5, h5) = >>=-eq-ok (required r.decided_by_user_id) _ h4 in
      let new =
        new_machine now machine_id space_id r.display_name r.public_key_der issued.certificate_pem
          issued.serial user_id in
      let ((m, n1), e6, h6) = >>=-eq-ok (create_connected_machine new n) _ h5 in
      let (fresh, is_new, n1_is) = create_connected_machine_inv new n e6 in
      let ((q, n2), e7, h7) =
        >>=-eq-ok (or_fail (redeem_request now machine_id r.request_id n1) database) _ h6 in
      let (was, found, is_redeemed, n2_is) =
        redeem_request_inv now machine_id r.request_id n1
          (or_fail-some (redeem_request now machine_id r.request_id n1) database e7) in
      record {
        machine_id = machine_id;
        prepared = or_fail-some r.prepared_machine_id database e1;
        space_id = space_id;
        space = or_fail-some r.decided_space_id database e4;
        user_id = user_id;
        by = or_fail-some r.decided_by_user_id database e5;
        issued = issued;
        fresh = fresh;
        was = was;
        found =
            subst (λ (z : Network). find (redeemable r.request_id) z.requests ≡ some was) n1_is
              found;
        told = ground arith;
        after = ground arith;
      }

  -- The redeemed request is the polled one.
  pub redeem-Sound :
      (now : ℕ) (r : Request) (n : Network) {x : ConnectedMachine} {e : Network}
      → redeem issuer now r n ≡ ok (x, e)
      → find (request_with r.request_id) n.requests ≡ some r
      → Honest n
      → Sound n e
  redeem-Sound now r n {x} {e} h here v =
      let a = redeem-Redeemed now r n h in
      let q = redeemable r.request_id in
      let f = redeemed now a.machine_id in
      let mine : (s : Request) → Memᴰ s n.requests → q s ≡ true → s ≡ r = (λ s m k.
        mem-same (request_with r.request_id) n.requests (v.requests_once r.request_id) m
          (find-mem (request_with r.request_id) n.requests here) (ground arith)
          (find_sound (request_with r.request_id) n.requests here)) in
      let hit = find_sound q n.requests a.found in
      let same = mine a.was (find-mem q n.requests a.found) hit in
      let ready : q r ≡ true = subst (λ (s : Request). q s ≡ true) same hit in
      subst (Sound n) (sym a.after) (
        add_machine n v q f (λ s. refl)
          (λ s m k.
            redeemed-Later now a.machine_id r.request_id s k
              (subst (λ (z : Request). z.prepared_machine_id ≡ some a.machine_id) (sym (mine s m k))
                a.prepared)
              (v.fair s m))
          (new_machine now a.machine_id a.space_id r.display_name r.public_key_der
            a.issued.certificate_pem a.issued.serial a.user_id)
          a.fresh
          (record {
            request = f r;
            present =
                subst (λ z. Memᴰ z (update q f n.requests)) (rw ready refl)
                  (update-mem q f n.requests
                    (find-mem (request_with r.request_id) n.requests here));
            agreed = is_approved_inv r.decision (ground arith);
            redeemed = refl;
            gives = refl;
            space = a.space;
            by = a.by;
            key = refl;
            name = refl;
          }))
