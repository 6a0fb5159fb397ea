-- ===== src/Connection/Later.antt =====
-- What the transactions of internal/postgres/machine.go keep of a connection request and of a machine.
use carry.Prelude.{ℕ, ◌≤◌, false, none, some, ◌≡◌, refl, subst, sym, ◌∙◌, arith}
use carry.Store.Tables.{is_null}
use carry.Connection.Tables.{Request, Enrolled, approved}
use carry.Connection.Requests.{undecided, slower}

-- A request, before and after: its identity stays, and so do a decision, a cancellation and a
-- redemption, once they are made.
pub record Later (r s : Request) : Type 0 where
  pub id : s.request_id ≡ r.request_id
  pub secret : s.poll_secret_digest ≡ r.poll_secret_digest
  pub key : s.public_key_der ≡ r.public_key_der
  pub name : s.display_name ≡ r.display_name
  pub decision : undecided r.decision ≡ false → s.decision ≡ r.decision
  pub by : undecided r.decision ≡ false → s.decided_by_user_id ≡ r.decided_by_user_id
  pub space : undecided r.decision ≡ false → s.decided_space_id ≡ r.decided_space_id
  pub prepared : undecided r.decision ≡ false → s.prepared_machine_id ≡ r.prepared_machine_id
  pub cancelled : is_null r.cancelled_at ≡ false → s.cancelled_at ≡ r.cancelled_at
  pub redeemed : is_null r.redeemed_at ≡ false → s.redeemed_at ≡ r.redeemed_at
  pub resulting : is_null r.redeemed_at ≡ false → s.resulting_machine_id ≡ r.resulting_machine_id
  pub replay : is_null r.redeemed_at ≡ false → s.replay_until ≡ r.replay_until

pub Later-refl : (r : Request) → Later r r
Later-refl r = record {
  id = refl;
  secret = refl;
  key = refl;
  name = refl;
  decision = λ h. refl;
  by = λ h. refl;
  space = λ h. refl;
  prepared = λ h. refl;
  cancelled = λ h. refl;
  redeemed = λ h. refl;
  resulting = λ h. refl;
  replay = λ h. refl;
}

pub Later-trans : {r s t : Request} → Later r s → Later s t → Later r t
Later-trans {r} {s} {t} u v =
    let still = λ (h : undecided r.decision ≡ false).
      subst (λ o. undecided o ≡ false) (sym (u.decision h)) h in
    let done = λ (h : is_null r.redeemed_at ≡ false).
      subst (λ o. is_null o ≡ false) (sym (u.redeemed h)) h in
    record {
      id = v.id ∙ u.id;
      secret = v.secret ∙ u.secret;
      key = v.key ∙ u.key;
      name = v.name ∙ u.name;
      decision = λ h. v.decision (still h) ∙ u.decision h;
      by = λ h. v.by (still h) ∙ u.by h;
      space = λ h. v.space (still h) ∙ u.space h;
      prepared = λ h. v.prepared (still h) ∙ u.prepared h;
      cancelled =
          λ h. v.cancelled (subst (λ o. is_null o ≡ false) (sym (u.cancelled h)) h) ∙ u.cancelled h;
      redeemed = λ h. v.redeemed (done h) ∙ u.redeemed h;
      resulting = λ h. v.resulting (done h) ∙ u.resulting h;
      replay = λ h. v.replay (done h) ∙ u.replay h;
    }

-- A request in order: the interval of its polls has bounds, one that was cancelled is not decided, and
-- one that was redeemed was approved and gave the machine that was prepared.
pub record Fair (r : Request) : Type 0 where
  pub slow : 5 ≤ r.poll_interval_seconds
  pub quick : r.poll_interval_seconds ≤ 30
  pub quiet : is_null r.cancelled_at ≡ false → r.decision ≡ none
  pub earned : is_null r.redeemed_at ≡ false → r.decision ≡ some approved
  pub given : is_null r.redeemed_at ≡ false → r.resulting_machine_id ≡ r.prepared_machine_id

pub slower_bounds : (s : ℕ) → 5 ≤ s → (5 ≤ slower s) × (slower s ≤ 30)
slower_bounds s h = (ground arith, ground arith)

-- A machine, before and after: what it was enrolled with stays, and so does a revocation.
pub record Kept (m x : Enrolled) : Type 0 where
  pub id : x.machine_id ≡ m.machine_id
  pub space : x.space_id ≡ m.space_id
  pub name : x.display_name ≡ m.display_name
  pub key : x.public_key_der ≡ m.public_key_der
  pub certificate : x.certificate_pem ≡ m.certificate_pem
  pub by : x.enrolled_by_user_id ≡ m.enrolled_by_user_id
  pub gone : is_null m.revoked_at ≡ false → x ≡ m

pub Kept-refl : (m : Enrolled) → Kept m m
Kept-refl m = record {
  id = refl;
  space = refl;
  name = refl;
  key = refl;
  certificate = refl;
  by = refl;
  gone = λ h. refl;
}

pub Kept-trans : {m x y : Enrolled} → Kept m x → Kept x y → Kept m y
Kept-trans {m} {x} {y} u v = record {
  id = v.id ∙ u.id;
  space = v.space ∙ u.space;
  name = v.name ∙ u.name;
  key = v.key ∙ u.key;
  certificate = v.certificate ∙ u.certificate;
  by = v.by ∙ u.by;
  gone = λ h.
      let same = u.gone h in
      v.gone (subst (λ (z : Enrolled). is_null z.revoked_at ≡ false) (sym same) h) ∙ same;
}
