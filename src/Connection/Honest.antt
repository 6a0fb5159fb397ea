-- ===== src/Connection/Honest.antt =====
-- The tables of internal/postgres/machine.go in order, and what grows with them.
use carry.Prelude.{
  ℕ, ◌≤◌, Bool, true, false, List, some, ◌≡◌, inl, inr, refl, ap, subst, sym, ◌∙◌, arith, find,
  update, count, amend, Bool-cases, update-mem, Memᴰ,
}
use carry.Store.Tables.{is_null}
use carry.Connection.Tables.{Network, Request, Enrolled, approved, request_with, enrolled_with}
use carry.Connection.Requests.{undecided}
use carry.Connection.Later.{Later, Later-refl, Later-trans, Fair, Kept, Kept-refl, Kept-trans}

-- A machine was made from a request that somebody approved: for the space, by the user, and with the
-- key and the name of the request.
pub record Made (rs : List Request) (m : Enrolled) : Type 0 where
  pub request : Request
  pub present : Memᴰ request rs
  pub agreed : request.decision ≡ some approved
  pub redeemed : is_null request.redeemed_at ≡ false
  pub gives : request.resulting_machine_id ≡ some m.machine_id
  pub space : request.decided_space_id ≡ some m.space_id
  pub by : request.decided_by_user_id ≡ some m.enrolled_by_user_id
  pub key : request.public_key_der ≡ m.public_key_der
  pub name : request.display_name ≡ m.display_name

pub record Honest (n : Network) : Type 0 where
  pub requests_once : (id : ℕ) → count (request_with id) n.requests ≤ 1
  pub machines_once : (id : ℕ) → count (enrolled_with id) n.machines ≤ 1
  pub fair : (r : Request) → Memᴰ r n.requests → Fair r
  pub made : (m : Enrolled) → Memᴰ m n.machines → Made n.requests m

pub record Grows (n e : Network) : Type 0 where
  pub request_kept :
      (id : ℕ) (r : Request)
      → find (request_with id) n.requests ≡ some r
      → (s : Request) × (find (request_with id) e.requests ≡ some s) × Later r s
  pub machine_kept :
      (id : ℕ) (m : Enrolled)
      → find (enrolled_with id) n.machines ≡ some m
      → (x : Enrolled) × (find (enrolled_with id) e.machines ≡ some x) × Kept m x

pub Grows-refl : (n : Network) → Grows n n
Grows-refl n = record {
  request_kept = λ id r h. (r, h, Later-refl r);
  machine_kept = λ id m h. (m, h, Kept-refl m);
}

pub Grows-trans : {n e f : Network} → Grows n e → Grows e f → Grows n f
Grows-trans u v = record {
  request_kept = λ id r h.
      let (s, hs, a) = u.request_kept id r h in
      let (t, ht, b) = v.request_kept id s hs in (t, ht, Later-trans a b);
  machine_kept = λ id m h.
      let (x, hx, a) = u.machine_kept id m h in
      let (y, hy, b) = v.machine_kept id x hx in (y, hy, Kept-trans a b);
}

-- Honest tables that have only grown.
abbrev pub Sound : Network → Network → Type 0
Sound n e = Honest e × Grows n e

pub Sound-refl : (n : Network) → Honest n → Sound n n
Sound-refl n v = (v, Grows-refl n)

pub Sound-trans : {n e f : Network} → Sound n e → Sound e f → Sound n f
Sound-trans (v, a) (w, b) = (w, Grows-trans a b)

pub Made-Later :
    (q : Request → Bool) (f : Request → Request) (rs : List Request) (m : Enrolled)
    → ((r : Request) → Memᴰ r rs → q r ≡ true → Later r (f r))
    → Made rs m
    → Made (update q f rs) m
Made-Later q f rs m step a =
    let r = a.request in
    let agreed = a.agreed in
    let over : undecided r.decision ≡ false = ground arith in
    let l : Later r (amend q f r) = elim (Bool-cases (q r)) [
      | inl e ↦ subst (Later r) (rw e refl) (step r a.present e)
      | inr e ↦ subst (Later r) (rw e refl) (Later-refl r)
    ] in
    record {
      request = amend q f r;
      present = update-mem q f rs a.present;
      agreed = l.decision over ∙ a.agreed;
      redeemed = subst (λ o. is_null o ≡ false) (sym (l.redeemed a.redeemed)) a.redeemed;
      gives = l.resulting a.redeemed ∙ a.gives;
      space = l.space over ∙ a.space;
      by = l.by over ∙ a.by;
      key = l.key ∙ a.key;
      name = l.name ∙ a.name;
    }

pub Made-Kept : (rs : List Request) (m x : Enrolled) → Kept m x → Made rs m → Made rs x
Made-Kept rs m x k a = record {
  request = a.request;
  present = a.present;
  agreed = a.agreed;
  redeemed = a.redeemed;
  gives = a.gives ∙ ap some (sym k.id);
  space = a.space ∙ ap some (sym k.space);
  by = a.by ∙ ap some (sym k.by);
  key = a.key ∙ sym k.key;
  name = a.name ∙ sym k.name;
}
