-- ===== src/Connection/Enrollment.antt =====
-- Where a machine of internal/postgres/machine.go comes from, and what stays of a request and of a
-- revocation.
use carry.Prelude.{
  ℕ, ◌≤◌, true, false, [], some, ◌≡◌, inl, inr, ap, subst, sym, ◌∙◌, arith, find, count, mem-find,
  find_sound, find-mem, Bool-cases, Memᴰ, ==-true, ==_refl,
}
use carry.Result.{Result}
use carry.Text.{Text}
use carry.Store.Tables.{is_null}
use carry.Connection.Tables.{
  Network, Request, Enrolled, Decision, approved, request_with, enrolled_with,
}
use carry.Connection.Requests.{undecided}
use carry.Connection.Poll.{IssuedCertificate}
use carry.Connection.Steps.{Reach, Reach-Sound}
use carry.Connection.Honest.{Honest}

-- Tables without a request and without a machine are in order.
pub empty-Honest : (n : Network) → n.requests ≡ [] → n.machines ≡ [] → Honest n
empty-Honest n no_request no_machine = record {
  requests_once = λ id. subst (λ rs. count (request_with id) rs ≤ 1) (sym no_request) (omega arith);
  machines_once =
      λ id. subst (λ ms. count (enrolled_with id) ms ≤ 1) (sym no_machine) (omega arith);
  fair = λ r m. elim (subst (λ rs. Memᴰ r rs) no_request m) [ ];
  made = λ x m. elim (subst (λ ms. Memᴰ x ms) no_machine m) [ ];
}

module _ (issuer : ℕ → Text → ℕ → Result IssuedCertificate) where
  -- Every machine that a history makes, from tables without requests and machines, comes from a request
  -- that was approved and not cancelled: it is the machine that was prepared with the approval, in the
  -- space and by the user of the approval, with the key and the name of the request.
  pub Reach-made :
      (n : Network) {e : Network}
      → n.requests ≡ []
      → n.machines ≡ []
      → Reach issuer n e
      → (id : ℕ) {m : Enrolled} → find (enrolled_with id) e.machines ≡ some m
      → (r : Request) × (find (request_with r.request_id) e.requests ≡ some r)
        × (r.decision ≡ some approved)
        × (is_null r.cancelled_at ≡ true)
        × (r.prepared_machine_id ≡ some id)
        × (r.decided_space_id ≡ some m.space_id)
        × (r.decided_by_user_id ≡ some m.enrolled_by_user_id)
        × (r.public_key_der ≡ m.public_key_der)
        × (r.display_name ≡ m.display_name)
  Reach-made n {e} no_request no_machine p id {m} h =
      let v = (Reach-Sound issuer p (empty-Honest n no_request no_machine)).0 in
      let a = v.made m (find-mem (enrolled_with id) e.machines h) in
      let r = a.request in
      let f = v.fair r a.present in
      let key : m.machine_id ≡ id =
        ==-true m.machine_id id (find_sound (enrolled_with id) e.machines h) in
      let agreed = a.agreed in
      (
        r,
        mem-find (request_with r.request_id) e.requests (v.requests_once r.request_id)
            (==_refl r.request_id) a.present,
        a.agreed,
        elim (Bool-cases (is_null r.cancelled_at)) [
          | inl c ↦ c
          | inr c ↦ absurd (let none_yet = f.quiet c in ground arith)
        ],
        sym (f.given a.redeemed) ∙ (a.gives ∙ ap some key),
        a.space,
        a.by,
        a.key,
        a.name,
      )

  -- A decision is final: whatever happens later, the request keeps the decision, its space, its user and
  -- the machine that was prepared, and it is not cancelled. The tables are in order before.
  pub Reach-final :
      {n e : Network}
      → Honest n
      → Reach issuer n e
      → (id : ℕ) {r : Request} → find (request_with id) n.requests ≡ some r
      → (d : Decision) → r.decision ≡ some d
      → (s : Request) × (find (request_with id) e.requests ≡ some s)
        × (s.decision ≡ some d)
        × (s.decided_space_id ≡ r.decided_space_id)
        × (s.decided_by_user_id ≡ r.decided_by_user_id)
        × (s.prepared_machine_id ≡ r.prepared_machine_id)
        × (is_null s.cancelled_at ≡ true)
  Reach-final {n} {e} v p id {r} h d k =
      let (w, g) = Reach-Sound issuer p v in
      let (s, hs, l) = g.request_kept id r h in
      let over : undecided r.decision ≡ false = ground arith in
      let still : s.decision ≡ some d = l.decision over ∙ k in
      let f = w.fair s (find-mem (request_with id) e.requests hs) in
      (
        s,
        hs,
        still,
        l.space over,
        l.by over,
        l.prepared over,
        elim (Bool-cases (is_null s.cancelled_at)) [
          | inl c ↦ c
          | inr c ↦ absurd (let none_yet = f.quiet c in ground arith)
        ],
      )
