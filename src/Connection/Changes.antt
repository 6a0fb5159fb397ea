-- ===== src/Connection/Changes.antt =====
-- The changes of the tables that internal/postgres/machine.go makes keep them in order.
use carry.Prelude.{
  ℕ, ◌≤◌, Bool, true, false, ◌∷◌, some, ◌≡◌, inl, inr, refl, ap, subst, sym, ◌∙◌, arith, ◌==◌, find,
  update, count, any, amend, find-update, find-any, find-mem, Bool-cases, count-any,
  count-update-le, mem-cases, mem-update, Memᴰ,
}
use carry.Connection.Tables.{Network, Request, Enrolled, request_with, enrolled_with}
use carry.Connection.Later.{Later, Later-refl, Fair, Kept, Kept-refl}
use carry.Connection.Honest.{Made, Honest, Sound, Made-Later, Made-Kept}

module _ (n : Network) (v : Honest n) where
  -- The requests change, each by a step.
  module _ (q : Request → Bool) (f : Request → Request)
      (id_same : (r : Request) → (f r).request_id ≡ r.request_id)
      (step : (r : Request) → Memᴰ r n.requests → q r ≡ true → Later r (f r) × Fair (f r)) where
    requests_stay : (id : ℕ) → count (request_with id) (update q f n.requests) ≤ 1
    requests_stay id = omega (
      arith,
      v.requests_once id,
      count-update-le (request_with id) q f (λ r e h. ap (λ i. i == id) (sym (id_same r)) ∙ h)
          n.requests,
    )

    Fair-stay : (r : Request) → Memᴰ r (update q f n.requests) → Fair r
    Fair-stay r m =
        let (s, l, e) = mem-update q f n.requests m in
        subst Fair (sym e) (elim (Bool-cases (q s)) [
          | inl h ↦ subst Fair (rw h refl) (step s l h).1
          | inr h ↦ subst Fair (rw h refl) (v.fair s l)
        ])

    pub request_grows :
        (id : ℕ) (r : Request)
        → find (request_with id) n.requests ≡ some r
        → (s : Request) × (find (request_with id) (update q f n.requests) ≡ some s) × Later r s
    request_grows id r h =
        let moved =
          find-update (request_with id) q f (λ x. ap (λ i. i == id) (id_same x)) n.requests h in
        (
          amend q f r,
          moved,
          elim (Bool-cases (q r)) [
            | inl e ↦
                subst (Later r) (rw e refl) (step r (find-mem (request_with id) n.requests h) e).0
            | inr e ↦ subst (Later r) (rw e refl) (Later-refl r)
          ],
        )

    pub change_requests : Sound n (record n { requests = update q f n.requests })
    change_requests = (
      record {
        requests_once = requests_stay;
        machines_once = v.machines_once;
        fair = Fair-stay;
        made = λ m l. Made-Later q f n.requests m (λ r k e. (step r k e).0) (v.made m l);
      },
      record { request_kept = request_grows; machine_kept = λ id m h. (m, h, Kept-refl m) },
    )

    -- A machine is made from one of the changed requests.
    pub add_machine :
        (m : Enrolled)
        → any (enrolled_with m.machine_id) n.machines ≡ false
        → Made (update q f n.requests) m
        → Sound n (record n { requests = update q f n.requests; machines = m ∷ n.machines })
    add_machine m fresh is_made = (
      record {
        requests_once = requests_stay;
        machines_once = λ id. ground (
          arith,
          v.machines_once id,
          ap (λ i. count (enrolled_with i) n.machines) {x = m.machine_id} {y = id},
          count-any (enrolled_with m.machine_id) n.machines fresh,
        );
        fair = Fair-stay;
        made = λ x l. elim (mem-cases l) [
          | inl e ↦ subst (Made (update q f n.requests)) (sym e) is_made
          | inr k ↦ Made-Later q f n.requests x (λ r l e. (step r l e).0) (v.made x k)
        ];
      },
      record {
        request_kept = request_grows;
        machine_kept = λ id x h.
            let there = find-any (enrolled_with id) n.machines h in
            let move = ap (λ i. any (enrolled_with i) n.machines) {x = m.machine_id} {y = id} in
            (x, ground arith, Kept-refl x);
      },
    )

  pub add_request :
      (r : Request)
      → any (request_with r.request_id) n.requests ≡ false
      → Fair r
      → Sound n (record n { requests = r ∷ n.requests })
  add_request r fresh fair_new = (
    record {
      requests_once = λ id. ground (
        arith,
        v.requests_once id,
        ap (λ i. count (request_with i) n.requests) {x = r.request_id} {y = id},
        count-any (request_with r.request_id) n.requests fresh,
      );
      machines_once = v.machines_once;
      fair = λ s l. elim (mem-cases l) [ inl e ↦ subst Fair (sym e) fair_new | inr k ↦ v.fair s k ];
      made = λ m l.
          let a = v.made m l in
          record {
            request = a.request;
            present = Memᴰ.tail a.present;
            agreed = a.agreed;
            redeemed = a.redeemed;
            gives = a.gives;
            space = a.space;
            by = a.by;
            key = a.key;
            name = a.name;
          };
    },
    record {
      request_kept = λ id s h.
          let there = find-any (request_with id) n.requests h in
          let move = ap (λ i. any (request_with i) n.requests) {x = r.request_id} {y = id} in
          (s, ground arith, Later-refl s);
      machine_kept = λ id m h. (m, h, Kept-refl m);
    },
  )

  -- The machines change, each as it may.
  pub change_machines :
      (q : Enrolled → Bool) (f : Enrolled → Enrolled)
      → ((m : Enrolled) → (f m).machine_id ≡ m.machine_id)
      → ((m : Enrolled) → q m ≡ true → Kept m (f m))
      → Sound n (record n { machines = update q f n.machines })
  change_machines q f id_same step = (
    record {
      requests_once = v.requests_once;
      machines_once = λ id. omega (
        arith,
        v.machines_once id,
        count-update-le (enrolled_with id) q f (λ r e h. ap (λ i. i == id) (sym (id_same r)) ∙ h)
            n.machines,
      );
      fair = v.fair;
      made = λ m l.
          let (s, k, e) = mem-update q f n.machines l in
          subst (Made n.requests) (sym e) (elim (Bool-cases (q s)) [
            | inl h ↦
                subst (Made n.requests) (rw h refl)
                  (Made-Kept n.requests s (f s) (step s h) (v.made s k))
            | inr h ↦ subst (Made n.requests) (rw h refl) (v.made s k)
          ]);
    },
    record {
      request_kept = λ id r h. (r, h, Later-refl r);
      machine_kept = λ id m h.
          let moved =
            find-update (enrolled_with id) q f (λ x. ap (λ i. i == id) (id_same x)) n.machines h in
          (
            amend q f m,
            moved,
            elim (Bool-cases (q m)) [
              | inl e ↦ subst (Kept m) (rw e refl) (step m e)
              | inr e ↦ subst (Kept m) (rw e refl) (Kept-refl m)
            ],
          );
    },
  )
