-- ===== src/Execution/Consistent.antt =====
-- When the tables of Work execution are consistent: keys stand once, a Work is held by one run at
-- most, an active run starts where its Work stopped, and no review is ahead of its Work.
use carry.Prelude.{
  ℕ, ◌+◌, ◌≤◌, Bool, true, false, ◌&&◌, List, ◌∷◌, some, ◌≡◌, inl, inr, sym, ap, subst, ◌∙◌, arith,
  ◌==◌, ==-true, &&-true, find, update, count, any, amend, find-update, find-update_back,
  find_sound, any-false, count_two, Bool-cases,
}
use carry.Store.Tables.{
  Db, Work, Run, ResultCheck, run_active, run_with, work_with, attempt_with, holds_work,
}
use carry.Store.Attempts.{active_run}
use carry.Execution.History.{Later, Later-refl}

-- The run covers the inputs that follow what the Work has applied, up to one that exists.
pub record Fits (r : Run) (w : Work) : Type 0 where
  pub starts_next : w.applied_input_seq + 1 ≡ r.input_start_seq
  pub from_current : w.understanding_version ≡ r.base_understanding_version
  pub not_empty : r.input_start_seq ≤ r.input_end_seq
  pub exists : r.input_end_seq ≤ w.input_head_seq

abbrev pub Aligned : List Work → List Run → Type 0
Aligned ws rs =
    (id : ℕ) (r : Run)
    → find (run_with id) rs ≡ some r
    → run_active r.state ≡ true
    → (w : Work) × (find (work_with r.work_id) ws ≡ some w) × Fits r w

abbrev pub check_at : ℕ → ℕ → ResultCheck → Bool
check_at work_id version c = c.work_id == work_id && c.understanding_version == version

abbrev pub Reviewed : List Work → List ResultCheck → Type 0
Reviewed ws cs =
    (id v : ℕ)
    → any (check_at id v) cs ≡ true
    → (w : Work) × (find (work_with id) ws ≡ some w) × (v ≤ w.understanding_version)

pub record Consistent (d : Db) : Type 0 where
  pub runs_once : (id : ℕ) → count (run_with id) d.runs ≤ 1
  pub works_once : (id : ℕ) → count (work_with id) d.works ≤ 1
  pub attempts_once : (id : ℕ) → count (attempt_with id) d.attempts ≤ 1
  pub held_once : (id : ℕ) → count (holds_work id) d.runs ≤ 1
  pub aligned : Aligned d.works d.runs
  pub reviewed : Reviewed d.works d.checks

-- Runs that only grow later stay aligned.
module _ (q : Run → Bool) (f : Run → Run) (keep : (r : Run) → (f r).run_id ≡ r.run_id) where
  pub update-Aligned :
      ((r : Run) → q r ≡ true → Later r (f r))
      → (ws : List Work) (rs : List Run) → Aligned ws rs
      → Aligned ws (update q f rs)
  update-Aligned later ws rs a id s h act =
      let (r, hr, e) =
        find-update_back (run_with id) q f (λ x. ap (λ i. i == id) (keep x)) rs {y = s} h in
      let l = amended r in
      let (w, hw, fit) = a id r hr (still r (subst (λ x. run_active x.state ≡ true) e act)) in
      (
        w,
        subst (λ x. find (work_with x.work_id) ws ≡ some w) (sym e)
            (subst (λ i. find (work_with i) ws ≡ some w) (sym l.same_work) hw),
        subst (λ x. Fits x w) (sym e)
            (record {
              starts_next = fit.starts_next ∙ sym l.same_start;
              from_current = fit.from_current ∙ sym l.same_base;
              not_empty = ground arith;
              exists = ground arith;
            }),
      )
    where
      amended : (r : Run) → Later r (amend q f r)
      amended r = elim (Bool-cases (q r)) [ inl e ↦ rw e (later r e) | inr e ↦ rw e (Later-refl r) ]

      still : (r : Run) → run_active (amend q f r).state ≡ true → run_active r.state ≡ true
      still r h = elim (Bool-cases (run_active r.state)) [
        | inl e ↦ e
        | inr e ↦ ap run_active (sym ((amended r).ended_stays e)) ∙ h
      ]

-- A new run that fits its Work joins the aligned ones.
pub cons-Aligned :
    (s : Run) (ws : List Work) (rs : List Run) (w : Work)
    → find (work_with s.work_id) ws ≡ some w
    → Fits s w
    → Aligned ws rs
    → Aligned ws (s ∷ rs)
cons-Aligned s ws rs w hw fit a id r h act = elim (Bool-cases (s.run_id == id)) [
  | inl e ↦
      let same : s ≡ r = ground arith in
      (
        w,
        subst (λ x. find (work_with x.work_id) ws ≡ some w) same hw,
        subst (λ x. Fits x w) same fit,
      )
  | inr e ↦ a id r (ground arith) act
]

-- What may change of a Work while its run is active: nothing that the run stands on.
pub record Continues (v w : Work) : Type 0 where
  pub same_work : w.work_id ≡ v.work_id
  pub same_applied : w.applied_input_seq ≡ v.applied_input_seq
  pub same_version : w.understanding_version ≡ v.understanding_version
  pub head_grows : v.input_head_seq ≤ w.input_head_seq

Continues-refl : (w : Work) → Continues w w
Continues-refl w = ground arith

module _ (t : Work → Bool) (g : Work → Work) (keep : (w : Work) → (g w).work_id ≡ w.work_id)
    (goes_on : (w : Work) → t w ≡ true → Continues w (g w)) (ws : List Work) where
  amend-Continues : (w : Work) → Continues w (amend t g w)
  amend-Continues w = elim (Bool-cases (t w)) [
    | inl e ↦ rw e (goes_on w e)
    | inr e ↦ rw e (Continues-refl w)
  ]

  find-continue :
      (id : ℕ) (w : Work)
      → find (work_with id) ws ≡ some w
      → find (work_with id) (update t g ws) ≡ some (amend t g w)
  find-continue id w h = find-update (work_with id) t g (λ x. ap (λ i. i == id) (keep x)) ws h

  pub update_works-Aligned : (rs : List Run) → Aligned ws rs → Aligned (update t g ws) rs
  update_works-Aligned rs a id r h act =
      let (w, hw, fit) = a id r h act in
      let c = amend-Continues w in (amend t g w, find-continue r.work_id w hw, ground arith)

-- Reviews stay behind Works whose version does not fall.
pub grow_works-Reviewed :
    (t : Work → Bool) (g : Work → Work)
    → ((w : Work) → (g w).work_id ≡ w.work_id)
    → ((w : Work) → w.understanding_version ≤ (g w).understanding_version)
    → (ws : List Work) (cs : List ResultCheck) → Reviewed ws cs
    → Reviewed (update t g ws) cs
grow_works-Reviewed t g keep grows ws cs a id v h =
    let (w, hw, le) = a id v h in
    (
      amend t g w,
      find-update (work_with id) t g (λ x. ap (λ i. i == id) (keep x)) ws hw,
      ground (arith, grows w),
    )

pub cons_check-Reviewed :
    (c : ResultCheck) (ws : List Work) (cs : List ResultCheck) (w : Work)
    → find (work_with c.work_id) ws ≡ some w
    → c.understanding_version ≤ w.understanding_version
    → Reviewed ws cs
    → Reviewed ws (c ∷ cs)
cons_check-Reviewed c ws cs w hw le a id v h = elim (Bool-cases (check_at id v c)) [
  | inl e ↦ (
    w,
    subst (λ i. find (work_with i) ws ≡ some w)
        (==-true c.work_id id (&&-true (c.work_id == id) (c.understanding_version == v) e).0) hw,
    ground arith,
  )
  | inr e ↦ a id v (ground arith)
]

-- A new Work takes the place of none.
module _ (v : Work) (ws : List Work) (fresh : any (work_with v.work_id) ws ≡ false) where
  find-cons :
      (id : ℕ) (w : Work) → find (work_with id) ws ≡ some w → find (work_with id) (v ∷ ws) ≡ some w
  find-cons id w h = elim (Bool-cases (v.work_id == id)) [
    | inl e ↦ absurd (
        any-false (work_with v.work_id) ws fresh
          (subst (λ i. find (work_with i) ws ≡ some w) (sym (==-true v.work_id id e)) h))
    | inr e ↦ rw e h
  ]

  pub cons_work-Aligned : (rs : List Run) → Aligned ws rs → Aligned (v ∷ ws) rs
  cons_work-Aligned rs a id r h act =
      let (w, hw, fit) = a id r h act in (w, find-cons r.work_id w hw, fit)

  pub cons_work-Reviewed : (cs : List ResultCheck) → Reviewed ws cs → Reviewed (v ∷ ws) cs
  cons_work-Reviewed cs a id n h = let (w, hw, le) = a id n h in (w, find-cons id w hw, le)

-- A Work with another key is left alone.
untouched :
    (t : Work → Bool) (g : Work → Work) (id : ℕ)
    → ((w : Work) → t w ≡ true → w.work_id ≡ id)
    → (w : Work) (j : ℕ) → (w.work_id == j) ≡ true
    → (j == id) ≡ false
    → amend t g w ≡ w
untouched t g id only w j h apart = ground (arith, only w)

-- The run that commits ends, and no other active run stands on its Work.
module _ (t : Work → Bool) (g : Work → Work) (keep : (w : Work) → (g w).work_id ≡ w.work_id)
    (f : Run → Run) (ends : (r : Run) → run_active (f r).state ≡ false)
    (keep_run : (r : Run) → (f r).run_id ≡ r.run_id) where
  pub commit-Aligned :
      (ws : List Work) (rs : List Run) (r : Run)
      → find (run_with r.run_id) rs ≡ some r
      → run_active r.state ≡ true
      → ((w : Work) → t w ≡ true → w.work_id ≡ r.work_id)
      → count (holds_work r.work_id) rs ≤ 1
      → Aligned ws rs
      → Aligned (update t g ws) (update (active_run r.run_id) f rs)
  commit-Aligned ws rs r hr act only one a id s h live =
      let (x, hx, e) =
        find-update_back (run_with id) (active_run r.run_id) f (λ y. ap (λ i. i == id) (keep_run y))
          rs {y = s} h in
      elim (Bool-cases (active_run r.run_id x)) [
        | inl ending ↦ absurd (ground (arith, ends x))
        | inr other ↦
            let same : s ≡ x = ground arith in
            let live' : run_active x.state ≡ true =
              subst (λ y. run_active y.state ≡ true) same live in
            let apart : ◌≡◌ {A = Bool} (x.run_id == r.run_id) false = ground arith in
            let (w, hw, fit) = a id x hx live' in
            elim (Bool-cases (x.work_id == r.work_id)) [
              | inl clash ↦ absurd (
                  omega (
                    arith,
                    one,
                    count_two (holds_work r.work_id) (run_with r.run_id) (run_with id) rs hr hx
                        (ground arith) (ground arith)
                        (ground (arith, find_sound (run_with id) rs hx)) apart,
                  ))
              | inr fine ↦
                  subst
                    (λ y.
                      (v : Work) × (find (work_with y.work_id) (update t g ws) ≡ some v) × Fits y v)
                    (sym same)
                    (
                      w,
                      find-update (work_with x.work_id) t g (λ y. ap (λ i. i == x.work_id) (keep y))
                            ws hw
                          ∙ ap some (
                              untouched t g r.work_id only w x.work_id
                                (find_sound (work_with x.work_id) ws hw) fine),
                      fit,
                    )
            ]
      ]
