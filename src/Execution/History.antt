-- ===== src/Execution/History.antt =====
-- The states of a run (internal/postgres/run.go) that may follow one another.
use carry.Prelude.{
  ℕ, ◌≤◌, Bool, true, false, List, ◌∷◌, some, ◌≡◌, inl, inr, sym, ap, subst, arith, ◌==◌, find,
  update, any, amend, find-update, find-none-any, Bool-cases,
}
use carry.Store.Tables.{Run, run_active, run_with}

-- A later state of the same run.
pub record Later (r s : Run) : Type 0 where
  pub same_run : s.run_id ≡ r.run_id
  pub same_work : s.work_id ≡ r.work_id
  pub same_start : s.input_start_seq ≡ r.input_start_seq
  pub same_end : s.input_end_seq ≡ r.input_end_seq
  pub same_base : s.base_understanding_version ≡ r.base_understanding_version
  pub fence_grows : r.current_fence ≤ s.current_fence
  pub ended_stays : run_active r.state ≡ false → s.state ≡ r.state

pub Later-refl : (r : Run) → Later r r
Later-refl r = ground arith

pub Later-trans : {r s t : Run} → Later r s → Later s t → Later r t
Later-trans p q = ground arith

-- Every run of one table is in the other, in a later state.
abbrev pub Evolves : List Run → List Run → Type 0
Evolves rs ss =
    (id : ℕ) (r : Run)
    → find (run_with id) rs ≡ some r
    → (s : Run) × (find (run_with id) ss ≡ some s) × Later r s

pub Evolves-refl : (rs : List Run) → Evolves rs rs
Evolves-refl rs id r h = (r, h, Later-refl r)

pub Evolves-trans : (rs ss ts : List Run) → Evolves rs ss → Evolves ss ts → Evolves rs ts
Evolves-trans rs ss ts p q id r h =
    let (s, hs, ls) = p id r h in let (t, ht, lt) = q id s hs in (t, ht, Later-trans ls lt)

pub Evolves-eq : {rs ss : List Run} → ss ≡ rs → Evolves rs ss
Evolves-eq {rs} e = subst (Evolves rs) (sym e) (Evolves-refl rs)

pub update-Evolves :
    (q : Run → Bool) (f : Run → Run) (rs : List Run)
    → ((r : Run) → (f r).run_id ≡ r.run_id)
    → ((r : Run) → q r ≡ true → Later r (f r))
    → Evolves rs (update q f rs)
update-Evolves q f rs keep later id r h = (
  amend q f r,
  find-update (run_with id) q f (λ x. ap (λ i. i == id) (keep x)) rs h,
  elim (Bool-cases (q r)) [ inl e ↦ rw e (later r e) | inr e ↦ rw e (Later-refl r) ],
)

pub cons-Evolves :
    (s : Run) (rs : List Run) → any (run_with s.run_id) rs ≡ false → Evolves rs (s ∷ rs)
cons-Evolves s rs fresh id r h = elim (Bool-cases (s.run_id == id)) [
  | inl e ↦ absurd (ground (arith, find-none-any (run_with s.run_id) rs fresh))
  | inr e ↦ (r, rw e h, Later-refl r)
]
