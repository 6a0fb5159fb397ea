-- ===== src/Works/Invariant.antt =====
-- CreateWork and AppendWorkMessage of internal/postgres/work.go, and the consistency of the tables.
use carry.Prelude.{
  ℕ, ◌+◌, Bool, false, ◌||◌, ◌&&◌, List, ◌∷◌, Option, ◌≡◌, ◌⊎◌, inl, inr, refl, sym, ap, subst, ◌∙◌,
  arith, ◌==◌, update, count, any, any-update, count-any, count-update-le, Option-cases, Bool-cases,
}
use carry.Result.{ok, or_fail, fail_if, >>=-eq-ok, identity_required, not_found}
use carry.Text.{Text}
use carry.Work.{normalize_goal, normalize_idempotency_key, validate_message}
use carry.Store.Tables.{Db, Work, WorkMessage, ResultCheck, is_open, work_with}
use carry.Store.Retries.{lock_work}
use carry.Store.Works.{
  insert_work, new_work, find_work_message_by_idempotency, advance_work_input_head,
  create_work_message, open_work, created_by,
}
use carry.Execution.Retry.{is_nobody, acting, is_blank, column, require_membership}
use carry.Execution.Consistent.{
  Consistent, update_works-Aligned, grow_works-Reviewed, cons_work-Aligned, cons_work-Reviewed,
}
use carry.Works.Create.{
  CreateCommand, WorkView, create_digest, replay_create, create_checked, create_work,
}
use carry.Works.Append.{
  message_digest, AppendMessageCommand, append_new, append_locked, append_work_message,
}

module _ (d : Db) (v : Consistent d) where
  add_work :
      (w : Work)
      → any (work_with w.work_id) d.works ≡ false
      → Consistent (record d { works = w ∷ d.works })
  add_work w fresh = record {
    runs_once = v.runs_once;
    works_once = λ id. ground (
      arith,
      v.works_once id,
      ap (λ i. count (work_with i) d.works) {x = w.work_id} {y = id},
      count-any (work_with w.work_id) d.works fresh,
    );
    attempts_once = v.attempts_once;
    held_once = v.held_once;
    aligned = cons_work-Aligned w d.works fresh d.runs v.aligned;
    reviewed = cons_work-Reviewed w d.works fresh d.checks v.reviewed;
  }

  add_input :
      (work_id : ℕ) (ms : List WorkMessage)
      → Consistent (record d {
        works =
            update
              (open_work work_id)
              (λ w. record w { input_head_seq = w.input_head_seq + 1 })
              d.works;
        messages = ms;
      })
  add_input work_id ms =
      let g = λ (w : Work). record w { input_head_seq = w.input_head_seq + 1 } in
      record {
        runs_once = v.runs_once;
        works_once = λ id. omega (
          arith,
          v.works_once id,
          count-update-le (work_with id) (open_work work_id) g (λ x e h. h) d.works,
        );
        attempts_once = v.attempts_once;
        held_once = v.held_once;
        aligned =
            update_works-Aligned (open_work work_id) g (λ w. refl) (λ w e. omega arith) d.works
              d.runs v.aligned;
        reviewed =
            grow_works-Reviewed (open_work work_id) g (λ w. refl) (λ w. omega arith) d.works
              d.checks v.reviewed;
      }

  pub update_checks :
      (q : ResultCheck → Bool) (f : ResultCheck → ResultCheck)
      → ((c : ResultCheck) → (f c).work_id ≡ c.work_id)
      → ((c : ResultCheck) → (f c).understanding_version ≡ c.understanding_version)
      → Consistent (record d { checks = update q f d.checks })
  update_checks q f same_work same_version = record {
    runs_once = v.runs_once;
    works_once = v.works_once;
    attempts_once = v.attempts_once;
    held_once = v.held_once;
    aligned = v.aligned;
    reviewed = λ id n h. v.reviewed id n (
        sym (
          any-update (λ c. c.work_id == id && c.understanding_version == n) q f
            (λ c. rw (same_work c, same_version c)) d.checks)
        ∙ h);
  }

-- The tables stay consistent, and the runs stay as they are.
pub data Kept (d e : Db) : Type 0 where
  kept : (Consistent d → Consistent e) → e.runs ≡ d.runs → Kept d e

pub Kept-Consistent : {d e : Db} → Kept d e → Consistent d → Consistent e
Kept-Consistent (kept c r) = c

pub Kept-runs : {d e : Db} → Kept d e → e.runs ≡ d.runs
Kept-runs (kept c r) = r

pub Kept-eq : {d e : Db} → e ≡ d → Kept d e
Kept-eq {d} e = subst (Kept d) (sym e) (kept (λ v. v) refl)

insert_work-db :
    (now work_id space_id : ℕ) (goal : Text) (user_id : ℕ) (key digest : Text) (d : Db)
    {row : Option Work} {d' : Db}
    → insert_work now work_id space_id goal user_id key digest d ≡ ok (row, d')
    → (d' ≡ d)
      ⊎ ((any (work_with work_id) d.works ≡ false)
          × (d' ≡ record d {
            works = new_work now work_id space_id goal user_id key digest ∷ d.works;
          }))
unfolding insert_work
insert_work-db now work_id space_id goal user_id key digest d h =
    elim (Bool-cases (any (created_by space_id user_id key) d.works)) [
      | inl e ↦ inl (ground arith)
      | inr e ↦ inr (ground arith, ground arith)
    ]

pub insert_work-Kept :
    (now work_id space_id : ℕ) (goal : Text) (user_id : ℕ) (key digest : Text) (d : Db)
    {row : Option Work} {d' : Db}
    → insert_work now work_id space_id goal user_id key digest d ≡ ok (row, d')
    → Kept d d'
insert_work-Kept now work_id space_id goal user_id key digest d h =
    elim (insert_work-db now work_id space_id goal user_id key digest d h) [
      | inl e ↦ Kept-eq e
      | inr (fresh, e) ↦ subst (Kept d) (sym e) (
          kept (λ v. add_work d v (new_work now work_id space_id goal user_id key digest) fresh)
            refl)
    ]

replay_create-db :
    (space_id user_id : ℕ) (key digest : Text) (d : Db) {w : WorkView} {d' : Db}
    → replay_create space_id user_id key digest d ≡ ok (w, d')
    → d' ≡ d
unfolding replay_create
replay_create-db space_id user_id key digest d h = ground arith

module _ (sha256 : Text → Text) (spell : ℕ → Text) where
  create_checked-Kept :
      (now work_id space_id user_id : ℕ) (goal key digest : Text) (d : Db) {w : WorkView} {d' : Db}
      → create_checked now work_id space_id user_id goal key digest d ≡ ok (w, d')
      → Kept d d'
  unfolding create_checked
  create_checked-Kept now work_id space_id user_id goal key digest d h =
      let (u1, e1, h1) = >>=-eq-ok (require_membership space_id user_id d) _ h in
      let ((row, d1), e2, h2) =
        >>=-eq-ok (insert_work now work_id space_id goal user_id key digest d) _ h1 in
      let v1 = insert_work-Kept now work_id space_id goal user_id key digest d e2 in
      elim (Option-cases row) [
        | inl e ↦
            subst (Kept d)
              (sym (replay_create-db space_id user_id key digest d1 (rw (e, create_checked) at h2)))
              v1
        | inr (x, e) ↦ subst (Kept d) (ground arith) v1
      ]

  pub create_work-Kept :
      (now work_id : ℕ) (c : CreateCommand) (d : Db) {w : WorkView} {d' : Db}
      → create_work sha256 spell now work_id c d ≡ ok (w, d')
      → Kept d d'
  unfolding create_work
  create_work-Kept now work_id c d h =
      let (goal, e1, h1) = >>=-eq-ok (normalize_goal c.goal) _ h in
      let required = is_blank c.space_id || is_nobody c.creator_user_id in
      let (u2, e2, h2) = >>=-eq-ok (fail_if required identity_required) _ h1 in
      let (key, e3, h3) = >>=-eq-ok (normalize_idempotency_key c.idempotency_key) _ h2 in
      let (space_id, e4, h4) = >>=-eq-ok (column c.space_id) _ h3 in
      let (user_id, e5, h5) = >>=-eq-ok (acting c.creator_user_id) _ h4 in
      create_checked-Kept now work_id space_id user_id goal key
        (create_digest sha256 spell c.space_id c.creator_user_id goal) d h5

  append_new-Kept :
      (now message_id work_id user_id : ℕ) (text key digest : Text) (d : Db) {m : WorkMessage}
      {d' : Db}
      → append_new now message_id work_id user_id text key digest d ≡ ok (m, d')
      → Kept d d'
  unfolding append_new advance_work_input_head create_work_message
  append_new-Kept now message_id work_id user_id text key digest d {m} {d'} h =
      subst (Kept d) (ground arith) (kept (λ v. add_input d v work_id d'.messages) refl)

  append_locked-Kept :
      (now message_id : ℕ) (w : Work) (work_id user_id : ℕ) (text key digest : Text) (d : Db)
      {m : WorkMessage} {d' : Db}
      → append_locked now message_id w work_id user_id text key digest d ≡ ok (m, d')
      → Kept d d'
  unfolding append_locked
  append_locked-Kept now message_id w work_id user_id text key digest d h =
      elim (Option-cases (find_work_message_by_idempotency work_id user_id key d)) [
        | inr (m, e) ↦ Kept-eq (ground arith)
        | inl e ↦ elim (Bool-cases (is_open w.lifecycle)) [
          | inl o ↦
              append_new-Kept now message_id work_id user_id text key digest d
                (rw (e, o, append_locked) at h)
          | inr o ↦ cc (rw (e, o, append_locked) at h)
        ]
      ]

  pub append_work_message-Kept :
      (now message_id : ℕ) (c : AppendMessageCommand) (d : Db) {m : WorkMessage} {d' : Db}
      → append_work_message sha256 spell now message_id c d ≡ ok (m, d')
      → Kept d d'
  unfolding append_work_message
  append_work_message-Kept now message_id c d h =
      let required = is_blank c.work_id || is_blank c.space_id || is_nobody c.author_user_id in
      let (u0, e0, h0) = >>=-eq-ok (fail_if required identity_required) _ h in
      let (u1, e1, h1) = >>=-eq-ok (validate_message c.text) _ h0 in
      let (key, e2, h2) = >>=-eq-ok (normalize_idempotency_key c.idempotency_key) _ h1 in
      let (space_id, e3, h3) = >>=-eq-ok (column c.space_id) _ h2 in
      let (user_id, e4, h4) = >>=-eq-ok (acting c.author_user_id) _ h3 in
      let (u5, e5, h5) = >>=-eq-ok (require_membership space_id user_id d) _ h4 in
      let (work_id, e6, h6) = >>=-eq-ok (column c.work_id) _ h5 in
      let (w, e7, h7) = >>=-eq-ok (or_fail (lock_work space_id work_id d) not_found) _ h6 in
      append_locked-Kept now message_id w work_id user_id c.text key
        (message_digest sha256 spell c.work_id c.author_user_id c.text) d h7
