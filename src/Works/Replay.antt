-- ===== src/Works/Replay.antt =====
-- CreateWork and AppendWorkMessage under a key that was used before.
use carry.Prelude.{
  ℕ, ◌+◌, ◌&&◌, ◌||◌, some, ◌≡◌, inl, inr, refl, ap, arith, ◌==◌, ==_refl, any, amend, find-update,
  Option-cases, Bool-cases,
}
use carry.Result.{
  ok, or_fail, fail_if, >>=-eq-ok, >>=-ok, or_fail-some, identity_required, not_found,
}
use carry.Text.{Text, text_eq_refl}
use carry.Work.{normalize_goal, normalize_idempotency_key, validate_message}
use carry.Store.Tables.{Db, Work, WorkMessage}
use carry.Store.Retries.{lock_active_work_membership, lock_work}
use carry.Store.Works.{
  insert_work, created_by, find_work_by_create_idempotency, find_work_message_by_idempotency,
  advance_work_input_head, create_work_message, open_work,
}
use carry.Execution.Retry.{is_nobody, acting, is_blank, column, require_membership}
use carry.Works.Create.{
  CreateCommand, WorkView, work_from_idempotency_row, create_digest, replay_create, create_checked,
  create_work,
}
use carry.Works.Append.{
  AppendMessageCommand, append_new, append_locked, append_work_message, message_digest,
}

module _ (sha256 : Text → Text) (spell : ℕ → Text) where
  -- What an append leaves for the next one under the same key.
  append_locked_again :
      (now later message_id other : ℕ) (w v : Work) (work_id user_id : ℕ) (text key digest : Text)
      (d : Db) {m : WorkMessage} {d' : Db}
      → append_locked now message_id w work_id user_id text key digest d ≡ ok (m, d')
      → append_locked later other v work_id user_id text key digest d' ≡ ok (m, d')
  unfolding append_locked append_new advance_work_input_head create_work_message
      find_work_message_by_idempotency
  append_locked_again now later message_id other w v work_id user_id text key digest d {m} {d'} h =
      ground (arith, ==_refl work_id, ==_refl user_id, text_eq_refl key, text_eq_refl digest)

  append_locked-members :
      (now message_id : ℕ) (w : Work) (work_id user_id : ℕ) (text key digest : Text) (d : Db)
      {m : WorkMessage} {d' : Db}
      → append_locked now message_id w work_id user_id text key digest d ≡ ok (m, d')
      → d'.memberships ≡ d.memberships
  unfolding append_locked append_new advance_work_input_head create_work_message
  append_locked-members now message_id w work_id user_id text key digest d h = ground arith

  append_locked-works :
      (now message_id : ℕ) (w : Work) (work_id user_id : ℕ) (text key digest : Text) (d : Db)
      (space_id : ℕ) {m : WorkMessage} {d' : Db}
      → append_locked now message_id w work_id user_id text key digest d ≡ ok (m, d')
      → lock_work space_id work_id d ≡ some w
      → (v : Work) × (lock_work space_id work_id d' ≡ some v)
  unfolding append_locked append_new advance_work_input_head create_work_message lock_work
  append_locked-works now message_id w work_id user_id text key digest d space_id {m} {d'} h e =
      let p = λ (x : Work). x.space_id == space_id && x.work_id == work_id in
      let g = λ (x : Work). record x { input_head_seq = x.input_head_seq + 1 } in
      let moved = find-update p (open_work work_id) g (λ x. refl) d.works {x = w} e in
      elim (Option-cases (find_work_message_by_idempotency work_id user_id key d)) [
        | inr (k, s) ↦ (w, ground arith)
        | inl s ↦ (amend (open_work work_id) g w, ground (arith, moved))
      ]

  -- A message that was added is returned again for the same command, whatever the time and the
  -- new uuid are then, and nothing more is added.
  pub append_work_message_again :
      (now later message_id other : ℕ) (c : AppendMessageCommand) (d : Db) {m : WorkMessage}
      {d' : Db}
      → append_work_message sha256 spell now message_id c d ≡ ok (m, d')
      → append_work_message sha256 spell later other c d' ≡ ok (m, d')
  unfolding append_work_message require_membership lock_active_work_membership
  append_work_message_again now later message_id other c d {m} {d'} h =
      let required = is_blank c.work_id || is_blank c.space_id || is_nobody c.author_user_id in
      let (u0, e0, h0) = >>=-eq-ok (fail_if required identity_required) _ h in
      let (u1, e1, h1) = >>=-eq-ok (validate_message c.text) _ h0 in
      let (key, e2, h2) = >>=-eq-ok (normalize_idempotency_key c.idempotency_key) _ h1 in
      let (space_id, e3, h3) = >>=-eq-ok (column c.space_id) _ h2 in
      let (user_id, e4, h4) = >>=-eq-ok (acting c.author_user_id) _ h3 in
      let (u5, e5, h5) = >>=-eq-ok (require_membership space_id user_id d) _ h4 in
      let (work_id, e6, h6) = >>=-eq-ok (column c.work_id) _ h5 in
      let (w, e7, h7) = >>=-eq-ok (or_fail (lock_work space_id work_id d) not_found) _ h6 in
      let members =
        append_locked-members now message_id w work_id user_id c.text key
          (message_digest sha256 spell c.work_id c.author_user_id c.text) d h7 in
      let (v, hv) =
        append_locked-works now message_id w work_id user_id c.text key
          (message_digest sha256 spell c.work_id c.author_user_id c.text) d space_id h7
          (or_fail-some (lock_work space_id work_id d) not_found e7) in
      >>=-ok (fail_if required identity_required) _ e0 (
        >>=-ok (validate_message c.text) _ e1 (
          >>=-ok (normalize_idempotency_key c.idempotency_key) _ e2 (
            >>=-ok (column c.space_id) _ e3 (
              >>=-ok (acting c.author_user_id) _ e4 (
                >>=-ok (require_membership space_id user_id d') _ (ground arith) (
                  >>=-ok (column c.work_id) _ e6 (
                    >>=-ok (or_fail (lock_work space_id work_id d') not_found) _
                      (ap (λ o. or_fail o not_found) hv)
                      (append_locked_again now later message_id other w v work_id user_id c.text key
                        (message_digest sha256 spell c.work_id c.author_user_id c.text) d h7))))))))

  create_checked_again :
      (now later work_id other space_id user_id : ℕ) (goal key digest : Text) (d : Db)
      {w : WorkView} {d' : Db}
      → create_checked now work_id space_id user_id goal key digest d ≡ ok (w, d')
      → create_checked later other space_id user_id goal key digest d'
        ≡ ok (work_from_idempotency_row w.work d', d')
  unfolding create_checked insert_work replay_create find_work_by_create_idempotency
      require_membership lock_active_work_membership
  create_checked_again now later work_id other space_id user_id goal key digest d {w} {d'} h =
      elim (Bool-cases (any (created_by space_id user_id key) d.works)) [
        | inl e ↦ ground arith
        | inr e ↦
            ground (arith, ==_refl space_id, ==_refl user_id, text_eq_refl key, text_eq_refl digest)
      ]

  -- A Work that was created is returned again for the same command, with what it needs by now, and
  -- no other one is created, whatever the time and the new uuid are then.
  pub create_work_again :
      (now later work_id other : ℕ) (c : CreateCommand) (d : Db) {w : WorkView} {d' : Db}
      → create_work sha256 spell now work_id c d ≡ ok (w, d')
      → create_work sha256 spell later other c d' ≡ ok (work_from_idempotency_row w.work d', d')
  unfolding create_work
  create_work_again now later work_id other c d {w} {d'} h =
      let (goal, e1, h1) = >>=-eq-ok (normalize_goal c.goal) _ h in
      let required = is_blank c.space_id || is_nobody c.creator_user_id in
      let (u2, e2, h2) = >>=-eq-ok (fail_if required identity_required) _ h1 in
      let (key, e3, h3) = >>=-eq-ok (normalize_idempotency_key c.idempotency_key) _ h2 in
      let (space_id, e4, h4) = >>=-eq-ok (column c.space_id) _ h3 in
      let (user_id, e5, h5) = >>=-eq-ok (acting c.creator_user_id) _ h4 in
      >>=-ok (normalize_goal c.goal) _ e1 (
        >>=-ok (fail_if required identity_required) _ e2 (
          >>=-ok (normalize_idempotency_key c.idempotency_key) _ e3 (
            >>=-ok (column c.space_id) _ e4 (
              >>=-ok (acting c.creator_user_id) _ e5 (
                create_checked_again now later work_id other space_id user_id goal key
                  (create_digest sha256 spell c.space_id c.creator_user_id goal) d h5)))))
