-- ===== src/Execution/Input.antt =====
-- The input that SelectRunInputEnd gives to a run.
use carry.Prelude.{
  ℕ, ◌+◌, ◌*◌, ◌≤◌, List, [], ◌∷◌, arith, length, All, All-take, All-sort_by, All-select, leb, ltb,
  if◌then◌else◌,
}
use carry.Store.Tables.{Db, WorkMessage}
use carry.Store.Claims.{bounded_end, select_run_input_end, in_range, message_seq}

-- The end lies between what it starts from and the head.
bounded_end_range :
    (head : ℕ) (ms : List WorkMessage) (used last : ℕ)
    → last ≤ head
    → All (λ m. m.input_seq ≤ head) ms
    → (last ≤ bounded_end used last ms) × (bounded_end used last ms ≤ head)
unfolding bounded_end
bounded_end_range head [] used last h a = omega arith
bounded_end_range head (m ∷ ms) used last h a =
    let total = used + length m.text in
    let next : ℕ =
      if leb total (256 * 1024)
      then (if ltb last m.input_seq then m.input_seq else last)
      else last in
    let grows : (last ≤ next) × (next ≤ head) = ground arith in
    omega (arith, grows, bounded_end_range head ms total next grows.1 a.1)

-- If the first input of a run is not after the head of its Work, the selected end is not before
-- the first input and not after the head.
pub select_run_input_end_range :
    (start_seq work_id head : ℕ) (d : Db)
    → start_seq ≤ head
    → (start_seq ≤ select_run_input_end start_seq work_id head d)
      × (select_run_input_end start_seq work_id head d ≤ head)
unfolding select_run_input_end
select_run_input_end_range start_seq work_id head d h = bounded_end_range head _ 0 start_seq h (
    All-take _ 32 _ (
      All-sort_by _ message_seq _
        (All-select _ (in_range work_id start_seq head) (λ m e. ground arith) d.messages)))
