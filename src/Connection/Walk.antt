-- ===== src/Connection/Walk.antt =====
-- ListMachines of internal/postgres/machine.go, called until there is no further page.
use carry.Prelude.{
  ℕ, zero, suc, ◌≤◌, ◌<◌, Bool, true, false, ◌&&◌, List, [], ◌∷◌, ◌++◌, Option, none, some, ◌≡◌,
  refl, ap, subst, sym, ◌∙◌, inl, inr, arith, ltb, ◌==◌, map, take, drop, length, count, get_elem?,
  select, sort_by, take-take, get_elem?-take, length-take_one_more, take_all, take-drop,
  length-drop, length-select, length-sort_by, get_elem?-some, select_same, select-select,
  select-above, sort_by-strict, above, Pairwise, Pairwise-select, Bool-cases, All, All-select,
  get_elem?-All,
}
use carry.Result.{Result, ok, err, ◌>>=◌, database}
use carry.Execution.Retry.{Identifier, blank, uuid}
use carry.Connection.Tables.{Network, Enrolled, enrolled_with}
use carry.Connection.Inventory.{
  MachineRecord, MachinePage, inventory_record, load_list_membership, listed, machine_key,
  list_space_machines, machine_page, list_machines, is_past,
}

-- The machines on a page and on those after it. The fuel bounds the number of pages.
abbrev pub walk : ℕ → ℕ → ℕ → ℕ → Identifier → Network → Result (List MachineRecord)
walk zero now session_id space_id after n = err database
walk (suc fuel) now session_id space_id after n = do
  page ←
      list_machines now
        (record { browser_session_id = session_id; space_id = space_id; after = after }) n
  elim page.next_cursor [
    | none ↦ ok page.machines
    | some id ↦ walk fuel now session_id space_id (uuid id) n >>= λ rest. ok (page.machines ++ rest)
  ]

abbrev cursor : Option ℕ → Identifier
cursor none = blank
cursor (some id) = uuid id

map-append : {A B : Type 0} (f : A → B) (xs ys : List A) → map f (xs ++ ys) ≡ map f xs ++ map f ys
map-append f [] ys = refl
map-append f (x ∷ xs) ys = ap (λ zs. f x ∷ zs) (map-append f xs ys)

abbrev sorted : Network → List Enrolled
sorted n = sort_by machine_key n.machines

-- The page of the rows after a cursor, which are cut from those that are left.
list_machines-page :
    (now session_id space_id : ℕ) (after : Option ℕ) (n : Network) (can : Bool)
    → load_list_membership now session_id space_id n ≡ some can
    → list_machines now
        (record { browser_session_id = session_id; space_id = space_id; after = cursor after })
        n
      ≡ ok (machine_page can (list_space_machines space_id after n))
unfolding list_machines
list_machines-page now session_id space_id none n can h = ground arith
list_machines-page now session_id space_id (some id) n can h = ground arith

last_page :
    (can : Bool) (rs : List Enrolled)
    → ltb 50 (length rs) ≡ false
    → machine_page can (take 51 rs)
      ≡ record { machines = map (inventory_record can) rs; next_cursor = none }
unfolding machine_page
last_page can rs h =
    let few = length-take_one_more 50 rs ∙ h in
    let whole : take 50 (take 51 rs) ≡ rs = take-take 50 rs ∙ take_all 50 rs (ground arith) in
    ground arith

full_page :
    (can : Bool) (rs : List Enrolled) (m : Enrolled)
    → ltb 50 (length rs) ≡ true
    → get_elem? rs 49 ≡ some m
    → machine_page can (take 51 rs) ≡ record {
      machines = map (inventory_record can) (take 50 rs);
      next_cursor = some m.machine_id;
    }
unfolding machine_page
full_page can rs m h e =
    let more = length-take_one_more 50 rs ∙ h in
    let first = take-take 50 rs in let last = get_elem?-take 49 rs ∙ e in ground arith

narrower :
    (space_id last : ℕ) (after : Option ℕ) (x : Enrolled)
    → is_past after last ≡ true
    → listed space_id (some last) x ≡ (listed space_id after x && above machine_key last x)
narrower space_id last none x h = ground arith
narrower space_id last (some a) x h = ground arith

-- After the last machine of a page the rest of the rows is left.
rows_left :
    (space_id : ℕ) (after : Option ℕ) (ts rs : List Enrolled) (m : Enrolled)
    → Pairwise (λ a b. machine_key a < machine_key b) rs
    → select (listed space_id after) ts ≡ rs
    → get_elem? rs 49 ≡ some m
    → select (listed space_id (some m.machine_id)) ts ≡ drop 50 rs
rows_left space_id after ts rs m order h e =
    let past : is_past after m.machine_id ≡ true =
      get_elem?-All (λ x. is_past after x.machine_id ≡ true) 49 rs m
        (subst (All (λ (x : Enrolled). is_past after x.machine_id ≡ true)) h (
          All-select (λ x. is_past after x.machine_id ≡ true) (listed space_id after)
            (λ x k. ground arith) ts))
        e in
    select_same (listed space_id (some m.machine_id))
      (λ x. listed space_id after x && above machine_key m.machine_id x)
      (λ x. narrower space_id m.machine_id after x past) ts
    ∙ (sym (select-select (above machine_key m.machine_id) (listed space_id after) ts)
        ∙ (ap (select (above machine_key m.machine_id)) h
            ∙ select-above machine_key 49 rs m order e))

module _ (now session_id space_id : ℕ) (n : Network) (can : Bool)
    (member : load_list_membership now session_id space_id n ≡ some can) where
  page_of :
      (after : Option ℕ) (rs : List Enrolled)
      → select (listed space_id after) (sorted n) ≡ rs
      → list_machines now
          (record { browser_session_id = session_id; space_id = space_id; after = cursor after })
          n
        ≡ ok (machine_page can (take 51 rs))
  unfolding list_space_machines
  page_of after rs h =
      list_machines-page now session_id space_id after n can member
      ∙ ap (λ ys. ok (machine_page can (take 51 ys))) h

  walk_last :
      (fuel : ℕ) (after : Option ℕ) (rs : List Enrolled)
      → select (listed space_id after) (sorted n) ≡ rs
      → ltb 50 (length rs) ≡ false
      → walk (suc fuel) now session_id space_id (cursor after) n
        ≡ ok (map (inventory_record can) rs)
  walk_last fuel after rs h few =
      let page = page_of after rs h ∙ ap ok (last_page can rs few) in ground arith

  walk_more :
      (fuel : ℕ) (after : Identifier) (page : MachinePage) (id : ℕ) (rest : List MachineRecord)
      → list_machines now
          (record { browser_session_id = session_id; space_id = space_id; after = after })
          n
        ≡ ok page
      → page.next_cursor ≡ some id
      → walk fuel now session_id space_id (uuid id) n ≡ ok rest
      → walk (suc fuel) now session_id space_id after n ≡ ok (page.machines ++ rest)
  walk_more fuel after page id rest here next there = ground arith

  walk_left :
      (fuel : ℕ) (after : Option ℕ) (rs : List Enrolled)
      → Pairwise (λ a b. machine_key a < machine_key b) (sorted n)
      → select (listed space_id after) (sorted n) ≡ rs
      → length rs ≤ fuel
      → walk (suc fuel) now session_id space_id (cursor after) n
        ≡ ok (map (inventory_record can) rs)
  walk_left zero after rs order h enough = walk_last zero after rs h (ground arith)
  walk_left (suc fuel) after rs order h enough = elim (Bool-cases (ltb 50 (length rs))) [
    | inr few ↦ walk_last (suc fuel) after rs h few
    | inl more ↦
        let (m, e) = get_elem?-some 49 rs (ground arith) in
        let ascending = subst (Pairwise (λ a b. machine_key a < machine_key b)) h (
          Pairwise-select (λ a b. machine_key a < machine_key b) (listed space_id after) (sorted n)
            order) in
        let rest =
          walk_left fuel (some m.machine_id) (drop 50 rs) order
            (rows_left space_id after (sorted n) rs m ascending h e)
            (omega (arith, length-drop 50 rs, enough)) in
        let whole =
          sym (map-append (inventory_record can) (take 50 rs) (drop 50 rs))
          ∙ ap (map (inventory_record can)) (take-drop 50 rs) in
        walk_more (suc fuel) (cursor after)
          (record {
            machines = map (inventory_record can) (take 50 rs);
            next_cursor = some m.machine_id;
          })
          m.machine_id (map (inventory_record can) (drop 50 rs))
          (page_of after rs h ∙ ap ok (full_page can rs m more e)) refl rest
        ∙ ap ok whole
  ]

  -- Whoever may list the machines of a space and follows the cursors page by page gets each machine of
  -- the space once, in the order of the uuids. One page more than there are machines is enough.
  pub list_machines-walk :
      ((id : ℕ) → count (enrolled_with id) n.machines ≤ 1)
      → walk (suc (length n.machines)) now session_id space_id blank n
        ≡ ok (
            map
              (inventory_record can)
              (select (λ m. m.space_id == space_id) (sort_by machine_key n.machines)))
  list_machines-walk once =
      walk_left (length n.machines) none (select (listed space_id none) (sorted n))
        (sort_by-strict machine_key n.machines once) refl
        (omega (
          arith,
          length-select (listed space_id none) (sorted n),
          length-sort_by machine_key n.machines,
        ))
      ∙ ap (λ ms. ok (map (inventory_record can) ms))
          (select_same (listed space_id none) (λ m. m.space_id == space_id) (λ m. ground arith)
            (sorted n))
