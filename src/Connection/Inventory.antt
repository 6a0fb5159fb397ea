-- ===== src/Connection/Inventory.antt =====
-- ListMachines of internal/postgres/machine.go, with its statements of
-- internal/postgres/dbsqlc/machine.sql.go. The agents of the page are left out, and so are the names
-- of the space and its members. The order of the numbers is that of the uuids.
use carry.Prelude.{
  ℕ, Bool, true, ◌&&◌, List, Option, none, some, ltb, ◌==◌, if◌then◌else◌, map, take, length,
  get_elem?, select, sort_by,
}
use carry.Result.{Result, ok, err, ◌>>=◌, or_fail, machine_unavailable, invalid_connection}
use carry.Store.Tables.{is_null}
use carry.Execution.Retry.{Identifier, blank, malformed, uuid, respelled, urn}
use carry.Connection.Tables.{Network, Enrolled}
use carry.Connection.Machines.{lock_browser_session, lock_enrollment_membership}

-- `ListMachinesCommand`.
pub record ListMachinesCommand : Type 0 where
  pub browser_session_id : ℕ
  pub space_id : ℕ
  pub after : Identifier

-- A row as `inventoryRecord` shows it: it is active, or revoked.
pub record MachineRecord : Type 0 where
  pub machine : Enrolled
  pub is_active : Bool
  pub can_revoke : Bool

abbrev pub inventory_record : Bool → Enrolled → MachineRecord
inventory_record can_revoke m = record {
  machine = m;
  is_active = is_null m.revoked_at;
  can_revoke = can_revoke;
}

-- `MachinePage`.
pub record MachinePage : Type 0 where
  pub machines : List MachineRecord
  pub next_cursor : Option ℕ

-- LoadMachineListMembership: whether the user of the session may enroll machines for the space.
unfoldable pub load_list_membership : ℕ → ℕ → ℕ → Network → Option Bool
load_list_membership now session_id space_id n = elim (lock_browser_session now session_id n) [
  | none ↦ none
  | some user_id ↦ lock_enrollment_membership space_id user_id n
]

-- `nullablePostgresUUID`.
abbrev pub nullable : Identifier → Result (Option ℕ)
nullable blank = ok none
nullable malformed = err invalid_connection
nullable (uuid id) = ok (some id)
nullable (respelled id t) = ok (some id)
nullable (urn id t) = ok (some id)

abbrev pub is_past : Option ℕ → ℕ → Bool
is_past none id = true
is_past (some after) id = ltb after id

abbrev pub listed : ℕ → Option ℕ → Enrolled → Bool
listed space_id after m = m.space_id == space_id && is_past after m.machine_id

abbrev pub machine_key : Enrolled → ℕ
machine_key m = m.machine_id

-- ListSpaceMachines.
unfoldable pub list_space_machines : ℕ → Option ℕ → Network → List Enrolled
list_space_machines space_id after n =
    take 51 (select (listed space_id after) (sort_by machine_key n.machines))

abbrev pub key_of : Option Enrolled → Option ℕ
key_of none = none
key_of (some m) = some m.machine_id

-- The page of the rows: one row more than fits tells that there is a next page.
unfoldable pub machine_page : Bool → List Enrolled → MachinePage
machine_page can_revoke rows = record {
  machines = map (inventory_record can_revoke) (take 50 rows);
  next_cursor = if ltb 50 (length rows) then key_of (get_elem? rows 49) else none;
}

-- ListMachines.
unfoldable pub list_machines : ℕ → ListMachinesCommand → Network → Result MachinePage
list_machines now c n = do
  can_enroll ←
      or_fail (load_list_membership now c.browser_session_id c.space_id n) machine_unavailable
  after ← nullable c.after
  ok (machine_page can_enroll (list_space_machines c.space_id after n))
