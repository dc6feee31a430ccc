-- ===== src/Routing/Active.antt =====
-- crates/voya-app/src/routing/manager.rs: the active routing.
pub mod Laws
pub mod Puts
pub mod Commands
use voya_vpn.Base.{
  ℕ, zero, suc, ℤ, pos, negsuc, Bool, true, false, not, ◌&&◌, ◌||◌, List, [], ◌∷◌, Option, none,
  some, if◌then◌else◌, Text, text_eq, is_empty, trim,
}
use voya_vpn.Entities.Routing.{RoutingItem}
use voya_vpn.Routing.Table.{
  Database, Generator, ManagerState, routing_not_found, missing_routing_id, Outcome, done, failed,
  get_row, row_exists, upsert_row, max_sort, first_row, active_row, set_active, delete_many,
  add_i32, normalize_routing_item,
}

-- The setting follows the row.
unfoldable pub activate : RoutingItem → ManagerState → ManagerState
activate row state = record state {
  database = set_active row.id state.database;
  routing_index_id = row.id;
}

-- The first row becomes the active one, if there is one.
unfoldable pub activate_first : Option RoutingItem → ManagerState → ManagerState
activate_first none state = record state { routing_index_id = [] }
activate_first (some first) state = activate first state

unfoldable pub activate_configured : Option RoutingItem → ManagerState → ManagerState
activate_configured none state = activate_first (first_row state.database.rows) state
activate_configured (some item) state = activate item state

abbrev pub configured : ManagerState → Option RoutingItem
configured state =
    if is_empty (trim state.routing_index_id)
    then none
    else get_row (trim state.routing_index_id) state.database.rows

abbrev pub keep_active : Option RoutingItem → ManagerState → ManagerState
keep_active none state = activate_configured (configured state) state
keep_active (some active) state = record state { routing_index_id = active.id }

unfoldable pub ensure_active_routing : ManagerState → ManagerState
ensure_active_routing state = keep_active (active_row state.database) state

unfoldable pub delete_routings : List Text → ManagerState → ManagerState
delete_routings ids state =
    ensure_active_routing (record state { database = delete_many ids state.database })

unfoldable pub set_active_routing : Text → ManagerState → Outcome
set_active_routing id state =
    if is_empty (trim id)
    then failed missing_routing_id
    else elim (get_row id state.database.rows) [
      | none ↦ failed (routing_not_found id)
      | some row ↦
          done row (record state { database = set_active id state.database; routing_index_id = id })
    ]

abbrev not_positive : ℤ → Bool
not_positive (pos zero) = true
not_positive (pos (suc n)) = false
not_positive (negsuc n) = true

abbrev has_id : Text → Option RoutingItem → Bool
has_id id none = true
has_id id (some active) = text_eq active.id id

-- A new routing without a sort goes to the end.
abbrev sorted_in : Bool → List RoutingItem → RoutingItem → RoutingItem
sorted_in is_new rows item =
    if is_new && not_positive item.sort
    then record item { sort = add_i32 (max_sort rows) 10 }
    else item

abbrev put_row : RoutingItem → ManagerState → ManagerState
put_row item state = record state {
  database = record state.database { rows = upsert_row item state.database.rows };
}

abbrev pub answer : Text → ManagerState → Option RoutingItem → Outcome
answer id state none = failed (routing_not_found id)
answer id state (some row) = done row state

-- After the id has been settled: the first routing becomes the active one, and the active one stays
-- it.
unfoldable pub save_named : Generator → Bool → RoutingItem → ManagerState → Outcome
save_named gen is_new named state =
    let should_activate = has_id named.id (active_row state.database) in
    let (item, counted) = normalize_routing_item gen named state in
    let row = sorted_in is_new counted.database.rows item in
    let put = put_row row counted in
    let ensured = ensure_active_routing (if should_activate then activate row put else put) in
    answer row.id ensured (get_row row.id ensured.database.rows)

unfoldable pub save_routing : Generator → RoutingItem → ManagerState → Outcome
save_routing gen item state =
    if is_empty (trim item.id)
    then save_named gen true (record item { id = gen.routing_id state.routing_count })
        (record state { routing_count = suc state.routing_count })
    else save_named gen (not (row_exists item.id state.database.rows)) item state
