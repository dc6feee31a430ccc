-- ===== src/Statistics/ServerStat.antt =====
-- crates/voya-db/src/repos/server_stat.rs: the traffic of each profile, in all and of one day. The
-- table is a list of rows with different ids, as its primary key demands.
pub mod Laws
pub mod Sound
use voya_vpn.Base.{
  ℤ, pos, negsuc, ℕ, Bool, true, false, ◌&&◌, not, List, [], ◌∷◌, map, Option, none, some, ◌==◌,
  if◌then◌else◌, Text, text_eq, any,
}
use voya_vpn.Statistics.Integer.{max_zero, saturating_add}

pub record ServerStatItem : Type 0 where
  pub index_id : Text
  pub total_up : ℤ
  pub total_down : ℤ
  pub today_up : ℤ
  pub today_down : ℤ
  pub date_now : ℤ

abbrev pub Table : Type 0
Table = List ServerStatItem

abbrev i64_eq : ℤ → ℤ → Bool
i64_eq (pos a) (pos b) = a == b
i64_eq (negsuc a) (negsuc b) = a == b
i64_eq (pos a) (negsuc b) = false
i64_eq (negsuc a) (pos b) = false

-- `INSERT … ON CONFLICT(index_id) DO UPDATE`.
unfoldable pub upsert : ServerStatItem → Table → Table
upsert item [] = item ∷ []
upsert item (row ∷ rows) =
    let rest = upsert item rows in
    if text_eq item.index_id row.index_id then item ∷ rows else row ∷ rest

unfoldable pub get_stat : Text → Table → Option ServerStatItem
get_stat index_id [] = none
get_stat index_id (row ∷ rows) =
    let rest = get_stat index_id rows in if text_eq index_id row.index_id then some row else rest

-- Today's numbers begin again on another day.
unfoldable pub rolled : ℤ → ServerStatItem → ServerStatItem
rolled date_now row =
    if i64_eq row.date_now date_now
    then row
    else record row { today_up = pos 0; today_down = pos 0; date_now = date_now }

unfoldable pub new_stat : Text → ℤ → ServerStatItem
new_stat index_id date_now = record {
  index_id = index_id;
  total_up = pos 0;
  total_down = pos 0;
  today_up = pos 0;
  today_down = pos 0;
  date_now = date_now;
}

ensure_row : Text → ℤ → Option ServerStatItem → Table → ServerStatItem × Table
ensure_row index_id date_now none table =
    (new_stat index_id date_now, upsert (new_stat index_id date_now) table)
ensure_row index_id date_now (some row) table =
    if i64_eq row.date_now date_now
    then (row, table)
    else (rolled date_now row, upsert (rolled date_now row) table)

unfoldable pub ensure : Text → ℤ → Table → ServerStatItem × Table
unfolding ensure_row
ensure index_id date_now table = ensure_row index_id date_now (get_stat index_id table) table

unfoldable pub reset_rollover : ℤ → Table → Table
reset_rollover date_now [] = []
reset_rollover date_now (row ∷ rows) = rolled date_now row ∷ reset_rollover date_now rows

unfoldable pub with_traffic : ℤ → ℤ → ℤ → ServerStatItem → ServerStatItem
with_traffic date_now proxy_up proxy_down item = record item {
  today_up = saturating_add item.today_up (max_zero proxy_up);
  today_down = saturating_add item.today_down (max_zero proxy_down);
  total_up = saturating_add item.total_up (max_zero proxy_up);
  total_down = saturating_add item.total_down (max_zero proxy_down);
  date_now = date_now;
}

unfoldable pub add_traffic : Text → ℤ → ℤ → ℤ → Table → ServerStatItem × Table
add_traffic index_id date_now proxy_up proxy_down table =
    let (row, table') = ensure index_id date_now table in
    let item = with_traffic date_now proxy_up proxy_down row in (item, upsert item table')

unfoldable pub clone_stat : Text → Text → Table → Option ServerStatItem × Table
clone_stat index_id to_index_id table =
    if text_eq index_id to_index_id
    then (get_stat index_id table, table)
    else elim (get_stat index_id table) [
      | none ↦ (none, table)
      | some row ↦ (
        some (record row { index_id = to_index_id }),
        upsert (record row { index_id = to_index_id }) table,
      )
    ]

-- `DELETE … WHERE index_id NOT IN …`, with the ids of the profiles.
unfoldable pub delete_orphans : List Text → Table → Table
delete_orphans profile_ids [] = []
delete_orphans profile_ids (row ∷ rows) =
    let rest = delete_orphans profile_ids rows in
    if any (text_eq row.index_id) profile_ids then row ∷ rest else rest
