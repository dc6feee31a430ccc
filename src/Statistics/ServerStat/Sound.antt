-- ===== src/Statistics/ServerStat/Sound.antt =====
-- The numbers of the table: today's are never more than those in all.
use voya_vpn.Base.{
  ℤ, pos, Le, List, [], ◌∷◌, Option, none, some, Text, text_eq, arith, Bool-cases, inl, inr, any,
  Each,
}
use voya_vpn.Statistics.Integer.{max_zero, saturating_add-Le, saturating_add_ge}
use voya_vpn.Statistics.ServerStat.{
  ServerStatItem, Table, i64_eq, upsert, get_stat, rolled, new_stat, ensure_row, ensure,
  reset_rollover, with_traffic, add_traffic, clone_stat, delete_orphans,
}

-- No total is negative, and today's traffic is not more than the total.
pub record IsSound (row : ServerStatItem) : Type 0 where
  pub up_ge : Le (pos 0) row.total_up
  pub down_ge : Le (pos 0) row.total_down
  pub up_le : Le row.today_up row.total_up
  pub down_le : Le row.today_down row.total_down

abbrev pub AreSound : Table → Type 0
AreSound [] = Unit
AreSound (row ∷ rows) = IsSound row × AreSound rows

-- The operations of the repository that write, with their arguments. The deletion of rows without a
-- profile is given the ids of the profiles.
pub data Operation : Type 0 where
  upserted : ServerStatItem → Operation
  ensured : Text → ℤ → Operation
  added : Text → ℤ → ℤ → ℤ → Operation
  rolled_over : ℤ → Operation
  cloned : Text → Text → Operation
  orphans_deleted : List Text → Operation

unfoldable pub run : Operation → Table → Table
run (upserted item) t = upsert item t
run (ensured index_id date_now) t = (ensure index_id date_now t).1
run (added index_id date_now up down) t = (add_traffic index_id date_now up down t).1
run (rolled_over date_now) t = reset_rollover date_now t
run (cloned index_id to_index_id) t = (clone_stat index_id to_index_id t).1
run (orphans_deleted profile_ids) t = delete_orphans profile_ids t

unfoldable pub run_all : List Operation → Table → Table
run_all [] t = t
run_all (operation ∷ operations) t = run_all operations (run operation t)

-- A row that is given as a whole is sound itself.
abbrev pub GivesSound : Operation → Type 0
GivesSound (upserted item) = IsSound item
GivesSound _ = Unit

upsert-AreSound :
    (item : ServerStatItem) (t : Table) → IsSound item → AreSound t → AreSound (upsert item t)
unfolding upsert
upsert-AreSound item [] s v = (s, tt)
upsert-AreSound item (row ∷ rows) s (r, v) =
    elim (Bool-cases (text_eq item.index_id row.index_id)) [
      | inl same ↦ rw (same, upsert) (s, v)
      | inr other ↦ rw (other, upsert) (r, upsert-AreSound item rows s v)
    ]

abbrev SoundIfAny : Option ServerStatItem → Type 0
SoundIfAny none = Unit
SoundIfAny (some row) = IsSound row

get_stat-SoundIfAny : (index_id : Text) (t : Table) → AreSound t → SoundIfAny (get_stat index_id t)
unfolding get_stat
get_stat-SoundIfAny index_id [] v = tt
get_stat-SoundIfAny index_id (row ∷ rows) (r, v) =
    elim (Bool-cases (text_eq index_id row.index_id)) [
      | inl same ↦ rw (same, get_stat) r
      | inr other ↦ rw (other, get_stat) (get_stat-SoundIfAny index_id rows v)
    ]

rolled-IsSound : (date_now : ℤ) (row : ServerStatItem) → IsSound row → IsSound (rolled date_now row)
unfolding rolled
rolled-IsSound date_now row s = elim (Bool-cases (i64_eq row.date_now date_now)) [
  | inl same ↦ rw (same, rolled) s
  | inr other ↦
      rw (other, rolled)
        (record { up_ge = s.up_ge; down_ge = s.down_ge; up_le = s.up_ge; down_le = s.down_ge })
]

new_stat-IsSound : (index_id : Text) (date_now : ℤ) → IsSound (new_stat index_id date_now)
unfolding new_stat
new_stat-IsSound index_id date_now = record {
  up_ge = omega arith;
  down_ge = omega arith;
  up_le = omega arith;
  down_le = omega arith;
}

ensure_row-IsSound :
    (index_id : Text) (date_now : ℤ) (o : Option ServerStatItem) (t : Table)
    → SoundIfAny o
    → AreSound t
    → IsSound (ensure_row index_id date_now o t).0 × AreSound (ensure_row index_id date_now o t).1
unfolding ensure_row
ensure_row-IsSound index_id date_now none t s v = (
  new_stat-IsSound index_id date_now,
  upsert-AreSound (new_stat index_id date_now) t (new_stat-IsSound index_id date_now) v,
)
ensure_row-IsSound index_id date_now (some row) t s v =
    elim (Bool-cases (i64_eq row.date_now date_now)) [
      | inl same ↦ rw (same, ensure_row) (s, v)
      | inr other ↦
          rw (other, ensure_row)
            (
              rolled-IsSound date_now row s,
              upsert-AreSound (rolled date_now row) t (rolled-IsSound date_now row s) v,
            )
    ]

ensure-IsSound :
    (index_id : Text) (date_now : ℤ) (t : Table)
    → AreSound t
    → IsSound (ensure index_id date_now t).0 × AreSound (ensure index_id date_now t).1
unfolding ensure
ensure-IsSound index_id date_now t v =
    ensure_row-IsSound index_id date_now (get_stat index_id t) t (get_stat-SoundIfAny index_id t v)
      v

with_traffic-IsSound :
    (date_now up down : ℤ) (row : ServerStatItem)
    → IsSound row
    → IsSound (with_traffic date_now up down row)
unfolding with_traffic
with_traffic-IsSound date_now up down row s = record {
  up_ge = saturating_add_ge row.total_up (max_zero up) s.up_ge;
  down_ge = saturating_add_ge row.total_down (max_zero down) s.down_ge;
  up_le = saturating_add-Le row.today_up row.total_up (max_zero up) s.up_le;
  down_le = saturating_add-Le row.today_down row.total_down (max_zero down) s.down_le;
}

reset_rollover-AreSound :
    (date_now : ℤ) (t : Table) → AreSound t → AreSound (reset_rollover date_now t)
unfolding reset_rollover
reset_rollover-AreSound date_now [] v = tt
reset_rollover-AreSound date_now (row ∷ rows) (r, v) =
    (rolled-IsSound date_now row r, reset_rollover-AreSound date_now rows v)

clone_stat-AreSound :
    (index_id to_index_id : Text) (t : Table)
    → AreSound t
    → AreSound (clone_stat index_id to_index_id t).1
unfolding clone_stat
clone_stat-AreSound index_id to_index_id t v = elim (Bool-cases (text_eq index_id to_index_id)) [
  | inl same ↦ rw same v
  | inr other ↦ rw other (by_row (get_stat index_id t) (get_stat-SoundIfAny index_id t v))
]
  where
    by_row :
        (o : Option ServerStatItem)
        → SoundIfAny o
        → AreSound
            (elim o as (λ _. Option ServerStatItem × Table) [
              | none ↦ (none, t)
              | some row ↦ (
                some (record row { index_id = to_index_id }),
                upsert (record row { index_id = to_index_id }) t,
              )
            ]).1
    by_row none s = v
    by_row (some row) s =
        upsert-AreSound (record row { index_id = to_index_id }) t
          (record { up_ge = s.up_ge; down_ge = s.down_ge; up_le = s.up_le; down_le = s.down_le }) v

add_traffic-AreSound :
    (index_id : Text) (date_now up down : ℤ) (t : Table)
    → AreSound t
    → AreSound (add_traffic index_id date_now up down t).1
unfolding add_traffic
add_traffic-AreSound index_id date_now up down t v =
    let (row, table) = ensure-IsSound index_id date_now t v in
    upsert-AreSound _ (ensure index_id date_now t).1
      (with_traffic-IsSound date_now up down (ensure index_id date_now t).0 row) table

delete_orphans-AreSound :
    (profile_ids : List Text) (t : Table) → AreSound t → AreSound (delete_orphans profile_ids t)
unfolding delete_orphans
delete_orphans-AreSound profile_ids [] v = tt
delete_orphans-AreSound profile_ids (row ∷ rows) (r, v) =
    elim (Bool-cases (any (text_eq row.index_id) profile_ids)) [
      | inl kept ↦ rw (kept, delete_orphans) (r, delete_orphans-AreSound profile_ids rows v)
      | inr gone ↦ rw (gone, delete_orphans) (delete_orphans-AreSound profile_ids rows v)
    ]

run-AreSound :
    (operation : Operation) (t : Table)
    → GivesSound operation
    → AreSound t
    → AreSound (run operation t)
unfolding run
run-AreSound (upserted item) t s v = upsert-AreSound item t s v
run-AreSound (ensured index_id date_now) t s v = (ensure-IsSound index_id date_now t v).1
run-AreSound (added index_id date_now up down) t s v =
    add_traffic-AreSound index_id date_now up down t v
run-AreSound (rolled_over date_now) t s v = reset_rollover-AreSound date_now t v
run-AreSound (cloned index_id to_index_id) t s v = clone_stat-AreSound index_id to_index_id t v
run-AreSound (orphans_deleted profile_ids) t s v = delete_orphans-AreSound profile_ids t v

-- Whatever operations of the repository follow each other, a sound table stays sound, where the rows that
-- are written as they are given are sound: no total becomes negative, by an overflow or otherwise,
-- and today's traffic is never more than the total, for whatever traffic is reported on whatever
-- days.
pub run_all-AreSound :
    (operations : List Operation) (t : Table)
    → Each GivesSound operations
    → AreSound t
    → AreSound (run_all operations t)
unfolding run_all
run_all-AreSound [] t each v = v
run_all-AreSound (operation ∷ operations) t (given, each) v =
    run_all-AreSound operations (run operation t) each (run-AreSound operation t given v)
