-- ===== src/Statistics/Tests.antt =====
-- A table of one profile, over two days.
use voya_vpn.Base.{
  pos, negsuc, ◌≡◌, ◌≤◌, refl, List, [], ◌∷◌, some, Text, text_eq, if◌then◌else◌, codes, arith, ◌+◌,
  ◌/◌,
}
use voya_vpn.Statistics.Integer.{max_zero, saturating_add}
use voya_vpn.Statistics.ServerStat.{
  ServerStatItem, Table, get_stat, rolled, ensure, with_traffic, add_traffic,
}
use voya_vpn.Statistics.ServerStat.Sound.{
  AreSound, Operation, added, upserted, cloned, orphans_deleted, rolled_over, run_all,
  run_all-AreSound,
}
use voya_vpn.Statistics.ServerStat.Laws.{Added, add_traffic-get_stat}
use voya_vpn.Statistics.Reconnect.{duration_max, websocket_reconnect_delay}
use voya_vpn.Statistics.Reconnect.Laws.{doubled, websocket_reconnect_delay-bounds}

abbrev home : Text
home = codes "home"

abbrev row : ServerStatItem
row = record {
  index_id = home;
  total_up = pos 30;
  total_down = pos 50;
  today_up = pos 10;
  today_down = pos 50;
  date_now = pos 1;
}

abbrev table : Table
table = row ∷ []

table-AreSound : AreSound table
table-AreSound = (
  record { up_ge = omega arith; down_ge = omega arith; up_le = omega arith; down_le = omega arith },
  tt,
)

-- Traffic on the next day, a row that is written, a copy of it, and a new day.
abbrev history : List Operation
history =
    added home (pos 2) (pos 5) (negsuc 3)
    ∷ upserted (record row { index_id = codes "away" })
    ∷ cloned (codes "away") home
    ∷ orphans_deleted (home ∷ [])
    ∷ rolled_over (pos 3)
    ∷ []

run_all-AreSound_example : AreSound (run_all history table)
run_all-AreSound_example =
    run_all-AreSound history table
      (
        tt,
        (
          record {
            up_ge = omega arith;
            down_ge = omega arith;
            up_le = omega arith;
            down_le = omega arith;
          },
          (tt, (tt, (tt, tt))),
        ),
      )
      table-AreSound

add_traffic-get_stat_example :
    Added home
      (pos 2)
      (pos 5)
      (negsuc 3)
      (get_stat home table)
      (add_traffic home (pos 2) (pos 5) (negsuc 3) table).0
    × (get_stat (codes "away") (add_traffic home (pos 2) (pos 5) (negsuc 3) table).1 ≡ (
        if text_eq (codes "away") home
        then some (add_traffic home (pos 2) (pos 5) (negsuc 3) table).0
        else get_stat (codes "away") table))
add_traffic-get_stat_example =
    add_traffic-get_stat home (pos 2) (pos 5) (negsuc 3) table (codes "away")

next_day :
    (add_traffic home (pos 2) (pos 5) (negsuc 3) table).0
    ≡ record row { total_up = pos 35; today_up = pos 5; today_down = pos 0; date_now = pos 2 }
unfolding add_traffic ensure get_stat rolled with_traffic saturating_add max_zero
next_day = refl

websocket_reconnect_delay-bounds_example :
    (doubled 3 1_000_000_000 30_000_000_000
      ≤ websocket_reconnect_delay 3 1_000_000_000 30_000_000_000 77)
    × (websocket_reconnect_delay 3 1_000_000_000 30_000_000_000 77
        ≤ doubled 3 1_000_000_000 30_000_000_000 + doubled 3 1_000_000_000 30_000_000_000 / 4)
    × (websocket_reconnect_delay 3 1_000_000_000 30_000_000_000 77 ≤ duration_max)
websocket_reconnect_delay-bounds_example =
    websocket_reconnect_delay-bounds 3 1_000_000_000 30_000_000_000 77 (omega arith)
