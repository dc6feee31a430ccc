-- ===== src/Routing/Tests.antt =====
-- A routing of three rules.
use voya_vpn.Base.{
  ◌≡◌, ◌≢◌, refl, pos, arith, true, List, [], ◌∷◌, none, some, Text, codes, is_whitespace, trim,
  trim_start, show_number, ◌++◌,
}
use voya_vpn.Entities.Routing.{RulesItem, RoutingItem}
use voya_vpn.Context.Env.{find}
use voya_vpn.Routing.Table.{
  Generator, ManagerState, done, panic, get_row, upsert_row, active_row, normalize_rules,
  normalize_routing_item,
}
use voya_vpn.Routing.Rules.{
  down, position, moved_index, remove_at, insert_at, moved, rule_position, save_rules, with_routing,
  save_moved, move_rule,
}
use voya_vpn.Routing.Rules.Moves.{place_of, moved-place_of}
use voya_vpn.Routing.Rules.Laws.{move_rule_total}
use voya_vpn.Routing.Active.Laws.{IsInStep}
use voya_vpn.Routing.Active.Commands.{save, run, run-IsInStep}

abbrev gen : Generator
gen = record {
  routing_id = λ n. codes "routing-0-" ++ show_number n;
  rule_id = λ n. codes "rule-0-" ++ show_number n;
}

abbrev rule : Text → RulesItem
rule id = record { id = id; remarks = none; enabled = true; outbound_tag = none }

abbrev routing : RoutingItem
routing = record {
  id = codes "r";
  remarks = codes "R";
  rule_set = rule (codes "a") ∷ rule (codes "b") ∷ rule (codes "c") ∷ [];
  domain_strategy = codes "AsIs";
  sort = pos 10;
}

abbrev state : ManagerState
state = record {
  database = record { rows = routing ∷ []; active_routing_id = some (codes "r") };
  routing_index_id = codes "r";
  routing_count = 1;
  rule_count = 1;
}

abbrev reordered : RoutingItem
reordered = record routing {
  rule_set = rule (codes "b") ∷ rule (codes "a") ∷ rule (codes "c") ∷ [];
}

moved_down :
    move_rule gen (codes "r") (codes "a") down none state
    ≡ done reordered (record state {
      database = record { rows = reordered ∷ []; active_routing_id = some (codes "r") };
    })
unfolding move_rule with_routing save_moved save_rules rule_position moved moved_index remove_at
    insert_at normalize_routing_item normalize_rules upsert_row get_row find trim trim_start
    is_whitespace
moved_down = refl

move_rule_total_example :
    move_rule gen (codes "r") (codes "c") position (some (pos 9)) state ≢ panic
move_rule_total_example = move_rule_total gen (codes "r") (codes "c") position (some (pos 9)) state

to_third : moved_index 0 3 down none ≡ some 2
unfolding moved_index
to_third = refl

moved-place_of_example :
    (ys : List RulesItem) × ((moved 0 2 routing.rule_set ≡ some ys)
      × (remove_at (place_of down none 0 3) ys ≡ remove_at 0 routing.rule_set))
moved-place_of_example = moved-place_of down none 0 2 routing.rule_set (omega arith) to_third

in_step : IsInStep state
unfolding active_row get_row find
in_step = refl

run-IsInStep_example : IsInStep (run gen (save (record routing { id = [] })) state)
run-IsInStep_example = run-IsInStep gen state in_step (save (record routing { id = [] }))
