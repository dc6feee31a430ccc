-- ===== src/Routing/Rules.antt =====
-- crates/voya-app/src/routing/manager.rs: the rules of a routing.
pub mod Laws
pub mod Moves
use voya_vpn.Base.{
  ℕ, zero, suc, ℤ, pos, negsuc, ◌+◌, ◌-◌, Bool, true, false, not, ◌&&◌, List, [], ◌∷◌, ◌++◌, Option,
  none, some, ◌==◌, ltb, if◌then◌else◌, length, any, Text, text_eq, is_empty, trim,
}
use Prim.Native.Nat.{min}
use voya_vpn.Entities.Routing.{RulesItem, RoutingItem}
use voya_vpn.Groups.Profile.{contains}
use voya_vpn.Context.Env.{filter}
use voya_vpn.Routing.Table.{
  Database, Generator, ManagerState, RoutingManagerError, routing_not_found, missing_routing_id,
  negative_position, rule_not_found, Outcome, done, failed, panic, get_row, upsert_row,
  normalize_rules, normalize_routing_item,
}

pub data MoveAction : Type 0 where
  top up down bottom position : MoveAction

abbrev position_or_zero : Option ℤ → ℤ
position_or_zero none = pos 0
position_or_zero (some p) = p

abbrev position_index : ℕ → ℤ → Option ℕ
position_index count (pos n) = some (min n count)
position_index count (negsuc n) = none

-- The place in front of which the rule goes; `none` for a position that is negative.
unfoldable pub moved_index : ℕ → ℕ → MoveAction → Option ℤ → Option ℕ
moved_index index count top place = some 0
moved_index index count up place = some (index - 1)
moved_index index count down place = some (min (index + 2) count)
moved_index index count bottom place = some count
moved_index index count position place = position_index count (position_or_zero place)

-- `Vec::remove`: the element and the others; `none` out of range.
unfoldable pub remove_at {ℓ} : {A : Type ℓ} → ℕ → List A → Option (A × List A)
remove_at i [] = none
remove_at zero (x ∷ xs) = some (x, xs)
remove_at (suc i) (x ∷ xs) = elim (remove_at i xs) [
  | none ↦ none
  | some (y, rest) ↦ some (y, x ∷ rest)
]

-- `Vec::insert`; `none` out of range.
unfoldable pub insert_at {ℓ} : {A : Type ℓ} → ℕ → A → List A → Option (List A)
insert_at zero y xs = some (y ∷ xs)
insert_at (suc i) y [] = none
insert_at (suc i) y (x ∷ xs) = elim (insert_at i y xs) [ none ↦ none | some ys ↦ some (x ∷ ys) ]

-- Where the rule goes when it has been taken out.
abbrev pub adjusted : ℕ → ℕ → ℕ
adjusted index next = if ltb index next then next - 1 else next

-- Takes an element out and puts it in front of a place.
unfoldable pub moved {ℓ} : {A : Type ℓ} → ℕ → ℕ → List A → Option (List A)
moved index next xs = if next == index then some xs else elim (remove_at index xs) [
  | none ↦ none
  | some (x, rest) ↦ insert_at (adjusted index next) x rest
]

unfoldable pub rule_position : Text → List RulesItem → Option ℕ
rule_position id [] = none
rule_position id (rule ∷ rules) =
    let later = rule_position id rules in
    if text_eq rule.id id then some 0 else elim later [ none ↦ none | some i ↦ some (suc i) ]

-- Completes the routing and writes it.
unfoldable pub save_rules : Generator → RoutingItem → List RulesItem → ManagerState → Outcome
save_rules gen routing rules state =
    let (item, state') = normalize_routing_item gen (record routing { rule_set = rules }) state in
    done item (record state' {
      database = record state'.database { rows = upsert_row item state'.database.rows };
    })

unfoldable pub with_routing : Text → ManagerState → (RoutingItem → Outcome) → Outcome
with_routing routing_id state next =
    if is_empty (trim routing_id)
    then failed missing_routing_id
    else elim (get_row routing_id state.database.rows) [
      | none ↦ failed (routing_not_found routing_id)
      | some routing ↦ next routing
    ]

abbrev replaced_or_pushed : RulesItem → List RulesItem → List RulesItem
replaced_or_pushed rule [] = rule ∷ []
replaced_or_pushed rule (other ∷ rules) =
    let later = replaced_or_pushed rule rules in
    if text_eq other.id rule.id then rule ∷ rules else other ∷ later

abbrev pub first_of : List RulesItem × ℕ → RulesItem → RulesItem
first_of ([], count) d = d
first_of (rule ∷ rules, count) d = rule

unfoldable pub save_rule : Generator → Text → RulesItem → ManagerState → Outcome
save_rule gen routing_id rule state = with_routing routing_id state λ routing.
    let (named, count) = normalize_rules gen state.rule_count (rule ∷ []) in
    save_rules gen routing (replaced_or_pushed (first_of (named, count) rule) routing.rule_set)
      (record state { rule_count = count })

unfoldable pub delete_rules : Generator → Text → List Text → ManagerState → Outcome
delete_rules gen routing_id rule_ids state = with_routing routing_id state λ routing.
    let kept = filter (λ rule. not (contains rule.id rule_ids)) routing.rule_set in
    elim rule_ids [
      | [] ↦ save_rules gen routing kept state
      | first ∷ others ↦
          if length routing.rule_set == length kept
          then failed (rule_not_found routing_id first)
          else save_rules gen routing kept state
    ]

unfoldable pub save_moved :
    Generator → RoutingItem → Option (List RulesItem) → ManagerState → Outcome
save_moved gen routing none state = panic
save_moved gen routing (some rules) state = save_rules gen routing rules state

abbrev pub move_to : Generator → RoutingItem → ℕ → Option ℕ → ManagerState → Outcome
move_to gen routing index none state = failed negative_position
move_to gen routing index (some next) state =
    save_moved gen routing (moved index next routing.rule_set) state

unfoldable pub move_rule : Generator → Text → Text → MoveAction → Option ℤ → ManagerState → Outcome
move_rule gen routing_id rule_id action place state = with_routing routing_id state λ routing.
    elim (rule_position rule_id routing.rule_set) [
      | none ↦ failed (rule_not_found routing_id rule_id)
      | some index ↦
          move_to gen routing index (moved_index index (length routing.rule_set) action place) state
    ]
