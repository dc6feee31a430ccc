-- ===== src/Routing/Active/Commands.antt =====
-- Every command of the manager keeps the setting in step with the active routing.
use voya_vpn.Base.{
  ℕ, ℤ, ◌≡◌, refl, Bool, true, false, not, ◌==◌, List, [], ◌∷◌, Option, none, some, if◌then◌else◌,
  length, Text, is_empty, trim, Bool-cases, inl, inr,
}
use voya_vpn.Entities.Routing.{RulesItem, RoutingItem}
use voya_vpn.Groups.Profile.{contains}
use voya_vpn.Context.Env.{filter}
use voya_vpn.Routing.Table.{
  Generator, ManagerState, Outcome, done, failed, panic, get_row, active_row, set_active,
  row_exists, normalize_routing_item, routing_not_found, rule_not_found,
}
use voya_vpn.Routing.Rules.{
  MoveAction, save_rules, with_routing, save_rule, delete_rules, save_moved, move_to, move_rule,
  moved, moved_index, rule_position,
}
use voya_vpn.Routing.Active.{
  answer, ensure_active_routing, delete_routings, set_active_routing, save_named, save_routing,
}
use voya_vpn.Routing.Active.Puts.{put-IsInStep}
use voya_vpn.Routing.Active.Laws.{IsInStep, get_row-id, ensure_active_routing-IsInStep}

pub data Command : Type 0 where
  save : RoutingItem → Command
  delete : List Text → Command
  activate_id : Text → Command
  save_rule_of : Text → RulesItem → Command
  delete_rules_of : Text → List Text → Command
  move_rule_of : Text → Text → MoveAction → Option ℤ → Command

-- The state after an operation; one that fails has changed nothing.
abbrev pub state_after : ManagerState → Outcome → ManagerState
state_after before (done item state) = state
state_after before (failed error) = before
state_after before panic = before

unfoldable pub run : Generator → Command → ManagerState → ManagerState
run gen (save item) state = state_after state (save_routing gen item state)
run gen (delete ids) state = delete_routings ids state
run gen (activate_id id) state = state_after state (set_active_routing id state)
run gen (save_rule_of routing rule) state = state_after state (save_rule gen routing rule state)
run gen (delete_rules_of routing ids) state = state_after state (delete_rules gen routing ids state)
run gen (move_rule_of routing rule action place) state =
    state_after state (move_rule gen routing rule action place state)

abbrev KeepsStep : ManagerState → Outcome → Type 0
KeepsStep before outcome = IsInStep (state_after before outcome)

save_rules-KeepsStep :
    (gen : Generator) (routing found : RoutingItem) (id : Text) (rules : List RulesItem)
    (before state : ManagerState)
    → get_row id state.database.rows ≡ some found
    → IsInStep state
    → KeepsStep before (save_rules gen routing rules state)
unfolding save_rules normalize_routing_item
save_rules-KeepsStep gen routing found id rules before state e step =
    put-IsInStep state _ found id e step

with_routing-KeepsStep :
    (id : Text) (state : ManagerState) (next : RoutingItem → Outcome)
    → IsInStep state
    → ((routing : RoutingItem)
        → get_row id state.database.rows ≡ some routing
        → KeepsStep state (next routing))
    → KeepsStep state (with_routing id state next)
unfolding with_routing
with_routing-KeepsStep id state next step keeps = elim (Bool-cases (is_empty (trim id))) [
  | inl blank ↦ rw blank step
  | inr named ↦ rw named (by_row (get_row id state.database.rows) refl)
]
  where
    by_row :
        (o : Option RoutingItem)
        → get_row id state.database.rows ≡ o
        → KeepsStep state (elim o as (λ _. Outcome) [
          | none ↦ failed (routing_not_found id)
          | some routing ↦ next routing
        ])
    by_row none e = step
    by_row (some routing) e = keeps routing e

module _ (gen : Generator) (state : ManagerState) (step : IsInStep state) where
  save_rule-KeepsStep :
      (id : Text) (rule : RulesItem) → KeepsStep state (save_rule gen id rule state)
  unfolding save_rule
  save_rule-KeepsStep id rule =
      with_routing-KeepsStep id state _ step
        λ routing e. save_rules-KeepsStep gen routing routing id _ state _ e step

  delete_rules-KeepsStep :
      (id : Text) (rule_ids : List Text) → KeepsStep state (delete_rules gen id rule_ids state)
  unfolding delete_rules
  delete_rules-KeepsStep id [] =
      with_routing-KeepsStep id state _ step
        λ routing e. save_rules-KeepsStep gen routing routing id _ state state e step
  delete_rules-KeepsStep id (first ∷ others) = with_routing-KeepsStep id state _ step λ routing e.
      by_length routing e (
        length routing.rule_set
        == length (filter (λ rule. not (contains rule.id (first ∷ others))) routing.rule_set))
    where
      by_length :
          (routing : RoutingItem)
          → get_row id state.database.rows ≡ some routing
          → (b : Bool)
          → KeepsStep state (
              if b
              then failed (rule_not_found id first)
              else save_rules gen routing
                  (filter (λ rule. not (contains rule.id (first ∷ others))) routing.rule_set)
                  state)
      by_length routing e true = step
      by_length routing e false = save_rules-KeepsStep gen routing routing id _ state state e step

  move_rule-KeepsStep :
      (id rule_id : Text) (action : MoveAction) (place : Option ℤ)
      → KeepsStep state (move_rule gen id rule_id action place state)
  unfolding move_rule save_moved
  move_rule-KeepsStep id rule_id action place =
      with_routing-KeepsStep id state _ step
        λ routing e. by_position routing e (rule_position rule_id routing.rule_set)
    where
      by_moved :
          (routing : RoutingItem)
          → get_row id state.database.rows ≡ some routing
          → (o : Option (List RulesItem)) → KeepsStep state (save_moved gen routing o state)
      by_moved routing e none = step
      by_moved routing e (some rules) =
          save_rules-KeepsStep gen routing routing id rules state state e step

      by_index :
          (routing : RoutingItem)
          → get_row id state.database.rows ≡ some routing
          → (index : ℕ) (o : Option ℕ) → KeepsStep state (move_to gen routing index o state)
      by_index routing e index none = step
      by_index routing e index (some next) = by_moved routing e (moved index next routing.rule_set)

      by_position :
          (routing : RoutingItem)
          → get_row id state.database.rows ≡ some routing
          → (o : Option ℕ)
          → KeepsStep state (elim o as (λ _. Outcome) [
            | none ↦ failed (rule_not_found id rule_id)
            | some index ↦
                move_to gen routing index
                  (moved_index index (length routing.rule_set) action place)
                  state
          ])
      by_position routing e none = step
      by_position routing e (some index) =
          by_index routing e index (moved_index index (length routing.rule_set) action place)

  set_active_routing-KeepsStep : (id : Text) → KeepsStep state (set_active_routing id state)
  unfolding set_active_routing set_active row_exists active_row
  set_active_routing-KeepsStep id = elim (Bool-cases (is_empty (trim id))) [
    | inl blank ↦ rw blank step
    | inr named ↦ rw named (by_row (get_row id state.database.rows) refl)
  ]
    where
      by_row :
          (o : Option RoutingItem)
          → get_row id state.database.rows ≡ o
          → KeepsStep state (elim o as (λ _. Outcome) [
            | none ↦ failed (routing_not_found id)
            | some row ↦
                done row
                  (record state { database = set_active id state.database; routing_index_id = id })
          ])
      by_row none e = step
      by_row (some row) e =
          rw (e, set_active, row_exists) (rw e (get_row-id id state.database.rows row e))

  answer-KeepsStep :
      (id : Text) (after : ManagerState) (o : Option RoutingItem)
      → IsInStep after
      → KeepsStep state (answer id after o)
  answer-KeepsStep id after none s = step
  answer-KeepsStep id after (some row) s = s

  save_named-KeepsStep :
      (before : ManagerState) (is_new : Bool) (item : RoutingItem)
      → KeepsStep state (save_named gen is_new item before)
  unfolding save_named
  save_named-KeepsStep before is_new item =
      answer-KeepsStep _ (ensure_active_routing _) _ (ensure_active_routing-IsInStep _)

  save_routing-KeepsStep : (item : RoutingItem) → KeepsStep state (save_routing gen item state)
  unfolding save_routing
  save_routing-KeepsStep item = elim (Bool-cases (is_empty (trim item.id))) [
    | inl blank ↦ rw blank (save_named-KeepsStep _ true _)
    | inr named ↦ rw named (save_named-KeepsStep state _ item)
  ]

  -- Every command keeps the setting in step with the active routing: the setting is the id of the
  -- active routing, and there is an active one unless there is no routing at all.
  pub run-IsInStep : (command : Command) → IsInStep (run gen command state)
  unfolding run delete_routings
  run-IsInStep (save item) = save_routing-KeepsStep item
  run-IsInStep (delete ids) = ensure_active_routing-IsInStep _
  run-IsInStep (activate_id id) = set_active_routing-KeepsStep id
  run-IsInStep (save_rule_of id rule) = save_rule-KeepsStep id rule
  run-IsInStep (delete_rules_of id rule_ids) = delete_rules-KeepsStep id rule_ids
  run-IsInStep (move_rule_of id rule_id action place) = move_rule-KeepsStep id rule_id action place
