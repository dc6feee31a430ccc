-- ===== src/Routing/Rules/Laws.antt =====
-- No operation on rules has an index out of range.
use voya_vpn.Base.{
  ℕ, suc, ℤ, ◌<◌, ◌≡◌, ◌≢◌, refl, List, [], ◌∷◌, Option, none, some, length, Text, text_eq,
  is_empty, trim, arith, Bool-cases, inl, inr, subst,
}
use voya_vpn.Entities.Routing.{RulesItem, RoutingItem}
use voya_vpn.Routing.Table.{
  Generator, ManagerState, Outcome, done, failed, panic, get_row, routing_not_found, rule_not_found,
}
use voya_vpn.Routing.Rules.{
  MoveAction, moved_index, rule_position, save_rules, with_routing, save_moved, move_to, move_rule,
}
use voya_vpn.Routing.Rules.Moves.{moved-place_of}

rule_position-lt :
    (id : Text) (rules : List RulesItem) (i : ℕ)
    → rule_position id rules ≡ some i
    → i < length rules
unfolding rule_position
rule_position-lt id [] i e = absurd (cc)
rule_position-lt id (rule ∷ rules) i e = elim (Bool-cases (text_eq rule.id id)) [
  | inl here ↦ let f = rw here at e in ground (arith, f)
  | inr other ↦
      by_later (rule_position id rules) (λ j f. rule_position-lt id rules j f) (rw other at e)
]
  where
    by_later :
        (o : Option ℕ)
        → ((j : ℕ) → o ≡ some j → j < length rules)
        → (elim o as (λ _. Option ℕ) [ none ↦ none | some j ↦ some (suc j) ]) ≡ some i
        → i < suc (length rules)
    by_later none h f = absurd (cc)
    by_later (some j) h f = let lt = h j refl in ground (arith, f, lt)

-- The outcome is no panic.
abbrev IsSafe : Outcome → Type 0
IsSafe (done item state) = Unit
IsSafe (failed error) = Unit
IsSafe panic = ⊥

save_rules-IsSafe :
    (gen : Generator) (routing : RoutingItem) (rules : List RulesItem) (state : ManagerState)
    → IsSafe (save_rules gen routing rules state)
unfolding save_rules
save_rules-IsSafe gen routing rules state = tt

with_routing-IsSafe :
    (routing_id : Text) (state : ManagerState) (next : RoutingItem → Outcome)
    → ((routing : RoutingItem) → IsSafe (next routing))
    → IsSafe (with_routing routing_id state next)
unfolding with_routing
with_routing-IsSafe routing_id state next safe = elim (Bool-cases (is_empty (trim routing_id))) [
  | inl blank ↦ rw blank tt
  | inr named ↦ rw named (by_row (get_row routing_id state.database.rows))
]
  where
    by_row :
        (o : Option RoutingItem)
        → IsSafe (elim o as (λ _. Outcome) [
          | none ↦ failed (routing_not_found routing_id)
          | some routing ↦ next routing
        ])
    by_row none = tt
    by_row (some routing) = safe routing

module _ (gen : Generator) (routing_id rule_id : Text) (action : MoveAction) (place : Option ℤ)
    (state : ManagerState) where
  moved-IsSafe :
      (routing : RoutingItem) (index : ℕ) (o : Option ℕ)
      → index < length routing.rule_set
      → moved_index index (length routing.rule_set) action place ≡ o
      → IsSafe (move_to gen routing index o state)
  unfolding save_moved
  moved-IsSafe routing index none h e = tt
  moved-IsSafe routing index (some next) h e =
      let (ys, (m, r)) = moved-place_of action place index next routing.rule_set h e in
      rw m (save_rules-IsSafe gen routing ys state)

  -- Moving a rule never reaches an index out of range, whatever the routing, the rule, the action
  -- and the position are.
  pub move_rule_total : move_rule gen routing_id rule_id action place state ≢ panic
  unfolding move_rule
  move_rule_total e = subst IsSafe e (with_routing-IsSafe routing_id state _ safe)
    where
      by_position :
          (routing : RoutingItem) (o : Option ℕ)
          → rule_position rule_id routing.rule_set ≡ o
          → IsSafe (elim o as (λ _. Outcome) [
            | none ↦ failed (rule_not_found routing_id rule_id)
            | some index ↦
                move_to gen routing index
                  (moved_index index (length routing.rule_set) action place)
                  state
          ])
      by_position routing none f = tt
      by_position routing (some index) f =
          moved-IsSafe routing index (moved_index index (length routing.rule_set) action place)
            (rule_position-lt rule_id routing.rule_set index f) refl

      safe :
          (routing : RoutingItem)
          → IsSafe (elim (rule_position rule_id routing.rule_set) as (λ _. Outcome) [
            | none ↦ failed (rule_not_found routing_id rule_id)
            | some index ↦
                move_to gen routing index
                  (moved_index index (length routing.rule_set) action place)
                  state
          ])
      safe routing = by_position routing (rule_position rule_id routing.rule_set) refl
