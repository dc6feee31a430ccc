-- ===== src/Context/Traverse/Terminates.antt =====
-- The traversal of a group ends within its fuel, however the groups refer to each other.
use voya_vpn.Base.{
  ℕ, zero, suc, ◌<◌, ◌≡◌, refl, true, false, List, [], ◌∷◌, Option, none, some, Text, text_eq,
  text_eq_refl, arith, length, Bool-cases, inl, inr, for_each, Returns, Each, Each-map,
  for_each-Returns,
}
use voya_vpn.Entities.{is_group_type, ProfileItem, config_type}
use voya_vpn.Groups.Profile.{contains}
use voya_vpn.Groups.Cycle.Laws.{unvisited, unvisited_le, unvisited-lt}
use voya_vpn.Context.Library.{Library}
use voya_vpn.Context.Messages.{group_child_group}
use voya_vpn.Context.Env.{SnapshotCoreGenEnv}
use voya_vpn.Context.Env.Laws.{children-Each}
use voya_vpn.Context.Register.{CoreConfigContext}
use voya_vpn.Context.Maps.{or_true}
use voya_vpn.Context.Traverse.{
  group_child_profile_items, Traversal, ChildLoop, Traversed, after_child, visit_child, start_loop,
  finish_if_any, traverse_group_node, context_of, register_group_node, register_node,
}

abbrev profile_ids : List ProfileItem → List Text
profile_ids [] = []
profile_ids (p ∷ ps) = p.index_id ∷ profile_ids ps

length-profile_ids : (ps : List ProfileItem) → length (profile_ids ps) ≡ length ps
length-profile_ids [] = refl
length-profile_ids (p ∷ ps) = omega (arith, length-profile_ids ps)

abbrev IsListed : List Text → ProfileItem → Type 0
IsListed ids profile = contains profile.index_id ids ≡ true

listed : (ps : List ProfileItem) → Each (IsListed (profile_ids ps)) ps
unfolding contains
listed [] = tt
listed (p ∷ ps) = (
  rw (text_eq_refl p.index_id) refl,
  Each-map (IsListed (profile_ids ps)) (IsListed (p.index_id ∷ profile_ids ps)) ps
      (λ x h. rw h (or_true (text_eq x.index_id p.index_id))) (listed ps),
)

visit_child-Returns :
    (lib : Library) (next : List Text → ProfileItem → Traversal → Option Traversed)
    (ancestors : List Text) (node child : ProfileItem) (loop : ChildLoop)
    → (contains child.index_id ancestors ≡ false
        → Returns (next (child.index_id ∷ ancestors) child loop.traversal))
    → Returns (visit_child lib next ancestors node child loop)
unfolding visit_child
visit_child-Returns lib next ancestors node child loop below =
    elim (Bool-cases (contains child.index_id ancestors)) [
      | inl cycle ↦ rw cycle tt
      | inr outside ↦
          rw outside (elim (Bool-cases (contains child.index_id loop.traversal.global_visited)) [
            | inl visited ↦ rw visited tt
            | inr new ↦ rw new (elim (Bool-cases (is_group_type (config_type child.protocol))) [
              | inl group ↦ rw group (
                  by_group (next (child.index_id ∷ ancestors) child loop.traversal) (below outside))
              | inr no_group ↦ rw no_group tt
            ])
          ])
    ]
  where
    by_group :
        (o : Option Traversed)
        → Returns o
        → Returns (elim o [
          | none ↦ none
          | some traversed ↦
              some (after_child (group_child_group node.remarks child.remarks) child traversed loop)
        ])
    by_group none h = absurd h
    by_group (some traversed) h = tt

module _ (lib : Library) (env : SnapshotCoreGenEnv) where
  -- More fuel than ids of the snapshot that are no ancestors is enough.
  traverse-Returns :
      (fuel : ℕ) (ancestors : List Text) (node : ProfileItem) (t : Traversal)
      → unvisited (profile_ids env.profiles) ancestors < fuel
      → Returns (traverse_group_node lib env fuel ancestors node t)
  unfolding traverse_group_node
  traverse-Returns zero ancestors node t enough = absurd (omega arith)
  traverse-Returns (suc fuel) ancestors node t enough =
      by_loop
        (for_each (visit_child lib (traverse_group_node lib env fuel) ancestors node)
          (group_child_profile_items lib env node.protocol) (start_loop t))
        (for_each-Returns (IsListed (profile_ids env.profiles)) _
          (group_child_profile_items lib env node.protocol) (start_loop t)
          (λ child loop among.
            visit_child-Returns lib (traverse_group_node lib env fuel) ancestors node child loop
              λ outside.
                let fewer =
                  unvisited-lt child.index_id (profile_ids env.profiles) ancestors outside among in
                traverse-Returns fuel (child.index_id ∷ ancestors) child loop.traversal
                  (omega (arith, fewer, enough)))
          (children-Each lib env (IsListed (profile_ids env.profiles)) node.protocol
            (listed env.profiles)))
    where
      by_loop : (o : Option ChildLoop) → Returns o → Returns (finish_if_any node o)
      by_loop none h = absurd h
      by_loop (some loop) h = tt

  pub register_node-Returns :
      (node : ProfileItem) (context : CoreConfigContext)
      → Returns (register_node lib env node context)
  unfolding register_node register_group_node
  register_node-Returns node context =
      elim (Bool-cases (is_group_type (config_type node.protocol))) [
        | inl group ↦ rw group (
            by_traversal _ (
              let few = unvisited_le (profile_ids env.profiles) (node.index_id ∷ []) in
              let many = length-profile_ids env.profiles in
              traverse-Returns (suc (length env.profiles)) (node.index_id ∷ []) node
                (record { context = context; global_visited = node.index_id ∷ [] })
                (omega (arith, few, many))))
        | inr no_group ↦ rw no_group tt
      ]
    where
      by_traversal : (o : Option Traversed) → Returns o → Returns (context_of o)
      by_traversal none h = absurd h
      by_traversal (some traversed) h = tt
