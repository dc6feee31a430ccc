-- ===== src/Context/Traverse/Keeps.antt =====
-- What registrations keep: any property of contexts that the two ways of registering keep.
use voya_vpn.Base.{
  ℕ, zero, suc, ◌≡◌, refl, List, [], ◌∷◌, Option, none, some, Text, Bool-cases, inl, inr, Gives,
  for_each-Gives, Each-trivial,
}
use voya_vpn.Entities.{is_group_type, ProfileItem, config_type}
use voya_vpn.Groups.Profile.{contains}
use voya_vpn.Context.Library.{Library}
use voya_vpn.Context.Messages.{
  Message, NodeValidatorResult, group_child, group_child_group, success,
}
use voya_vpn.Context.Validation.{validate_node}
use voya_vpn.Context.Env.{SnapshotCoreGenEnv}
use voya_vpn.Context.Register.{CoreConfigContext, put_proxy, registered, register_single_node}
use voya_vpn.Context.Traverse.{
  group_child_profile_items, Traversal, ChildLoop, Traversed, push_unique_child_index, after_child,
  visit_single, visit_child, finish_group, start_loop, finish_if_any, traverse_group_node,
  context_of, register_group_node, register_node,
}

-- A property that registering a profile, and putting one into the map, keeps.
pub record IsKept (lib : Library) (P : CoreConfigContext → Type 0) : Type 0 where
  pub keeps_registered :
      (node : ProfileItem) (context : CoreConfigContext)
      → P context
      → P (registered lib node context)
  pub keeps_put :
      (key : Text) (node : ProfileItem) (context : CoreConfigContext)
      → P context
      → P (put_proxy key node context)

module _ (lib : Library) (env : SnapshotCoreGenEnv) (P : CoreConfigContext → Type 0)
    (kept : IsKept lib P) where
  abbrev Kept : Traversed → Type 0
  Kept (t, result) = P t.context

  abbrev KeptLoop : ChildLoop → Type 0
  KeptLoop loop = P loop.traversal.context

  abbrev pub KeptPair : CoreConfigContext × NodeValidatorResult → Type 0
  KeptPair (context, result) = P context

  push_unique-Kept :
      (id : Text) (loop : ChildLoop) → KeptLoop loop → KeptLoop (push_unique_child_index id loop)
  unfolding push_unique_child_index
  push_unique-Kept id loop h = elim (Bool-cases (contains id loop.child_index_seen)) [
    | inl seen ↦ rw seen h
    | inr new ↦ rw new h
  ]

  after_child-Kept :
      (prefix : Message → Message) (child : ProfileItem) (traversed : Traversed) (loop : ChildLoop)
      → Kept traversed
      → KeptLoop (after_child prefix child traversed loop)
  unfolding after_child
  after_child-Kept prefix child (t, result) loop h = elim (Bool-cases (success result)) [
    | inl ok ↦ rw ok (push_unique-Kept child.index_id _ h)
    | inr failed ↦ rw failed h
  ]

  register_single-Kept :
      (node : ProfileItem) (context : CoreConfigContext)
      → P context
      → P (register_single_node lib node context).0
  unfolding register_single_node
  register_single-Kept node context h =
      elim (Bool-cases (is_group_type (config_type node.protocol))) [
        | inl group ↦ rw group h
        | inr other ↦ rw other (elim (Bool-cases (success (validate_node lib node))) [
          | inl ok ↦ rw ok (kept.keeps_registered node context h)
          | inr failed ↦ rw failed h
        ])
      ]

  visit_child-Kept :
      (next : List Text → ProfileItem → Traversal → Option Traversed) (ancestors : List Text)
      (node child : ProfileItem) (loop : ChildLoop)
      → Gives Kept (next (child.index_id ∷ ancestors) child loop.traversal)
      → KeptLoop loop
      → Gives KeptLoop (visit_child lib next ancestors node child loop)
  unfolding visit_child visit_single
  visit_child-Kept next ancestors node child loop below h =
      elim (Bool-cases (contains child.index_id ancestors)) [
        | inl cycle ↦ rw cycle h
        | inr outside ↦
            rw outside (elim (Bool-cases (contains child.index_id loop.traversal.global_visited)) [
              | inl visited ↦ rw visited (push_unique-Kept child.index_id loop h)
              | inr new ↦ rw new (elim (Bool-cases (is_group_type (config_type child.protocol))) [
                | inl group ↦
                    rw group
                      (by_group (next (child.index_id ∷ ancestors) child loop.traversal) below)
                | inr no_group ↦ rw no_group (
                    after_child-Kept (group_child node.remarks child.remarks) child _ loop
                      (register_single-Kept child loop.traversal.context h))
              ])
            ])
      ]
    where
      by_group :
          (o : Option Traversed)
          → Gives Kept o
          → Gives KeptLoop (elim o [
            | none ↦ none
            | some traversed ↦
                some
                  (after_child (group_child_group node.remarks child.remarks) child traversed loop)
          ])
      by_group none k = tt
      by_group (some traversed) k =
          after_child-Kept (group_child_group node.remarks child.remarks) child traversed loop k

  finish-Kept :
      (node : ProfileItem) (o : Option ChildLoop)
      → Gives KeptLoop o
      → Gives Kept (finish_if_any node o)
  unfolding finish_group
  finish-Kept node none h = tt
  finish-Kept node (some loop) h = by_ids loop.child_index_ids refl
    where
      by_ids : (ids : List Text) → loop.child_index_ids ≡ ids → Kept (finish_group node loop)
      by_ids [] e = rw e h
      by_ids (id ∷ ids) e = rw e (kept.keeps_put node.index_id _ loop.traversal.context h)

  traverse-Kept :
      (fuel : ℕ) (ancestors : List Text) (node : ProfileItem) (t : Traversal)
      → P t.context
      → Gives Kept (traverse_group_node lib env fuel ancestors node t)
  unfolding traverse_group_node
  traverse-Kept zero ancestors node t h = tt
  traverse-Kept (suc fuel) ancestors node t h = finish-Kept node _ (
      for_each-Gives (λ x. Unit) KeptLoop _ (group_child_profile_items lib env node.protocol)
        (start_loop t)
        (λ child loop u k.
          visit_child-Kept (traverse_group_node lib env fuel) ancestors node child loop
            (traverse-Kept fuel (child.index_id ∷ ancestors) child loop.traversal k) k)
        (Each-trivial (group_child_profile_items lib env node.protocol)) h)

  -- The registration of any profile keeps the property.
  pub register_node-Kept :
      (node : ProfileItem) (context : CoreConfigContext)
      → P context
      → Gives KeptPair (register_node lib env node context)
  unfolding register_node register_group_node
  register_node-Kept node context h =
      elim (Bool-cases (is_group_type (config_type node.protocol))) [
        | inl group ↦ rw group (by_traversal _ (traverse-Kept _ (node.index_id ∷ []) node _ h))
        | inr no_group ↦ rw no_group (register_single-Kept node context h)
      ]
    where
      by_traversal : (o : Option Traversed) → Gives Kept o → Gives KeptPair (context_of o)
      by_traversal none k = tt
      by_traversal (some (t, result)) k = k
