-- ===== src/Context/Traverse/Invariant.antt =====
-- The traversal of a group keeps the invariant.
use voya_vpn.Base.{
  ℕ, zero, suc, ◌≡◌, refl, sym, ◌∙◌, true, false, List, [], ◌∷◌, ◌++◌, Option, none, some, Text,
  text_eq, text_eq_refl, subst, for_each, Gives, Each, for_each-Gives,
}
use voya_vpn.Entities.{
  ProfileItem, ProfileProtocol, single, policy_group_of, proxy_chain_of, child_profile_ids,
  replace_child_profile_ids,
}
use voya_vpn.Groups.Profile.{contains}
use voya_vpn.Context.Library.{Library}
use voya_vpn.Context.Messages.{Message, no_messages, success}
use voya_vpn.Context.Env.{SnapshotCoreGenEnv}
use voya_vpn.Context.Env.Laws.{children-Each}
use voya_vpn.Context.Maps.{or_true, insert-has_key}
use voya_vpn.Context.Traverse.{
  group_child_profile_items, Traversal, ChildLoop, visit_child, with_children, finish_group,
  start_loop, finish_if_any, traverse_group_node,
}
use voya_vpn.Context.Traverse.Closed.{some_inj, get-insert_same}
use voya_vpn.Context.Traverse.Grounded.{children_of}
use voya_vpn.Context.Traverse.Settled.{is_remark, IsDone, IsSettled, insert-IsSettled}
use voya_vpn.Context.Traverse.Visit.{proxies, HasRegistered, LoopSettled, visit_child-LoopSettled}

replaced_children :
    (ids : List Text) (protocol : ProfileProtocol) (c : Text)
    → contains c (child_profile_ids (replace_child_profile_ids ids protocol)) ≡ true
    → contains c ids ≡ true
unfolding child_profile_ids replace_child_profile_ids contains
replaced_children ids (single protocol) c h = absurd (cc)
replaced_children ids (policy_group_of old subscription filter) c h = h
replaced_children ids (proxy_chain_of old) c h = h

append-no_messages : (es : List Message) (e : Message) → no_messages (es ++ (e ∷ [])) ≡ true → ⊥
append-no_messages [] e h = absurd (cc)
append-no_messages (x ∷ es) e h = absurd (cc)

finish-HasRegistered :
    (root : Text) (ancestors : List Text) (t : Traversal) (node : ProfileItem) (loop : ChildLoop)
    → contains node.index_id ancestors ≡ true
    → LoopSettled root ancestors t.global_visited loop
    → HasRegistered root ancestors t node.index_id (finish_group node loop)
unfolding finish_group success with_children
finish-HasRegistered root ancestors t node loop among (s, g, done) =
    by_ids loop.child_index_ids refl
  where
    by_ids :
        (ids : List Text)
        → loop.child_index_ids ≡ ids
        → HasRegistered root ancestors t node.index_id (finish_group node loop)
    by_ids [] e = rw e (s, g, λ r. absurd (append-no_messages loop.child_result.errors _ r))
    by_ids (id ∷ ids) e = rw e (
      insert-IsSettled node.index_id (with_children (id ∷ ids) node) s
          (λ self. s.apart node.index_id among self) children,
      g,
      λ r. (
        insert-has_key node.index_id (with_children (id ∷ ids) node) (proxies loop.traversal),
        λ p c found listed. children c (
            subst (λ x. contains c (children_of x) ≡ true)
              (sym (
                some_inj (
                  sym (
                    get-insert_same node.index_id node.index_id (with_children (id ∷ ids) node)
                      (proxies loop.traversal) (text_eq_refl node.index_id))
                  ∙ found)))
              listed),
      ),
    )
      where
        children :
            (c : Text)
            → contains c (children_of (with_children (id ∷ ids) node)) ≡ true
            → IsDone root loop.traversal.global_visited c
        children c listed = done c (
            subst (λ x. contains c x ≡ true) (sym e)
              (replaced_children (id ∷ ids) node.protocol c listed))

-- The profiles of the snapshot have ids that are no keys of rules.
abbrev pub HasPlainId : ProfileItem → Type 0
HasPlainId profile = is_remark profile.index_id ≡ false

module _ (lib : Library) (env : SnapshotCoreGenEnv) (root : Text)
    (named : Each HasPlainId env.profiles) where
  -- Whatever the traversal of a group below its ancestors registers keeps the invariant, and the
  -- group is ready where it succeeds.
  pub traverse-HasRegistered :
      (fuel : ℕ) (ancestors : List Text) (node : ProfileItem) (t : Traversal)
      → contains root ancestors ≡ true
      → contains node.index_id ancestors ≡ true
      → IsSettled root ancestors (proxies t) t.global_visited
      → Gives
          (HasRegistered root ancestors t node.index_id)
          (traverse_group_node lib env fuel ancestors node t)
  unfolding traverse_group_node contains
  traverse-HasRegistered zero ancestors node t among own s = tt
  traverse-HasRegistered (suc fuel) ancestors node t among own s =
      by_loop
        (for_each (visit_child lib (traverse_group_node lib env fuel) ancestors node)
          (group_child_profile_items lib env node.protocol) (start_loop t))
        (for_each-Gives HasPlainId (LoopSettled root ancestors t.global_visited) _
          (group_child_profile_items lib env node.protocol) (start_loop t)
          (λ child loop named settled.
            visit_child-LoopSettled root ancestors t.global_visited lib
              (traverse_group_node lib env fuel) node child loop named among
              (λ t' s'.
                traverse-HasRegistered fuel (child.index_id ∷ ancestors) child t'
                  (rw among (or_true (text_eq root child.index_id)))
                  (rw (text_eq_refl child.index_id) refl) s')
              settled)
          (children-Each lib env HasPlainId node.protocol named)
          (s, (λ id h. h), λ c listed. absurd (cc)))
    where
      by_loop :
          (o : Option ChildLoop)
          → Gives (LoopSettled root ancestors t.global_visited) o
          → Gives (HasRegistered root ancestors t node.index_id) (finish_if_any node o)
      by_loop none h = tt
      by_loop (some loop) h = finish-HasRegistered root ancestors t node loop own h
