-- ===== src/Context/Traverse/Visit.antt =====
-- A visit to a child of a group keeps the invariant of the loop over the children.
use voya_vpn.Base.{
  ◌≡◌, refl, sym, ◌∙◌, true, false, List, [], ◌∷◌, ◌++◌, Option, none, some, Text, text_eq,
  eq_of_text_eq, text_eq_refl, subst, Bool-cases, inl, inr, ◌⊎◌, Gives,
}
use voya_vpn.Entities.{
  is_group_type, ProfileItem, ProfileProtocol, single, policy_group_of, proxy_chain_of, config_type,
  child_profile_ids,
}
use voya_vpn.Groups.Profile.{ProfileMap, contains, contains-append}
use voya_vpn.Context.Library.{Library}
use voya_vpn.Context.Messages.{Message, group_child, group_child_group, success}
use voya_vpn.Context.Validation.{validate_node}
use voya_vpn.Context.Register.{registered, register_single_node}
use voya_vpn.Context.Maps.{true_of_or_false, has_key, insert-has_key}
use voya_vpn.Context.Traverse.{
  Traversal, ChildLoop, Traversed, push_unique_child_index, after_child, visit_single, visit_child,
}
use voya_vpn.Context.Traverse.Closed.{some_inj, get-insert_same}
use voya_vpn.Context.Traverse.Settled.{
  is_remark, IsDone, ChildrenDone, IsSettled, Grows, grow, cons-Grows, insert-IsSettled,
  visit-IsSettled, enter-IsSettled, leave-IsSettled,
}

single_without_children :
    (protocol : ProfileProtocol) (c : Text)
    → is_group_type (config_type protocol) ≡ false
    → contains c (child_profile_ids protocol) ≡ true
    → ⊥
unfolding is_group_type config_type child_profile_ids contains
single_without_children (single protocol) c h among = absurd (cc)
single_without_children (policy_group_of ids subscription filter) c h among = absurd (cc)
single_without_children (proxy_chain_of ids) c h among = absurd (cc)

abbrev pub proxies : Traversal → ProfileMap
proxies t = t.context.all_proxies_map

-- The id is registered, with children that are done with.
abbrev pub IsReady : Text → Traversal → Text → Type 0
IsReady root t id =
    (has_key id (proxies t) ≡ true) × ChildrenDone root t.global_visited (proxies t) id

-- What a registration below the ancestors guarantees of the child it is for.
abbrev pub HasRegistered : Text → List Text → Traversal → Text → Traversed → Type 0
HasRegistered root ancestors t id (t', result) =
    IsSettled root ancestors (proxies t') t'.global_visited
    × Grows t.global_visited t'.global_visited
    × (success result ≡ true → IsReady root t' id)

module _ (root : Text) (ancestors : List Text) (start : List Text) where
  -- The invariant of the loop over the children.
  abbrev pub LoopSettled : ChildLoop → Type 0
  LoopSettled loop =
      IsSettled root ancestors (proxies loop.traversal) loop.traversal.global_visited
      × Grows start loop.traversal.global_visited
      × ((c : Text)
          → contains c loop.child_index_ids ≡ true
          → IsDone root loop.traversal.global_visited c)

  not_root :
      (id : Text)
      → contains id ancestors ≡ false
      → contains root ancestors ≡ true
      → text_eq id root ≡ false
  not_root id outside among = elim (Bool-cases (text_eq id root)) [
    | inl same ↦
        let here = subst (λ x. contains x ancestors ≡ false) (eq_of_text_eq id root same) outside in
        absurd (cc)
    | inr other ↦ other
  ]

  push-LoopSettled :
      (id : Text) (loop : ChildLoop)
      → LoopSettled loop
      → IsDone root loop.traversal.global_visited id
      → LoopSettled (push_unique_child_index id loop)
  unfolding push_unique_child_index
  push-LoopSettled id loop (s, g, done) here =
      elim (Bool-cases (contains id loop.child_index_seen)) [
        | inl seen ↦ rw seen (s, g, done)
        | inr new ↦ rw new (s, g, λ c among. pushed c (Bool-cases (text_eq c id)) among)
      ]
    where
      pushed :
          (c : Text)
          → (text_eq c id ≡ true) ⊎ (text_eq c id ≡ false)
          → contains c (loop.child_index_ids ++ (id ∷ [])) ≡ true
          → IsDone root loop.traversal.global_visited c
      pushed c (inl same) among =
          subst (IsDone root loop.traversal.global_visited) (sym (eq_of_text_eq c id same)) here
      pushed c (inr other) among = done c (
          let split = contains-append c id loop.child_index_ids in
          true_of_or_false (contains c loop.child_index_ids) (rw (split, other) at among))

  after_child-LoopSettled :
      (prefix : Message → Message) (child : ProfileItem) (traversed : Traversed) (loop : ChildLoop)
      → is_remark child.index_id ≡ false
      → contains child.index_id ancestors ≡ false
      → contains root ancestors ≡ true
      → LoopSettled loop
      → HasRegistered root ancestors loop.traversal child.index_id traversed
      → LoopSettled (after_child prefix child traversed loop)
  unfolding after_child contains
  after_child-LoopSettled prefix child (t, result) loop named outside among (s, g, done)
        (s', g', ready) =
      elim (Bool-cases (success result)) [
        | inl ok ↦ rw ok (
            push-LoopSettled child.index_id _
              (
                visit-IsSettled child.index_id s' outside (ready ok).0 (ready ok).1,
                (λ id h. cons-Grows child.index_id t.global_visited id (g' id (g id h))),
                λ c h. grow (cons-Grows child.index_id t.global_visited) (grow g' (done c h)),
              )
              (record {
                is_visited = rw (text_eq_refl child.index_id) refl;
                is_other = not_root child.index_id outside among;
                is_plain = named;
              }))
        | inr failed ↦ rw failed (s', (λ id h. g' id (g id h)), λ c h. grow g' (done c h))
      ]

  -- A profile that is no group is registered without children.
  pub register_single-HasRegistered :
      (lib : Library) (child : ProfileItem) (t : Traversal)
      → contains child.index_id t.global_visited ≡ false
      → is_group_type (config_type child.protocol) ≡ false
      → IsSettled root ancestors (proxies t) t.global_visited
      → HasRegistered root ancestors t child.index_id (
        record t { context = (register_single_node lib child t.context).0 },
        (register_single_node lib child t.context).1,
      )
  unfolding register_single_node registered contains
  register_single-HasRegistered lib child t new no_group s =
      rw no_group (elim (Bool-cases (success (validate_node lib child))) [
        | inl ok ↦ rw ok (
          insert-IsSettled child.index_id child s
              (λ done. let here = done.is_visited in absurd (cc))
              (λ c among. absurd (single_without_children child.protocol c no_group among)),
          (λ id h. h),
          λ r. (
            insert-has_key child.index_id child (proxies t),
            λ p c e among. absurd (
                single_without_children p.protocol c
                  (subst (λ x. is_group_type (config_type x.protocol) ≡ false)
                    (some_inj (
                      sym (
                        get-insert_same child.index_id child.index_id child (proxies t)
                          (text_eq_refl child.index_id))
                      ∙ e))
                    no_group)
                  among),
          ),
        )
        | inr failed ↦ rw failed (s, (λ id h. h), λ r. absurd (cc))
      ])

  pub visit_child-LoopSettled :
      (lib : Library) (next : List Text → ProfileItem → Traversal → Option Traversed)
      (node child : ProfileItem) (loop : ChildLoop)
      → is_remark child.index_id ≡ false
      → contains root ancestors ≡ true
      → ((t : Traversal)
          → IsSettled root (child.index_id ∷ ancestors) (proxies t) t.global_visited
          → Gives
              (HasRegistered root (child.index_id ∷ ancestors) t child.index_id)
              (next (child.index_id ∷ ancestors) child t))
      → LoopSettled loop
      → Gives LoopSettled (visit_child lib next ancestors node child loop)
  unfolding visit_child visit_single
  visit_child-LoopSettled lib next node child loop named among below (s, g, done) =
      elim (Bool-cases (contains child.index_id ancestors)) [
        | inl cycle ↦ rw cycle (s, g, done)
        | inr outside ↦
            rw outside (elim (Bool-cases (contains child.index_id loop.traversal.global_visited)) [
              | inl visited ↦ rw visited (
                  push-LoopSettled child.index_id loop (s, g, done)
                    (record {
                      is_visited = visited;
                      is_other = not_root child.index_id outside among;
                      is_plain = named;
                    }))
              | inr new ↦ rw new (elim (Bool-cases (is_group_type (config_type child.protocol))) [
                | inl group ↦ rw group (
                    by_group outside (next (child.index_id ∷ ancestors) child loop.traversal)
                      (below loop.traversal (enter-IsSettled child.index_id s new)))
                | inr no_group ↦ rw no_group (
                    after_child-LoopSettled (group_child node.remarks child.remarks) child _ loop
                      named outside among (s, g, done)
                      (register_single-HasRegistered lib child loop.traversal new no_group s))
              ])
            ])
      ]
    where
      by_group :
          contains child.index_id ancestors ≡ false
          → (o : Option Traversed)
          → Gives (HasRegistered root (child.index_id ∷ ancestors) loop.traversal child.index_id) o
          → Gives LoopSettled (elim o [
            | none ↦ none
            | some traversed ↦
                some
                  (after_child (group_child_group node.remarks child.remarks) child traversed loop)
          ])
      by_group outside none h = tt
      by_group outside (some (t, result)) (s', g', ready) =
          after_child-LoopSettled (group_child_group node.remarks child.remarks) child (t, result)
            loop named outside among (s, g, done) (leave-IsSettled child.index_id s', g', ready)
