-- ===== src/Context/Build/Sound.antt =====
-- The map of a context: no dangling children, and no group that contains itself.
use voya_vpn.Base.{
  ◌≡◌, refl, sym, ◌∙◌, true, false, List, [], ◌∷◌, Option, none, some, subst, Text, text_eq,
  text_eq_refl, eq_of_text_eq, Bool-cases, inl, inr, Gives, Each,
}
use voya_vpn.Entities.{is_group_type, ProfileItem, config_type}
use voya_vpn.Groups.Profile.{ProfileMap, insert, get, contains}
use voya_vpn.Context.Library.{Library}
use voya_vpn.Context.Messages.{NodeValidatorResult, success}
use voya_vpn.Context.Env.{SnapshotCoreGenEnv}
use voya_vpn.Context.Register.{CoreConfigContext}
use voya_vpn.Context.Maps.{has_key}
use voya_vpn.Context.Traverse.{Traversed, context_of, register_group_node, register_node}
use voya_vpn.Context.Traverse.Closed.{
  IsClosed, empty-IsClosed, insert-IsClosed, some_inj, get-insert_other, get-insert_same,
}
use voya_vpn.Context.Traverse.Grounded.{
  children_of, IsGrounded, empty-IsGrounded, insert-IsGrounded_apart, insert-IsGrounded,
}
use voya_vpn.Context.Traverse.Settled.{is_remark, IsDone, IsSettled}
use voya_vpn.Context.Traverse.Visit.{HasRegistered, register_single-HasRegistered}
use voya_vpn.Context.Traverse.Invariant.{HasPlainId, traverse-HasRegistered}
use voya_vpn.Context.Build.{remark_key}

pub record IsSound (m : ProfileMap) : Type 0 where
  pub no_dangling : IsClosed m
  pub all_grounded : (id : Text) → IsGrounded m id
  pub plain :
      (id : Text) (p : ProfileItem) (c : Text)
      → get id m ≡ some p
      → contains c (children_of p) ≡ true
      → is_remark c ≡ false

-- Neither the id of the profile nor the ids of its children are keys of rules.
pub record IsPlain (p : ProfileItem) : Type 0 where
  pub plain_id : is_remark p.index_id ≡ false
  pub plain_children : (c : Text) → contains c (children_of p) ≡ true → is_remark c ≡ false

pub empty-IsSound : IsSound []
unfolding get
empty-IsSound = record {
  no_dangling = empty-IsClosed;
  all_grounded = empty-IsGrounded;
  plain = λ id p c e among. absurd (cc);
}

start-IsSettled :
    (root : Text) (ancestors visited : List Text) (m : ProfileMap)
    → ((id : Text) → IsDone root visited id → ⊥)
    → IsSound m
    → IsSettled root ancestors m visited
start-IsSettled root ancestors visited m nothing s = record {
  no_dangling = s.no_dangling;
  all_grounded = s.all_grounded;
  present = λ id done. absurd (nothing id done);
  inward = λ id done p c e among. absurd (nothing id done);
  plain = s.plain;
  apart = λ id among done. nothing id done;
}

IsSettled-IsSound :
    {root : Text} {ancestors visited : List Text} {m : ProfileMap}
    → IsSettled root ancestors m visited
    → IsSound m
IsSettled-IsSound s = record {
  no_dangling = s.no_dangling;
  all_grounded = s.all_grounded;
  plain = s.plain;
}

-- A rule's outbound is no child of any profile, and has its children's descents below it.
pub remark-IsSound :
    (k : Text) (q : ProfileItem) (m : ProfileMap)
    → is_remark k ≡ true
    → IsPlain q
    → IsSound m
    → IsSound (insert k q m)
remark-IsSound k q m key p s = record {
  no_dangling = insert-IsClosed k q m s.no_dangling λ own.
      let same = subst (λ x. is_remark x ≡ false) (eq_of_text_eq q.index_id k own) p.plain_id in
      absurd (cc);
  all_grounded = λ id.
      insert-IsGrounded k q m
        (λ c among.
          insert-IsGrounded_apart k q m (λ x. is_remark x ≡ false) away
            (λ x r d plain_x e listed. s.plain x r d e listed) c (s.all_grounded c)
            (p.plain_children c among))
        id (s.all_grounded id);
  plain = λ id r c e among. elim (Bool-cases (text_eq id k)) [
    | inl same ↦ p.plain_children c (
        subst (λ x. contains c (children_of x) ≡ true)
          (sym (some_inj (sym (get-insert_same id k q m same) ∙ e))) among)
    | inr other ↦ s.plain id r c (sym (get-insert_other id k q m other) ∙ e) among
  ];
}
  where
    away : (id : Text) → is_remark id ≡ false → text_eq id k ≡ false
    away id plain_id = elim (Bool-cases (text_eq id k)) [
      | inl same ↦
          let here = subst (λ x. is_remark x ≡ false) (eq_of_text_eq id k same) plain_id in
          absurd (cc)
      | inr other ↦ other
    ]

pub remark_key-is_remark : (tag : Text) → is_remark (remark_key tag) ≡ true
unfolding is_remark
remark_key-is_remark tag = refl

-- A sound map, that has the profile where the registration succeeded.
abbrev pub RegistersSoundly : ProfileItem → CoreConfigContext × NodeValidatorResult → Type 0
RegistersSoundly node (context, result) =
    IsSound context.all_proxies_map
    × (success result ≡ true → has_key node.index_id context.all_proxies_map ≡ true)

module _ (lib : Library) (env : SnapshotCoreGenEnv) where
  -- Where no id of the snapshot is a key of a rule, the registration of a profile keeps the map
  -- sound: the children of every group in it are in it, and descending through children ends. Where
  -- it succeeds, the profile is in the map.
  pub register_node-IsSound :
      (node : ProfileItem) (context : CoreConfigContext)
      → Each HasPlainId env.profiles
      → IsSound context.all_proxies_map
      → Gives (RegistersSoundly node) (register_node lib env node context)
  unfolding register_node register_group_node contains
  register_node-IsSound node context named s =
      elim (Bool-cases (is_group_type (config_type node.protocol))) [
        | inl group ↦ rw group (
            by_traversal _ (
              traverse-HasRegistered lib env node.index_id named _ (node.index_id ∷ []) node
                (record { context = context; global_visited = node.index_id ∷ [] }) only_root
                only_root (start-IsSettled node.index_id _ _ _ nothing_done s)))
        | inr no_group ↦ rw no_group (
            let (settled, g, ready) =
              register_single-HasRegistered node.index_id [] [] lib node
                (record { context = context; global_visited = [] }) refl no_group
                (start-IsSettled node.index_id _ _ _
                  (λ id done. let h = done.is_visited in absurd (cc)) s) in
            (IsSettled-IsSound settled, λ ok. (ready ok).0))
      ]
    where
      only_root : contains node.index_id (node.index_id ∷ []) ≡ true
      only_root = rw (text_eq_refl node.index_id) refl

      nothing_done : (id : Text) → IsDone node.index_id (node.index_id ∷ []) id → ⊥
      nothing_done id done =
          let other = done.is_other in
          let h : contains id (node.index_id ∷ []) ≡ true = done.is_visited in
          let both : false ≡ true = rw other at h in absurd (cc)

      by_traversal :
          (o : Option Traversed)
          → Gives
              (HasRegistered node.index_id
                (node.index_id ∷ [])
                (record { context = context; global_visited = node.index_id ∷ [] })
                node.index_id)
              o
          → Gives (RegistersSoundly node) (context_of o)
      by_traversal none h = tt
      by_traversal (some (t, result)) (settled, g, ready) =
          (IsSettled-IsSound settled, λ ok. (ready ok).0)
