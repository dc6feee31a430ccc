-- ===== src/Context/Traverse.antt =====
-- crates/voya-core/src/context.rs: the traversal of groups, which registers what they consist of.
pub mod Settled
pub mod Visit
pub mod Invariant
pub mod Closed
pub mod Grounded
pub mod Terminates
pub mod Keeps
use voya_vpn.Base.{
  ℕ, zero, suc, Bool, true, false, not, ◌&&◌, List, [], ◌∷◌, ◌++◌, Option, none, some,
  if◌then◌else◌, length, map, Text, for_each,
}
use voya_vpn.Entities.{
  is_group_type, is_complex_type, ProfileItem, ProfileProtocol, single, policy_group_of,
  proxy_chain_of, config_type, child_profile_ids, replace_child_profile_ids,
}
use voya_vpn.Groups.Profile.{contains, insert}
use voya_vpn.Groups.Children.{filter_of, passes}
use voya_vpn.Context.Library.{Library}
use voya_vpn.Context.Messages.{
  Message, group_cycle, no_valid_child_node, group_child, group_child_group, NodeValidatorResult,
  empty_result, success, push_error, extend_prefixed, errors_as_warnings,
}
use voya_vpn.Context.Validation.{profile_is_valid}
use voya_vpn.Context.Env.{
  SnapshotCoreGenEnv, filter, get_profile_items_ordered_by_index_ids,
  get_profile_items_by_subscription_id,
}
use voya_vpn.Context.Register.{CoreConfigContext, put_proxy, register_single_node}

-- The first guard of the source answers an empty list without asking, which is what asking for no
-- ids gives.
unfoldable pub selected_child_profile_items :
    SnapshotCoreGenEnv → ProfileProtocol → List ProfileItem
selected_child_profile_items env protocol =
    get_profile_items_ordered_by_index_ids env (child_profile_ids protocol)

unfoldable pub is_usable_member : Library → Option (Text → Bool) → ProfileItem → Bool
is_usable_member lib filter profile =
    not (is_complex_type (config_type profile.protocol))
    && (profile_is_valid lib profile && passes filter profile.remarks)

unfoldable pub sub_child_profile_items :
    Library → SnapshotCoreGenEnv → ProfileProtocol → List ProfileItem
sub_child_profile_items lib env (policy_group_of ids (some subscription_id) pattern) =
    filter (is_usable_member lib (filter_of lib.regex pattern))
      (get_profile_items_by_subscription_id env subscription_id)
sub_child_profile_items lib env (policy_group_of ids none pattern) = []
sub_child_profile_items lib env (single protocol) = []
sub_child_profile_items lib env (proxy_chain_of ids) = []

-- The members of the subscription come before the selected ones.
unfoldable pub group_child_profile_items :
    Library → SnapshotCoreGenEnv → ProfileProtocol → List ProfileItem
group_child_profile_items lib env protocol =
    sub_child_profile_items lib env protocol ++ selected_child_profile_items env protocol

-- What a traversal changes: the context, and the set of ids that are done with.
pub record Traversal : Type 0 where
  pub context : CoreConfigContext
  pub global_visited : List Text

-- The variables of the loop over the children.
pub record ChildLoop : Type 0 where
  pub traversal : Traversal
  pub child_index_ids : List Text
  pub child_index_seen : List Text
  pub child_result : NodeValidatorResult

abbrev pub Traversed : Type 0
Traversed = Traversal × NodeValidatorResult

unfoldable pub push_unique_child_index : Text → ChildLoop → ChildLoop
push_unique_child_index id loop = if contains id loop.child_index_seen then loop else record loop {
  child_index_ids = loop.child_index_ids ++ (id ∷ []);
  child_index_seen = id ∷ loop.child_index_seen;
}

abbrev visit : Text → Traversal → Traversal
visit id traversal = record traversal { global_visited = id ∷ traversal.global_visited }

-- After a child has been registered: a child that failed is left out.
unfoldable pub after_child : (Message → Message) → ProfileItem → Traversed → ChildLoop → ChildLoop
after_child prefix child (traversal, result) loop =
    let told = extend_prefixed prefix result loop.child_result in
    if success result
    then push_unique_child_index child.index_id
        (record loop { traversal = visit child.index_id traversal; child_result = told })
    else record loop { traversal = traversal; child_result = told }

unfoldable pub visit_single : Library → ProfileItem → ProfileItem → ChildLoop → ChildLoop
visit_single lib node child loop =
    let (context, result) = register_single_node lib child loop.traversal.context in
    after_child (group_child node.remarks child.remarks) child
      (record loop.traversal { context = context }, result) loop

-- The body of the loop over the children; `next` is the traversal of a child that is a group, below
-- the ancestors it is given.
unfoldable pub visit_child :
    Library
    → (List Text → ProfileItem → Traversal → Option Traversed)
    → List Text
    → ProfileItem
    → ProfileItem
    → ChildLoop
    → Option ChildLoop
visit_child lib next ancestors node child loop =
    if contains child.index_id ancestors
    then some (record loop {
      child_result = push_error (group_cycle node.remarks child.remarks) loop.child_result;
    })
    else if contains child.index_id loop.traversal.global_visited
    then some (push_unique_child_index child.index_id loop)
    else if is_group_type (config_type child.protocol)
    then elim (next (child.index_id ∷ ancestors) child loop.traversal) [
      | none ↦ none
      | some traversed ↦
          some (after_child (group_child_group node.remarks child.remarks) child traversed loop)
    ]
    else some (visit_single lib node child loop)

unfoldable pub with_children : List Text → ProfileItem → ProfileItem
with_children ids node = record node { protocol = replace_child_profile_ids ids node.protocol }

-- After the loop: the group is registered with the children that are left, if any are.
unfoldable pub finish_group : ProfileItem → ChildLoop → Traversed
finish_group node loop = elim loop.child_index_ids [
  | [] ↦ (loop.traversal, push_error (no_valid_child_node node.remarks) loop.child_result)
  | id ∷ ids ↦ (
    record loop.traversal {
      context = put_proxy node.index_id (with_children (id ∷ ids) node) loop.traversal.context;
    },
    errors_as_warnings loop.child_result,
  )
]

abbrev pub start_loop : Traversal → ChildLoop
start_loop traversal = record {
  traversal = traversal;
  child_index_ids = [];
  child_index_seen = [];
  child_result = empty_result;
}

abbrev pub finish_if_any : ProfileItem → Option ChildLoop → Option Traversed
finish_if_any node none = none
finish_if_any node (some loop) = some (finish_group node loop)

-- One unit of fuel for each group that the traversal is in. `none`: out of fuel.
unfoldable pub traverse_group_node :
    Library → SnapshotCoreGenEnv → ℕ → List Text → ProfileItem → Traversal → Option Traversed
traverse_group_node lib env zero ancestors node traversal = none
traverse_group_node lib env (suc fuel) ancestors node traversal = finish_if_any node (
    for_each (visit_child lib (traverse_group_node lib env fuel) ancestors node)
      (group_child_profile_items lib env node.protocol) (start_loop traversal))

abbrev pub context_of : Option Traversed → Option (CoreConfigContext × NodeValidatorResult)
context_of none = none
context_of (some (traversal, result)) = some (traversal.context, result)

-- The groups that a traversal is in are the first one and distinct ones of the snapshot.
unfoldable pub register_group_node :
    Library
    → SnapshotCoreGenEnv
    → ProfileItem
    → CoreConfigContext
    → Option (CoreConfigContext × NodeValidatorResult)
register_group_node lib env node context =
    if is_group_type (config_type node.protocol)
    then context_of (
        traverse_group_node lib env (suc (length env.profiles)) (node.index_id ∷ []) node
          (record { context = context; global_visited = node.index_id ∷ [] }))
    else some (context, empty_result)

unfoldable pub register_node :
    Library
    → SnapshotCoreGenEnv
    → ProfileItem
    → CoreConfigContext
    → Option (CoreConfigContext × NodeValidatorResult)
register_node lib env node context =
    if is_group_type (config_type node.protocol)
    then register_group_node lib env node context
    else some (register_single_node lib node context)
