-- ===== src/Context/Build.antt =====
-- crates/voya-core/src/context.rs: the context of a profile, and of the proxy in front of it.
pub mod Laws
pub mod Total
pub mod Sound
pub mod Outbounds
pub mod Keeps
pub mod Domains
pub mod Asked
use voya_vpn.Base.{
  ℕ, ℤ, pos, Bool, true, false, not, ◌&&◌, ◌||◌, List, [], ◌∷◌, ◌++◌, Option, none, some,
  if◌then◌else◌, map, Text, codes, text_eq, is_empty, trim, for_each,
}
use voya_vpn.Entities.{ProfileItem, config_type}
use voya_vpn.Entities.Routing.{RulesItem, RoutingItem, SubItem, AppConfig}
use voya_vpn.Groups.Profile.{contains, insert, nonempty}
use voya_vpn.Context.Library.{Library}
use voya_vpn.Context.Messages.{
  Message, empty_outbound_tag, outbound_not_found, outbound_warning, outbound_error,
  NodeValidatorResult, empty_result, success, push_warning, combined,
}
use voya_vpn.Context.Domains.{merge_protect_domains}
use voya_vpn.Context.Validation.{in_port_range, is_custom}
use voya_vpn.Context.Env.{
  is_non_windows, SnapshotCoreGenEnv, filter, get_profile_by_index_id, get_profile_by_remarks,
  get_subscription, get_default_routing,
}
use voya_vpn.Context.Register.{CoreConfigContext, put_proxy, socks_profile}
use voya_vpn.Context.Traverse.{register_node}

-- A computation that may run out of fuel.
infixl 10 ◌>>=◌
unfoldable pub ◌>>=◌ {ℓ ℓ'} : {A : Type ℓ} {B : Type ℓ'} → Option A → (A → Option B) → Option B
none >>= f = none
some a >>= f = f a

pub record BuilderResult : Type 0 where
  pub context : CoreConfigContext
  pub validator_result : NodeValidatorResult

pub record BuilderAllResult : Type 0 where
  pub main_result : BuilderResult
  pub pre_socks_result : Option BuilderResult

pub data ContextBuildError : Type 0 where
  missing_active_profile_id : ContextBuildError
  active_profile_not_found : Text → ContextBuildError

-- The profile itself is answered in either case.
unfoldable pub resolve_node :
    Library
    → SnapshotCoreGenEnv
    → ProfileItem
    → CoreConfigContext
    → Option (CoreConfigContext × NodeValidatorResult)
resolve_node lib env node context =
    if is_empty (trim node.index_id)
    then some (context, empty_result)
    else register_node lib env node context

unfoldable pub is_builtin_outbound : Option Text → Bool
is_builtin_outbound none = false
is_builtin_outbound (some tag) = contains tag (codes "proxy" ∷ codes "direct" ∷ codes "block" ∷ [])

abbrev pub text_of : Option Text → Text
text_of none = []
text_of (some s) = s

abbrev pub nonempty_of : Option Text → Option Text
nonempty_of none = none
nonempty_of (some s) = nonempty s

abbrev pub remark_key : Text → Text
remark_key tag = codes "remark:" ++ tag

abbrev pub add_warnings : List Message → BuilderResult → BuilderResult
add_warnings warnings built = record built {
  validator_result = record built.validator_result {
    warnings = built.validator_result.warnings ++ warnings;
  };
}

-- After the node of a rule has been registered.
unfoldable pub after_rule :
    Text
    → Text
    → ProfileItem
    → CoreConfigContext × NodeValidatorResult
    → BuilderResult
    → BuilderResult
after_rule rule_name outbound_tag node (context, result) built =
    let warned =
      add_warnings (map (outbound_warning rule_name outbound_tag) result.warnings)
        (record built { context = context }) in
    if success result
    then record warned { context = put_proxy (remark_key outbound_tag) node context }
    else add_warnings (map (outbound_error rule_name outbound_tag) result.errors) warned

-- The profile with the remarks that the rule names, if there is one.
unfoldable pub resolve_found :
    Library
    → SnapshotCoreGenEnv
    → Text
    → Text
    → BuilderResult
    → Option ProfileItem
    → Option BuilderResult
resolve_found lib env rule_name outbound_tag built none =
    some (add_warnings (outbound_not_found rule_name outbound_tag ∷ []) built)
resolve_found lib env rule_name outbound_tag built (some node) =
    resolve_node lib env node built.context >>= λ resolved.
    some (after_rule rule_name outbound_tag node resolved built)

unfoldable pub resolve_tag :
    Library → SnapshotCoreGenEnv → Text → BuilderResult → Option Text → Option BuilderResult
resolve_tag lib env rule_name built none =
    some (add_warnings (empty_outbound_tag rule_name ∷ []) built)
resolve_tag lib env rule_name built (some outbound_tag) =
    resolve_found lib env rule_name outbound_tag built (get_profile_by_remarks env outbound_tag)

unfoldable pub resolve_rule_outbound :
    Library → SnapshotCoreGenEnv → RulesItem → BuilderResult → Option BuilderResult
resolve_rule_outbound lib env rule built =
    resolve_tag lib env (text_of rule.remarks) built (nonempty_of rule.outbound_tag)

unfoldable pub names_outbound : RulesItem → Bool
names_outbound rule = rule.enabled && not (is_builtin_outbound rule.outbound_tag)

abbrev pub enabled_rules : Option RoutingItem → List RulesItem
enabled_rules none = []
enabled_rules (some routing) = filter names_outbound routing.rule_set

unfoldable pub resolve_rule_outbounds :
    Library → SnapshotCoreGenEnv → BuilderResult → Option BuilderResult
resolve_rule_outbounds lib env built =
    for_each (resolve_rule_outbound lib env) (enabled_rules built.context.routing_item) built

unfoldable pub initial_context : SnapshotCoreGenEnv → AppConfig → ProfileItem → CoreConfigContext
initial_context env config node = record {
  node = node;
  routing_item = get_default_routing env config;
  all_proxies_map = [];
  app_config = config;
  is_tun_enabled = config.enable_tun;
  protect_domain_list = [];
  platform = env.platform;
}

unfoldable pub build : Library → SnapshotCoreGenEnv → AppConfig → ProfileItem → Option BuilderResult
build lib env config node =
    resolve_node lib env node (initial_context env config node) >>= λ (context, node_result).
    if success node_result
    then resolve_rule_outbounds lib env (record {
      context = record context { node = node };
      validator_result = record { errors = []; warnings = node_result.warnings };
    })
    else some (record { context = context; validator_result = node_result })

-- `socks`, the first inbound, has no offset.
unfoldable pub pre_socks_item : SnapshotCoreGenEnv → AppConfig → ProfileItem → Option ProfileItem
pre_socks_item env config node =
    if not (is_custom (config_type node.protocol))
      && (config.enable_tun && is_non_windows env.platform)
    then some (socks_profile env.local_socks_port)
    else elim (pre_socks_port node.subscription_id) [
      | none ↦ none
      | some port ↦
          if is_custom (config_type node.protocol) && in_port_range port
          then some (socks_profile port)
          else none
    ]
  where
    port_of : Option SubItem → Option ℤ
    port_of none = none
    port_of (some subscription) = subscription.pre_socks_port

    pre_socks_port : Option Text → Option ℤ
    pre_socks_port none = none
    pre_socks_port (some id) = port_of (get_subscription env id)

abbrev pub with_domains : List Text → BuilderResult → BuilderResult
with_domains domains built = record built {
  context = record built.context { protect_domain_list = domains };
}

-- The outer `none`: out of fuel.
unfoldable pub build_front :
    Library
    → SnapshotCoreGenEnv
    → CoreConfigContext
    → Option ProfileItem
    → Option (Option BuilderResult)
build_front lib env node_context none = some none
build_front lib env node_context (some item) =
    build lib env node_context.app_config item >>= λ built. some (
      some (
        with_domains
          (merge_protect_domains lib.is_ip node_context.protect_domain_list
            built.context.protect_domain_list)
          built))

unfoldable pub build_pre_socks_if_needed :
    Library → SnapshotCoreGenEnv → CoreConfigContext → Option (Option BuilderResult)
build_pre_socks_if_needed lib env node_context =
    build_front lib env node_context (pre_socks_item env node_context.app_config node_context.node)

abbrev pub behind : Library → BuilderResult → BuilderResult → BuilderResult
behind lib main front = record main {
  context = record main.context {
    is_tun_enabled = false;
    protect_domain_list =
        merge_protect_domains lib.is_ip main.context.protect_domain_list
          front.context.protect_domain_list;
  };
}

unfoldable pub with_pre_socks : Library → BuilderResult → Option BuilderResult → BuilderAllResult
with_pre_socks lib main none = record { main_result = main; pre_socks_result = none }
with_pre_socks lib main (some front) = record {
  main_result = behind lib main front;
  pre_socks_result = some front;
}

unfoldable pub build_all :
    Library → SnapshotCoreGenEnv → AppConfig → ProfileItem → Option BuilderAllResult
build_all lib env config node = build lib env config node >>= λ main.
    if success main.validator_result
    then (build_pre_socks_if_needed lib env main.context >>= λ front.
        some (with_pre_socks lib main front))
    else some (record { main_result = main; pre_socks_result = none })

unfoldable pub all_success : BuilderAllResult → Bool
all_success built =
    success built.main_result.validator_result
    && elim built.pre_socks_result [ none ↦ true | some front ↦ success front.validator_result ]

abbrev pub validator_of : Option BuilderResult → Option NodeValidatorResult
validator_of none = none
validator_of (some front) = some front.validator_result

unfoldable pub combined_validator_result : BuilderAllResult → NodeValidatorResult
combined_validator_result built =
    combined built.main_result.validator_result (validator_of built.pre_socks_result)

pub data Active : Type 0 where
  built : BuilderResult → Active
  build_error : ContextBuildError → Active

abbrev pub built_if_any : Option BuilderResult → Option Active
built_if_any none = none
built_if_any (some result) = some (built result)

unfoldable pub build_found :
    Library → SnapshotCoreGenEnv → AppConfig → Text → Option ProfileItem → Option Active
build_found lib env config active_id none = some (build_error (active_profile_not_found active_id))
build_found lib env config active_id (some node) = built_if_any (build lib env config node)

unfoldable pub build_active : Library → SnapshotCoreGenEnv → AppConfig → Option Active
build_active lib env config =
    let active_id = trim config.index_id in
    if is_empty active_id
    then some (build_error missing_active_profile_id)
    else build_found lib env config active_id (get_profile_by_index_id env active_id)
