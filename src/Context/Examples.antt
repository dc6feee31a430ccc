-- ===== src/Context/Examples.antt =====
-- Examples: a group of a leaf and a chain that leads back to the group, and a group that has its members from
-- a subscription only.
use voya_vpn.Base.{
  ◌≡◌, refl, pos, true, false, subst, sym, eq_of_text_eq, Bool-cases, inl, inr, List, [], ◌∷◌,
  Option, none, some, Text, codes, text_eq, Each, trim, is_whitespace, trim_start, split_at,
  utf8_bytes, rsplit_once, to_ascii_lowercase, for_each,
}
use voya_vpn.Entities.{
  ProfileItem, vless_of, single, policy_group_of, proxy_chain_of, config_type, is_group_type,
  is_complex_type, server, searchable_address, child_profile_ids, replace_child_profile_ids,
  profile_port, profile_network, default_profile,
}
use voya_vpn.Entities.Routing.{RulesItem, AppConfig}
use voya_vpn.Groups.Profile.{contains, nonempty, insert, get, text_lt}
use voya_vpn.Context.Library.{Library}
use voya_vpn.Context.Messages.{empty_result, success, errors_as_warnings}
use voya_vpn.Context.Domains.{
  has_blocked_ext, is_trimmed_domain, is_domain, push_domain_if_needed, merge_protect_domains,
}
use voya_vpn.Context.Validation.{
  get_network, singbox_supports_config_type, singbox_transport_supported_protocol, is_blank,
  validate_node,
}
use voya_vpn.Context.Validation.Guid.{is_guid_like}
use voya_vpn.Context.Env.{
  linux, is_non_windows, SnapshotCoreGenEnv, find, filter, filter_map, get_profile_by_index_id,
  get_profile_by_remarks, get_profile_items_ordered_by_index_ids, get_default_routing,
}
use voya_vpn.Context.Register.{
  xhttp_download_settings_address, push_ech_domain, push_download_domain, push_node_domains,
  registered, register_single_node, socks_profile,
}
use voya_vpn.Context.Traverse.{
  selected_child_profile_items, sub_child_profile_items, group_child_profile_items,
  push_unique_child_index, after_child, visit_single, visit_child, with_children, finish_group,
  traverse_group_node, register_group_node, register_node,
}
use voya_vpn.Context.Traverse.Settled.{is_remark}
use voya_vpn.Context.Build.{
  ◌>>=◌, BuilderResult, BuilderAllResult, resolve_node, is_builtin_outbound, after_rule,
  resolve_found, resolve_tag, resolve_rule_outbound, names_outbound, resolve_rule_outbounds,
  initial_context, build, pre_socks_item, build_front, build_pre_socks_if_needed, with_pre_socks,
  build_all,
}
use voya_vpn.Context.Build.Sound.{IsPlain}

-- Libraries that know no address, no JSON and no pattern.
abbrev pub lib : Library
lib = record {
  is_ip = λ s. text_eq s (codes "127.0.0.1");
  Json = Unit;
  from_str = λ s. none;
  is_object = λ j. false;
  get_key = λ k j. none;
  as_str = λ j. none;
  regex = λ s. none;
}

abbrev pub profile : Text → ProfileItem
profile id = record {
  index_id = id;
  subscription_id = some (codes "s");
  remarks = id;
  protocol =
      single (vless_of (record { address = codes "a.b"; port = pos 443 }) (codes "u") none none);
  transport = none;
  tls = none;
}

abbrev pub leaf : ProfileItem
leaf = profile (codes "l")

abbrev pub group : ProfileItem
group = record (profile (codes "g")) {
  subscription_id = none;
  protocol = policy_group_of (codes "l" ∷ codes "c" ∷ []) none none;
}

abbrev pub chain : ProfileItem
chain = record (profile (codes "c")) {
  subscription_id = none;
  protocol = proxy_chain_of (codes "g" ∷ codes "l" ∷ []);
}

abbrev pub members : ProfileItem
members = record (profile (codes "m")) {
  subscription_id = none;
  protocol = policy_group_of [] (some (codes "s")) none;
}

abbrev pub rule : RulesItem
rule = record { id = codes "1"; remarks = none; enabled = true; outbound_tag = some (codes "c") }

abbrev pub env : SnapshotCoreGenEnv
env = record {
  local_socks_port = pos 10808;
  platform = linux;
  profiles = leaf ∷ group ∷ chain ∷ members ∷ [];
  routings =
      record {
        id = codes "r";
        remarks = [];
        rule_set = rule ∷ [];
        domain_strategy = [];
        sort = pos 1;
      }
      ∷ [];
  subs = [];
}

abbrev pub config : AppConfig
config = record { index_id = codes "g"; routing_index_id = codes "r"; enable_tun = true }

-- A result, or the initial one where there is none.
abbrev pub built_of : Option BuilderResult → BuilderResult
built_of none = record {
  context = initial_context env config group;
  validator_result = empty_result;
}
built_of (some built) = built

abbrev pub built : BuilderResult
built = built_of (build lib env config group)

-- A result with the proxy in front, or two initial ones.
abbrev pub all_of : Option BuilderAllResult → BuilderAllResult
all_of none = record { main_result = built_of none; pre_socks_result = none }
all_of (some result) = result

abbrev pub both : BuilderAllResult
both = all_of (build_all lib env config group)

abbrev pub front : BuilderResult
front = built_of both.pre_socks_result

-- The construction gives results, and the registration of the chain that the rule leads to has given
-- the group other children.
pub found :
    (build lib env config group ≡ some built)
    × ((build_all lib env config group ≡ some both)
        × ((both.pre_socks_result ≡ some front)
            × (get (codes "g") built.context.all_proxies_map
                ≡ some (record group { protocol = policy_group_of (codes "l" ∷ []) none none }))))
unfolding build resolve_node register_node register_group_node traverse_group_node for_each
    visit_child visit_single after_child register_single_node registered push_node_domains
    push_ech_domain push_download_domain push_domain_if_needed is_domain is_trimmed_domain
    has_blocked_ext rsplit_once to_ascii_lowercase split_at contains trim trim_start is_whitespace
    xhttp_download_settings_address searchable_address server validate_node success get_network
    profile_network profile_port singbox_supports_config_type singbox_transport_supported_protocol
    is_guid_like utf8_bytes is_blank config_type is_group_type is_complex_type child_profile_ids
    replace_child_profile_ids with_children finish_group errors_as_warnings insert text_lt
    push_unique_child_index group_child_profile_items sub_child_profile_items
    selected_child_profile_items get_profile_items_ordered_by_index_ids filter_map
    get_profile_by_index_id find get_profile_by_remarks resolve_rule_outbounds resolve_rule_outbound
    resolve_tag resolve_found after_rule names_outbound is_builtin_outbound nonempty filter ◌>>=◌
    initial_context get_default_routing build_all build_pre_socks_if_needed pre_socks_item
    is_non_windows socks_profile default_profile build_front with_pre_socks merge_protect_domains
    get
found = (refl, (refl, (refl, refl)))

plain_among :
    (ids : List Text) (c : Text)
    → Each (λ id. is_remark id ≡ false) ids
    → contains c ids ≡ true
    → is_remark c ≡ false
unfolding contains
plain_among [] c each among = absurd (cc)
plain_among (id ∷ ids) c (first, each) among = elim (Bool-cases (text_eq c id)) [
  | inl same ↦ subst (λ x. is_remark x ≡ false) (sym (eq_of_text_eq c id same)) first
  | inr other ↦ plain_among ids c each (rw other at among)
]

pub env-IsPlain : Each IsPlain env.profiles
unfolding is_remark child_profile_ids
env-IsPlain = (
  record { plain_id = refl; plain_children = λ c. plain_among [] c tt },
  (
    record {
      plain_id = refl;
      plain_children = λ c. plain_among (codes "l" ∷ codes "c" ∷ []) c (refl, (refl, tt));
    },
    (
      record {
        plain_id = refl;
        plain_children = λ c. plain_among (codes "g" ∷ codes "l" ∷ []) c (refl, (refl, tt));
      },
      (record { plain_id = refl; plain_children = λ c. plain_among [] c tt }, tt),
    ),
  ),
)
