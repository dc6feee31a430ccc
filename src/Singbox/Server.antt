-- ===== src/Singbox/Server.antt =====
-- crates/voya-core/src/singbox/outbounds.rs and support.rs: one outbound, and the outbound of a
-- profile that is no group.
use voya_vpn.Base.{
  Bool, true, false, not, ◌&&◌, ◌||◌, List, [], ◌∷◌, ◌++◌, Option, none, some, if◌then◌else◌, Text,
  codes,
}
use voya_vpn.Entities.{
  ConfigType, wire_guard, is_group_type, wire_guard_of, ProfileProtocol, single, ProfileItem,
  config_type, child_profile_ids,
}
use voya_vpn.Groups.Profile.{ProfileMap, get, contains, nonempty}
use voya_vpn.Context.Domains.{starts_with}
use voya_vpn.Context.Validation.{singbox_supports_config_type}
use voya_vpn.Context.Env.{filter}

-- What an outbound or an endpoint is for: the fields that are written for the profile, or the tags
-- among which a selector or a test chooses.
pub data ServerKind : Type 0 where
  proxy_of : ProfileItem → ServerKind
  selector_of urltest_of : List Text → ServerKind

pub record SingboxServer : Type 0 where
  pub kind : ServerKind
  pub tag : Text
  pub detour : Option Text

abbrev pub set_tag : Text → SingboxServer → SingboxServer
set_tag tag server = record server { tag = tag }

abbrev pub set_detour : Text → SingboxServer → SingboxServer
set_detour tag server = record server { detour = some tag }

abbrev pub nonempty_key : Option Text → Option Text
nonempty_key none = none
nonempty_key (some key) = nonempty key

unfoldable pub wireguard_public_key : ProfileProtocol → Option Text
wireguard_public_key (single (wire_guard_of server key peer preshared address ips reserved mtu)) =
    nonempty_key peer
wireguard_public_key protocol = none

abbrev pub is_wire_guard : ConfigType → Bool
is_wire_guard wire_guard = true
is_wire_guard _ = false

abbrev pub has_value : Option Text → Bool
has_value none = false
has_value (some t) = true

unfoldable pub singbox_can_build_leaf : ProfileItem → Bool
singbox_can_build_leaf node =
    singbox_supports_config_type (config_type node.protocol)
    && (not (is_wire_guard (config_type node.protocol))
        || has_value (wireguard_public_key node.protocol))

-- The children that the map has, each once.
unfoldable pub child_nodes : ProfileMap → List Text → List Text → List ProfileItem
child_nodes m seen [] = []
child_nodes m seen (id ∷ ids) =
    let rest = child_nodes m (id ∷ seen) ids in
    if contains id seen then rest else elim (get id m) [ none ↦ rest | some child ↦ child ∷ rest ]

unfoldable pub is_buildable : ProfileItem → Bool
is_buildable child = is_group_type (config_type child.protocol) || singbox_can_build_leaf child

unfoldable pub buildable_child_nodes : ProfileMap → ProfileItem → List ProfileItem
buildable_child_nodes m node =
    filter is_buildable (child_nodes m [] (child_profile_ids node.protocol))

abbrev pub leaf_server : ProfileItem → Text → SingboxServer
leaf_server node tag = record { kind = proxy_of node; tag = tag; detour = none }

-- The endpoint of WireGuard wants a public key of the peer.
unfoldable pub build_proxy_server : ProfileItem → Text → Option SingboxServer
build_proxy_server node base_tag_name =
    if is_wire_guard (config_type node.protocol)
    then if has_value (wireguard_public_key node.protocol)
      then some (leaf_server node base_tag_name)
      else none
    else some (leaf_server node base_tag_name)

abbrev tags_from : Text → List Text → List SingboxServer → List Text
tags_from base seen [] = []
tags_from base seen (server ∷ servers) =
    let with_tag = tags_from base (server.tag ∷ seen) servers in
    let without = tags_from base seen servers in
    if starts_with base server.tag && not (contains server.tag seen)
    then server.tag ∷ with_tag
    else without

unfoldable pub ordered_proxy_tags : List SingboxServer → Text → List Text
ordered_proxy_tags servers base_tag_name = tags_from base_tag_name [] servers

unfoldable pub build_selector_servers : List Text → Text → List SingboxServer
build_selector_servers proxy_tags base_tag_name =
    let auto_tag = base_tag_name ++ codes "-auto" in
    record { kind = selector_of (auto_tag ∷ proxy_tags); tag = base_tag_name; detour = none }
    ∷ record { kind = urltest_of proxy_tags; tag = auto_tag; detour = none }
    ∷ []
