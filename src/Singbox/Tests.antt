-- ===== src/Singbox/Tests.antt =====
-- A chain of two servers, and the outbounds of the examples' context.
use voya_vpn.Base.{◌≡◌, refl, List, [], ◌∷◌, none, some, codes, Each, show_number, Text}
use voya_vpn.Entities.{ProfileItem, proxy_chain_of, is_group_type, config_type, child_profile_ids}
use voya_vpn.Groups.Profile.{ProfileMap, get, contains}
use voya_vpn.Context.Env.{filter}
use voya_vpn.Context.Validation.{singbox_supports_config_type}
use voya_vpn.Context.Examples.{lib, leaf, group, env, config, built, found, env-IsPlain}
use voya_vpn.Singbox.Server.{
  proxy_of, SingboxServer, wireguard_public_key, singbox_can_build_leaf, child_nodes, is_buildable,
  buildable_child_nodes, build_proxy_server,
}
use voya_vpn.Singbox.Groups.{
  Building, member_tag, chain_tag, detour_tag, chain_step, chain_outbounds,
  build_chain_outbounds_list, build_group_proxy_servers,
}
use voya_vpn.Singbox.Groups.Ends.{IsGenerated, build-IsGenerated}
use voya_vpn.Singbox.Groups.Chain.{IsServer, IsChain, build_chain_outbounds_list-IsChain}

abbrev other : ProfileItem
other = record leaf { index_id = codes "k"; remarks = codes "k" }

abbrev two : ProfileItem
two = record leaf {
  index_id = codes "two";
  protocol = proxy_chain_of (codes "k" ∷ codes "l" ∷ codes "gone" ∷ codes "k" ∷ []);
}

abbrev proxies : ProfileMap
proxies = (codes "k", other) ∷ (codes "l", leaf) ∷ []

abbrev no_groups : ProfileItem → Text → Building
no_groups node tag = none

-- The last server has the tag of the chain, and goes through the first one.
two_built :
    build_group_proxy_servers 1 proxies two (codes "proxy")
    ≡ some (
        record {
          kind = proxy_of leaf;
          tag = codes "proxy";
          detour = some (codes "chain-proxy-1-k");
        }
        ∷ record { kind = proxy_of other; tag = codes "chain-proxy-1-k"; detour = none }
        ∷ [])
unfolding build_group_proxy_servers build_chain_outbounds_list chain_outbounds chain_step chain_tag
    detour_tag member_tag show_number buildable_child_nodes child_nodes is_buildable
    singbox_can_build_leaf build_proxy_server wireguard_public_key filter contains get
    singbox_supports_config_type is_group_type config_type child_profile_ids
two_built = refl

two_servers : Each IsServer (buildable_child_nodes proxies two)
unfolding buildable_child_nodes child_nodes is_buildable singbox_can_build_leaf filter contains get
    wireguard_public_key singbox_supports_config_type is_group_type config_type child_profile_ids
two_servers = (refl, (refl, tt))

build_chain_outbounds_list-IsChain_example :
    (servers : List SingboxServer) × ((build_chain_outbounds_list no_groups proxies two
          (codes "proxy")
        ≡ some servers)
      × IsChain (codes "proxy") (buildable_child_nodes proxies two) servers)
build_chain_outbounds_list-IsChain_example =
    build_chain_outbounds_list-IsChain no_groups proxies two (codes "proxy") two_servers

build-IsGenerated_example : IsGenerated built.context.all_proxies_map group
build-IsGenerated_example = build-IsGenerated lib env config group group built env-IsPlain found.0
