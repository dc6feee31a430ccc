-- ===== src/Context/Tests.antt =====
-- The theorems on contexts at the examples.
use voya_vpn.Base.{
  ◌≡◌, ◌≢◌, refl, true, false, ◌||◌, ◌&&◌, [], ◌∷◌, none, codes, text_eq, trim, is_whitespace,
  trim_start, split_at, utf8_bytes, any,
}
use voya_vpn.Entities.{
  config_type, is_group_type, server, searchable_address, profile_port, profile_network,
}
use voya_vpn.Groups.Profile.{contains}
use voya_vpn.Context.Messages.{success}
use voya_vpn.Context.Domains.{is_domain, merge_protect_domains}
use voya_vpn.Context.Domains.Laws.{contains-merge}
use voya_vpn.Context.Validation.{
  get_network, singbox_supports_config_type, singbox_transport_supported_protocol, is_blank,
  is_custom, validate_node,
}
use voya_vpn.Context.Validation.Guid.{is_guid_like}
use voya_vpn.Context.Validation.Laws.{IsUsable, validate_node-IsUsable}
use voya_vpn.Context.Build.{build_all}
use voya_vpn.Context.Build.Total.{build_all_total}
use voya_vpn.Context.Build.Sound.{IsSound}
use voya_vpn.Context.Build.Outbounds.{build-IsSound}
use voya_vpn.Context.Build.Domains.{AreInStep, build_all-AreInStep}
use voya_vpn.Context.Build.Asked.{IsAsked, build-IsAsked}
use voya_vpn.Context.Examples.{
  lib, leaf, group, env, config, built, both, front, found, env-IsPlain,
}

build-IsSound_example : IsSound built.context.all_proxies_map
build-IsSound_example = build-IsSound lib env config group built env-IsPlain found.0

build_all-AreInStep_example : AreInStep lib env both.main_result front
build_all-AreInStep_example =
    build_all-AreInStep lib env config group both front found.1.0 found.1.1.0

build-IsAsked_example : IsAsked env config group built.context
build-IsAsked_example = build-IsAsked lib env config group built found.0

build_all_total_example : build_all lib env config group ≢ none
build_all_total_example = build_all_total lib env config group

leaf-validated : success (validate_node lib leaf) ≡ true
unfolding validate_node success get_network profile_network profile_port
    singbox_supports_config_type singbox_transport_supported_protocol is_guid_like utf8_bytes
    is_blank config_type is_group_type trim trim_start is_whitespace searchable_address server
    contains split_at
leaf-validated = refl

leaf-kind :
    (is_custom (config_type leaf.protocol) ≡ false)
    × (is_group_type (config_type leaf.protocol) ≡ false)
unfolding config_type is_group_type
leaf-kind = (refl, refl)

validate_node-IsUsable_example : IsUsable leaf
validate_node-IsUsable_example =
    validate_node-IsUsable lib leaf leaf-kind.0 leaf-kind.1 leaf-validated

contains-merge_example :
    contains
      (codes "c.d")
      (merge_protect_domains lib.is_ip (codes "a.b" ∷ []) (codes " c.d" ∷ codes "127.0.0.1" ∷ []))
    ≡ (contains (codes "c.d") (codes "a.b" ∷ [])
        || any
            (λ c. text_eq (codes "c.d") (trim c) && is_domain lib.is_ip (trim c))
            (codes " c.d" ∷ codes "127.0.0.1" ∷ []))
contains-merge_example =
    contains-merge lib.is_ip (codes "c.d") (codes "a.b" ∷ [])
      (codes " c.d" ∷ codes "127.0.0.1" ∷ [])
