-- ===== src/Context/Register.antt =====
-- crates/voya-core/src/context.rs and context/node_registration.rs: a context, and the registration
-- of a profile that is no group.
use voya_vpn.Base.{
  ℤ, Bool, true, false, not, ◌&&◌, List, [], ◌∷◌, Option, none, some, if◌then◌else◌, any, Text,
  codes, is_empty, trim, split_once,
}
use voya_vpn.Entities.{
  is_group_type, ProfileItem, config_type, searchable_address, ProfileTransport, xhttp_of,
  TlsSettings, TlsMode, tls_mode, reality_mode, socks_of, single, default_profile,
}
use voya_vpn.Entities.Routing.{RoutingItem, AppConfig}
use voya_vpn.Groups.Profile.{ProfileMap, insert}
use voya_vpn.Context.Library.{Library}
use voya_vpn.Context.Messages.{NodeValidatorResult, empty_result, success}
use voya_vpn.Context.Domains.{has_text, push_domain_if_needed}
use voya_vpn.Context.Validation.{validate_node}
use voya_vpn.Context.Env.{CoreGenPlatform, find}

-- The fields that are written or read on the way. The core is sing-box; the DNS settings, the tests'
-- servers and the paths of rule sets are handed through.
pub record CoreConfigContext : Type 0 where
  pub node : ProfileItem
  pub routing_item : Option RoutingItem
  pub all_proxies_map : ProfileMap
  pub app_config : AppConfig
  pub is_tun_enabled : Bool
  pub protect_domain_list : List Text
  pub platform : CoreGenPlatform

abbrev text_or : Text → Option Text → Text
text_or d none = d
text_or d (some s) = s

abbrev is_tls : TlsMode → Bool
is_tls tls_mode = true
is_tls reality_mode = false

abbrev before_plus : Text → Option (Text × Text) → Text
before_plus value none = value
before_plus value (some (sni, rest)) = sni

abbrev sni_or : Text → Option Text → Text
sni_or server_name none = server_name
sni_or server_name (some value) = before_plus value (split_once b'+' value)

-- The name that the ECH query asks for.
unfoldable pub ech_query_sni : TlsSettings → Text
ech_query_sni tls =
    let server_name = text_or [] tls.server_name in
    if is_tls tls.mode && any (has_text (codes "://")) tls.ech_config
    then sni_or server_name (find (λ value. not (has_text (codes "://") value)) tls.ech_config)
    else server_name

abbrev none_if_blank : Text → Option Text
none_if_blank s = if is_empty s then none else some s

abbrev bind_option {ℓ ℓ'} : {A : Type ℓ} {B : Type ℓ'} → Option A → (A → Option B) → Option B
bind_option none f = none
bind_option (some a) f = f a

abbrev extra_of : Option ProfileTransport → Option Text
extra_of (some (xhttp_of host path mode extra)) = extra
extra_of _ = none

unfoldable pub xhttp_download_settings_address : Library → ProfileItem → Option Text
xhttp_download_settings_address lib node = bind_option (extra_of node.transport) λ extra.
    bind_option (none_if_blank (trim extra)) λ text. bind_option (lib.from_str text) λ value.
      bind_option (lib.get_key (codes "downloadSettings") value) λ settings.
        bind_option (lib.get_key (codes "address") settings)
          λ address. bind_option (lib.as_str address) λ s. none_if_blank (trim s)

unfoldable pub push_ech_domain : Library → Option TlsSettings → List Text → List Text
push_ech_domain lib none domains = domains
push_ech_domain lib (some tls) domains = elim tls.ech_config [
  | [] ↦ domains
  | _ ∷ _ ↦ push_domain_if_needed lib.is_ip (ech_query_sni tls) domains
]

unfoldable pub push_download_domain : Library → Option Text → List Text → List Text
push_download_domain lib none domains = domains
push_download_domain lib (some address) domains = push_domain_if_needed lib.is_ip address domains

-- The domains of a server, in the order in which they are pushed.
unfoldable pub push_node_domains : Library → ProfileItem → List Text → List Text
push_node_domains lib node domains =
    push_download_domain lib (xhttp_download_settings_address lib node) (
      push_ech_domain lib node.tls
        (push_domain_if_needed lib.is_ip (searchable_address node.protocol) domains))

abbrev pub put_proxy : Text → ProfileItem → CoreConfigContext → CoreConfigContext
put_proxy key profile context = record context {
  all_proxies_map = insert key profile context.all_proxies_map;
}

unfoldable pub registered : Library → ProfileItem → CoreConfigContext → CoreConfigContext
registered lib node context = record (put_proxy node.index_id node context) {
  protect_domain_list = push_node_domains lib node context.protect_domain_list;
}

unfoldable pub register_single_node :
    Library → ProfileItem → CoreConfigContext → CoreConfigContext × NodeValidatorResult
register_single_node lib node context =
    if is_group_type (config_type node.protocol)
    then (context, empty_result)
    else (let result = validate_node lib node in
        (if success result then registered lib node context else context, result))

abbrev pub loopback : Text
loopback = codes "127.0.0.1"

unfoldable pub socks_profile : ℤ → ProfileItem
socks_profile port = record default_profile {
  protocol = single (socks_of (record { address = loopback; port = port }) [] []);
}
