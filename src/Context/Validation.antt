-- ===== src/Context/Validation.antt =====
-- crates/voya-core/src/context/validation.rs: whether sing-box can use a profile.
pub mod Guid
pub mod Laws
use voya_vpn.Base.{
  ℕ, ℤ, pos, negsuc, Bool, true, false, not, ◌&&◌, ◌||◌, List, [], ◌∷◌, ◌++◌, Option, none, some,
  leb, ltb, if◌then◌else◌, length, Text, codes, text_eq, is_empty, trim,
}
use voya_vpn.Entities.{
  ConfigType, vmess, custom, shadowsocks, socks, vless, trojan, hysteria2, tuic, wire_guard, http,
  anytls, naive, is_group_type, vmess_of, shadowsocks_of, vless_of, ProfileProtocol, single,
  ProfileItem, config_type, searchable_address, profile_port, profile_network, TlsSettings, TlsMode,
  tls_mode, reality_mode,
}
use voya_vpn.Groups.Profile.{contains}
use voya_vpn.Context.Library.{Library}
use voya_vpn.Context.Messages.{
  Message, invalid_address, invalid_port, invalid_password, invalid_flow, invalid_ss_method,
  invalid_public_key, invalid_final_mask, unsupported_network, unsupported_protocol,
  unsupported_protocol_network, unsupported_shadowsocks_network, NodeValidatorResult, empty_result,
  success,
}
use voya_vpn.Context.Validation.Guid.{is_guid_like}

abbrev pub default_network : Text
default_network = codes "raw"

unfoldable pub get_network : ProfileItem → Text
unfolding trim profile_network
get_network item =
    let network = trim (profile_network item) in
    if is_empty network then default_network else network

-- A port that a server can have.
abbrev pub in_port_range : ℤ → Bool
in_port_range (pos n) = leb 1 n && leb n 65535
in_port_range (negsuc n) = false

abbrev pub unsupported_transports : List Text
unsupported_transports = codes "kcp" ∷ codes "xhttp" ∷ []

abbrev pub shadowsocks_transports : List Text
shadowsocks_transports = codes "raw" ∷ codes "ws" ∷ []

abbrev pub flows : List Text
flows = [] ∷ codes "xtls-rprx-vision" ∷ codes "xtls-rprx-vision-udp443" ∷ []

abbrev pub ss_securities : List Text
ss_securities =
    codes "aes-256-gcm"
    ∷ codes "aes-192-gcm"
    ∷ codes "aes-128-gcm"
    ∷ codes "chacha20-ietf-poly1305"
    ∷ codes "xchacha20-ietf-poly1305"
    ∷ codes "none"
    ∷ codes "2022-blake3-aes-128-gcm"
    ∷ codes "2022-blake3-aes-256-gcm"
    ∷ codes "2022-blake3-chacha20-poly1305"
    ∷ codes "aes-128-ctr"
    ∷ codes "aes-192-ctr"
    ∷ codes "aes-256-ctr"
    ∷ codes "aes-128-cfb"
    ∷ codes "aes-192-cfb"
    ∷ codes "aes-256-cfb"
    ∷ codes "rc4-md5"
    ∷ codes "chacha20-ietf"
    ∷ codes "xchacha20"
    ∷ []

unfoldable pub singbox_supports_config_type : ConfigType → Bool
singbox_supports_config_type vmess = true
singbox_supports_config_type vless = true
singbox_supports_config_type shadowsocks = true
singbox_supports_config_type trojan = true
singbox_supports_config_type hysteria2 = true
singbox_supports_config_type tuic = true
singbox_supports_config_type anytls = true
singbox_supports_config_type naive = true
singbox_supports_config_type wire_guard = true
singbox_supports_config_type socks = true
singbox_supports_config_type http = true
singbox_supports_config_type _ = false

unfoldable pub singbox_transport_supported_protocol : ConfigType → Bool
singbox_transport_supported_protocol vmess = true
singbox_transport_supported_protocol vless = true
singbox_transport_supported_protocol trojan = true
singbox_transport_supported_protocol shadowsocks = true
singbox_transport_supported_protocol _ = false

abbrev pub is_custom : ConfigType → Bool
is_custom custom = true
is_custom _ = false

abbrev is_shadowsocks : ConfigType → Bool
is_shadowsocks shadowsocks = true
is_shadowsocks _ = false

-- The message where the test fails the profile.
abbrev pub when : Bool → Message → List Message
when true message = message ∷ []
when false message = []

abbrev or_blank : Option Text → Text
or_blank none = []
or_blank (some s) = s

-- sing-box is the only type of core.
network_errors : ConfigType → Text → List Message
unfolding contains singbox_supports_config_type singbox_transport_supported_protocol
network_errors type network =
    when (contains network unsupported_transports) (unsupported_network network)
    ++ (when (not (singbox_supports_config_type type)) (unsupported_protocol type)
        ++ (when
              (not (singbox_transport_supported_protocol type)
                && not (text_eq network default_network))
              (unsupported_protocol_network type network)
            ++ when (is_shadowsocks type && not (contains network shadowsocks_transports))
                (unsupported_shadowsocks_network network)))

protocol_errors : ProfileProtocol → List Message
unfolding is_guid_like trim contains
protocol_errors (single (vmess_of server uuid cipher)) =
    when (is_empty (trim uuid) || not (is_guid_like uuid)) invalid_password
protocol_errors (single (vless_of server uuid flow encryption)) =
    when (is_empty (trim uuid) || (not (is_guid_like uuid) && ltb 30 (length uuid)))
      invalid_password
    ++ when (not (contains (trim (or_blank flow)) flows)) invalid_flow
protocol_errors (single (shadowsocks_of server password method udp_over_tcp)) =
    when (is_empty (trim password)) invalid_password
    ++ when (not (contains (trim method) ss_securities)) invalid_ss_method
protocol_errors _ = []

abbrev is_reality : TlsMode → Bool
is_reality reality_mode = true
is_reality tls_mode = false

unfoldable pub is_blank : Option Text → Bool
unfolding trim
is_blank none = true
is_blank (some s) = is_empty (trim s)

-- Whether a final mask is no JSON object.
mask_fails : Library → Option Text → Bool
unfolding is_blank
mask_fails lib none = false
mask_fails lib (some mask) =
    if is_blank (some mask)
    then false
    else elim (lib.from_str mask) [ none ↦ true | some value ↦ not (lib.is_object value) ]

tls_errors : Library → Option TlsSettings → List Message
unfolding is_blank mask_fails
tls_errors lib none = []
tls_errors lib (some tls) =
    when (is_reality tls.mode && is_blank tls.reality_public_key) invalid_public_key
    ++ when (mask_fails lib tls.final_mask) invalid_final_mask

node_errors : Library → ProfileItem → List Message
unfolding network_errors protocol_errors tls_errors get_network searchable_address profile_port
    config_type trim
node_errors lib item =
    when (is_empty (trim (searchable_address item.protocol))) invalid_address
    ++ (when (not (in_port_range (profile_port item))) invalid_port
        ++ (network_errors (config_type item.protocol) (get_network item)
            ++ (protocol_errors item.protocol ++ tls_errors lib item.tls)))

unfoldable pub validate_node : Library → ProfileItem → NodeValidatorResult
unfolding node_errors config_type is_group_type
validate_node lib item =
    let type = config_type item.protocol in
    if is_custom type || is_group_type type
    then empty_result
    else record { errors = node_errors lib item; warnings = [] }

unfoldable pub profile_is_valid : Library → ProfileItem → Bool
unfolding validate_node success
profile_is_valid lib item = success (validate_node lib item)
