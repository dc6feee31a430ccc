-- ===== src/Entities.antt =====
-- crates/voya-core/src/entities.rs: profiles, and what the program reads of them.
pub mod Routing
use voya_vpn.Base.{ℤ, pos, Bool, true, false, List, [], ◌∷◌, Option, none, some, Text, codes}

pub data ConfigType : Type 0 where
  vmess custom shadowsocks socks vless trojan hysteria2 tuic wire_guard : ConfigType
  http anytls naive policy_group proxy_chain : ConfigType

unfoldable pub is_group_type : ConfigType → Bool
is_group_type policy_group = true
is_group_type proxy_chain = true
is_group_type _ = false

unfoldable pub is_complex_type : ConfigType → Bool
is_complex_type custom = true
is_complex_type policy_group = true
is_complex_type proxy_chain = true
is_complex_type _ = false

-- The port is an `i32`.
pub record ServerEndpoint : Type 0 where
  pub address : Text
  pub port : ℤ

-- The protocols that are no group, with their fields in the order of the source.
pub data ServerProtocol : Type 0 where
  vmess_of : ServerEndpoint → Text → Option Text → ServerProtocol
  custom_of : Text → Option Text → ServerProtocol
  shadowsocks_of : ServerEndpoint → Text → Text → Bool → ServerProtocol
  socks_of : ServerEndpoint → Text → Text → ServerProtocol
  vless_of : ServerEndpoint → Text → Option Text → Option Text → ServerProtocol
  trojan_of : ServerEndpoint → Text → ServerProtocol
  hysteria2_of : ServerEndpoint → Text → Option Text → Option Text → ServerProtocol
  tuic_of : ServerEndpoint → Text → Text → Option Text → ServerProtocol
  wire_guard_of :
      ServerEndpoint
      → Text
      → Option Text
      → Option Text
      → Option Text
      → Option Text
      → Option Text
      → Option ℤ
      → ServerProtocol
  http_of : ServerEndpoint → Text → Text → ServerProtocol
  anytls_of : ServerEndpoint → Text → ServerProtocol
  naive_of : ServerEndpoint → Text → Text → Bool → Option Text → Option ℤ → Bool → ServerProtocol

-- A policy group has its children, a subscription and a filter; nothing here reads its strategy.
pub data ProfileProtocol : Type 0 where
  single : ServerProtocol → ProfileProtocol
  policy_group_of : List Text → Option Text → Option Text → ProfileProtocol
  proxy_chain_of : List Text → ProfileProtocol

unfoldable pub config_type : ProfileProtocol → ConfigType
config_type (single (vmess_of server uuid cipher)) = vmess
config_type (single (custom_of source filter)) = custom
config_type (single (shadowsocks_of server password method udp_over_tcp)) = shadowsocks
config_type (single (socks_of server username password)) = socks
config_type (single (vless_of server uuid flow encryption)) = vless
config_type (single (trojan_of server password)) = trojan
config_type (single (hysteria2_of server password port_hops obfuscation)) = hysteria2
config_type (single (tuic_of server uuid password control)) = tuic
config_type (single (wire_guard_of server key peer preshared address ips reserved mtu)) = wire_guard
config_type (single (http_of server username password)) = http
config_type (single (anytls_of server password)) = anytls
config_type (single (naive_of server username password quic control concurrency tcp)) = naive
config_type (policy_group_of ids subscription filter) = policy_group
config_type (proxy_chain_of ids) = proxy_chain

abbrev pub server_of : ServerProtocol → Option ServerEndpoint
server_of (vmess_of server uuid cipher) = some server
server_of (custom_of source filter) = none
server_of (shadowsocks_of server password method udp_over_tcp) = some server
server_of (socks_of server username password) = some server
server_of (vless_of server uuid flow encryption) = some server
server_of (trojan_of server password) = some server
server_of (hysteria2_of server password port_hops obfuscation) = some server
server_of (tuic_of server uuid password control) = some server
server_of (wire_guard_of server key peer preshared address ips reserved mtu) = some server
server_of (http_of server username password) = some server
server_of (anytls_of server password) = some server
server_of (naive_of server username password quic control concurrency tcp) = some server

unfoldable pub server : ProfileProtocol → Option ServerEndpoint
server (single protocol) = server_of protocol
server (policy_group_of ids subscription filter) = none
server (proxy_chain_of ids) = none

abbrev address_of : Option ServerEndpoint → Text
address_of none = []
address_of (some endpoint) = endpoint.address

unfoldable pub searchable_address : ProfileProtocol → Text
unfolding server
searchable_address (single (custom_of source filter)) = source
searchable_address protocol = address_of (server protocol)

unfoldable pub child_profile_ids : ProfileProtocol → List Text
child_profile_ids (single t) = []
child_profile_ids (policy_group_of ids subscription filter) = ids
child_profile_ids (proxy_chain_of ids) = ids

unfoldable pub replace_child_profile_ids : List Text → ProfileProtocol → ProfileProtocol
replace_child_profile_ids ids (single t) = single t
replace_child_profile_ids ids (policy_group_of old subscription filter) =
    policy_group_of ids subscription filter
replace_child_profile_ids ids (proxy_chain_of old) = proxy_chain_of ids

pub data ProfileTransport : Type 0 where
  tcp_of : Option Text → Option Text → Option Text → ProfileTransport
  kcp_of : Option Text → Option Text → Option ℤ → ProfileTransport
  websocket_of : Option Text → Option Text → ProfileTransport
  http_upgrade_of : Option Text → Option Text → ProfileTransport
  xhttp_of : Option Text → Option Text → Option Text → Option Text → ProfileTransport
  http2_of : Option Text → Option Text → ProfileTransport
  grpc_of : Option Text → Option Text → Option Text → ProfileTransport
  quic_of : Option Text → Option Text → ProfileTransport

unfoldable pub transport_name : ProfileTransport → Text
transport_name (tcp_of header host path) = codes "raw"
transport_name (kcp_of header seed mtu) = codes "kcp"
transport_name (websocket_of host path) = codes "ws"
transport_name (http_upgrade_of host path) = codes "httpupgrade"
transport_name (xhttp_of host path mode extra) = codes "xhttp"
transport_name (http2_of host path) = codes "h2"
transport_name (grpc_of authority service_name mode) = codes "grpc"
transport_name (quic_of host path) = codes "quic"

pub data TlsMode : Type 0 where
  tls_mode reality_mode : TlsMode

pub record TlsSettings : Type 0 where
  pub mode : TlsMode
  pub server_name : Option Text
  pub alpn : List Text
  pub reality_public_key : Option Text
  pub reality_short_id : Option Text
  pub reality_spider_x : Option Text
  pub mldsa65_verify : Option Text
  pub certificate_pem : Option Text
  pub certificate_sha256 : List Text
  pub ech_config : List Text
  pub final_mask : Option Text

-- All but whether the profile's log is shown.
pub record ProfileItem : Type 0 where
  pub index_id : Text
  pub subscription_id : Option Text
  pub remarks : Text
  pub protocol : ProfileProtocol
  pub transport : Option ProfileTransport
  pub tls : Option TlsSettings

abbrev port_of : Option ServerEndpoint → ℤ
port_of none = pos 0
port_of (some endpoint) = endpoint.port

unfoldable pub profile_port : ProfileItem → ℤ
unfolding server
profile_port profile = port_of (server profile.protocol)

abbrev network_of : Option ProfileTransport → Text
network_of none = []
network_of (some transport) = transport_name transport

unfoldable pub profile_network : ProfileItem → Text
profile_network profile = network_of profile.transport

-- `ProfileItem::default()`.
unfoldable pub default_profile : ProfileItem
default_profile = record {
  index_id = [];
  subscription_id = none;
  remarks = [];
  protocol = single (vmess_of (record { address = []; port = pos 0 }) [] none);
  transport = none;
  tls = none;
}
