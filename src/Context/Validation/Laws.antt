-- ===== src/Context/Validation/Laws.antt =====
-- What a profile has that sing-box can use.
use voya_vpn.Base.{
  ℕ, ℤ, pos, negsuc, ◌≡◌, ◌≤◌, refl, sym, ◌∙◌, Bool, true, false, not, ◌&&◌, List, [], ◌∷◌, ◌++◌,
  Option, none, some, is_empty, trim, leb, leb→le, text_eq,
}
use voya_vpn.Entities.{
  ProfileItem, config_type, is_group_type, searchable_address, profile_port, TlsSettings,
}
use voya_vpn.Groups.Profile.{contains}
use voya_vpn.Context.Library.{Library}
use voya_vpn.Context.Messages.{
  invalid_address, invalid_port, invalid_public_key, invalid_final_mask, unsupported_network,
  unsupported_protocol, unsupported_protocol_network, unsupported_shadowsocks_network, Message,
  no_messages, success,
}
use voya_vpn.Context.Validation.{
  get_network, in_port_range, unsupported_transports, is_custom, when, network_errors,
  protocol_errors, tls_errors, node_errors, validate_node, singbox_supports_config_type,
  shadowsocks_transports, is_shadowsocks, is_reality, is_blank, mask_fails, default_network,
  singbox_transport_supported_protocol,
}

no_messages-append :
    (xs ys : List Message) → no_messages (xs ++ ys) ≡ (no_messages xs && no_messages ys)
no_messages-append [] ys = refl
no_messages-append (x ∷ xs) ys = refl

no_messages-when : (b : Bool) (message : Message) → no_messages (when b message) ≡ not b
no_messages-when true message = refl
no_messages-when false message = refl

both_of : (a b : Bool) → (a && b) ≡ true → (a ≡ true) × (b ≡ true)
both_of true b h = (refl, h)
both_of false b h = absurd (cc)

-- The first of two lists of messages, and the second, where neither has one.
silent :
    (xs ys : List Message)
    → no_messages (xs ++ ys) ≡ true
    → (no_messages xs ≡ true) × (no_messages ys ≡ true)
silent xs ys h = both_of (no_messages xs) (no_messages ys) (sym (no_messages-append xs ys) ∙ h)

not_of : (b : Bool) → not b ≡ true → b ≡ false
not_of true h = absurd (cc)
not_of false h = refl

passed : (b : Bool) (message : Message) → no_messages (when b message) ≡ true → b ≡ false
passed b message h = not_of b (sym (no_messages-when b message) ∙ h)

pub record HasPort (port : ℤ) : Type 0 where
  pub number : ℕ
  pub is_number : port ≡ pos number
  pub positive : 1 ≤ number
  pub sixteen_bits : number ≤ 65535

in_port_range-HasPort : (port : ℤ) → in_port_range port ≡ true → HasPort port
in_port_range-HasPort (pos n) h = record {
  number = n;
  is_number = refl;
  positive = leb→le 1 n (both_of (leb 1 n) (leb n 65535) h).0;
  sixteen_bits = leb→le n 65535 (both_of (leb 1 n) (leb n 65535) h).1;
}
in_port_range-HasPort (negsuc n) h = absurd (cc)

-- Of a reality connection.
abbrev HasRealityKey : Option TlsSettings → Type 0
HasRealityKey none = Unit
HasRealityKey (some tls) = is_reality tls.mode ≡ true → is_blank tls.reality_public_key ≡ false

pub record IsUsable (item : ProfileItem) : Type 0 where
  pub address : is_empty (trim (searchable_address item.protocol)) ≡ false
  pub port : HasPort (profile_port item)
  pub network : contains (get_network item) unsupported_transports ≡ false
  pub supported : singbox_supports_config_type (config_type item.protocol) ≡ true
  pub plain_network :
      singbox_transport_supported_protocol (config_type item.protocol) ≡ false
      → text_eq (get_network item) default_network ≡ true
  pub reality_key : HasRealityKey item.tls

tls-HasRealityKey :
    (lib : Library) (tls : Option TlsSettings)
    → no_messages (tls_errors lib tls) ≡ true
    → HasRealityKey tls
unfolding tls_errors
tls-HasRealityKey lib none h = tt
tls-HasRealityKey lib (some tls) h =
    let missing = is_reality tls.mode && is_blank tls.reality_public_key in
    let (key, rest) =
      silent (when missing invalid_public_key)
        (when (mask_fails lib tls.final_mask) invalid_final_mask) h in
    λ reality.
      second (is_reality tls.mode) (is_blank tls.reality_public_key) reality
        (passed missing invalid_public_key key)
  where
    second : (a b : Bool) → a ≡ true → (a && b) ≡ false → b ≡ false
    second true b e k = k
    second false b e k = absurd (cc)

node_errors-IsUsable :
    (lib : Library) (item : ProfileItem) → no_messages (node_errors lib item) ≡ true → IsUsable item
unfolding node_errors network_errors
node_errors-IsUsable lib item h =
    let type = config_type item.protocol in
    let net = get_network item in
    let e1 = when (is_empty (trim (searchable_address item.protocol))) invalid_address in
    let e2 = when (not (in_port_range (profile_port item))) invalid_port in
    let e3 = network_errors type net in
    let e4 = protocol_errors item.protocol in
    let e5 = tls_errors lib item.tls in
    let f1 = when (contains net unsupported_transports) (unsupported_network net) in
    let f2 = when (not (singbox_supports_config_type type)) (unsupported_protocol type) in
    let f3 =
      when (not (singbox_transport_supported_protocol type) && not (text_eq net default_network))
        (unsupported_protocol_network type net) in
    let f4 =
      when (is_shadowsocks type && not (contains net shadowsocks_transports))
        (unsupported_shadowsocks_network net) in
    let (address, h1) = silent e1 (e2 ++ (e3 ++ (e4 ++ e5))) h in
    let (port, h2) = silent e2 (e3 ++ (e4 ++ e5)) h1 in
    let (network, h3) = silent e3 (e4 ++ e5) h2 in
    let (protocol, tls) = silent e4 e5 h3 in
    let (transport, n1) = silent f1 (f2 ++ (f3 ++ f4)) network in
    let (supported, n2) = silent f2 (f3 ++ f4) n1 in
    let (combination, n3) = silent f3 f4 n2 in
    record {
      address = passed (is_empty (trim (searchable_address item.protocol))) invalid_address address;
      port = in_port_range-HasPort (profile_port item) (
          unnot (in_port_range (profile_port item))
            (passed (not (in_port_range (profile_port item))) invalid_port port));
      network = passed (contains net unsupported_transports) (unsupported_network net) transport;
      supported =
          unnot (singbox_supports_config_type type) (
            passed (not (singbox_supports_config_type type)) (unsupported_protocol type) supported);
      plain_network = λ other.
          plain (singbox_transport_supported_protocol type) (text_eq net default_network) other (
            passed
              (not (singbox_transport_supported_protocol type) && not (text_eq net default_network))
              (unsupported_protocol_network type net) combination);
      reality_key = tls-HasRealityKey lib item.tls tls;
    }
  where
    unnot : (b : Bool) → not b ≡ false → b ≡ true
    unnot true e = refl
    unnot false e = absurd (cc)

    plain : (a b : Bool) → a ≡ false → (not a && not b) ≡ false → b ≡ true
    plain true b e k = absurd (cc)
    plain false true e k = refl
    plain false false e k = absurd (cc)

-- A profile that is neither a custom configuration nor a group and that passes the validation has an
-- address that is not blank, a port from 1 to 65535, a protocol and a network that sing-box supports,
-- the plain network where its protocol has no other, and a public key where it uses reality.
pub validate_node-IsUsable :
    (lib : Library) (item : ProfileItem)
    → is_custom (config_type item.protocol) ≡ false
    → is_group_type (config_type item.protocol) ≡ false
    → success (validate_node lib item) ≡ true
    → IsUsable item
unfolding validate_node success
validate_node-IsUsable lib item own no_group h =
    node_errors-IsUsable lib item (rw (own, no_group) at h)
