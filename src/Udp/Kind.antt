-- ===== src/Udp/Kind.antt =====
-- crates/voya-udptest/src/lib.rs: the probe kinds and their request packets. Bytes are numbers below 256.

use voya_vpn.Base.{
  ℕ, zero, suc, ◌+◌, ◌*◌, List, [], ◌∷◌, none, some, get_elem?, Text, codes, text_eq, trim,
  to_ascii_lowercase, if◌then◌else◌,
}

pub data UdpTestKind : Type 0 where
  ntp dns stun mcbe : UdpTestKind

-- `UdpTestKind::from_name`.
unfoldable pub from_name : Text → UdpTestKind
unfolding trim to_ascii_lowercase
from_name value =
    let name = to_ascii_lowercase (trim value) in
    if text_eq name (codes "dns")
    then dns
    else if text_eq name (codes "stun")
    then stun
    else if text_eq name (codes "mcbe")
    then mcbe
    else ntp

unfoldable pub default_target_host : UdpTestKind → Text
default_target_host ntp = codes "pool.ntp.org"
default_target_host dns = codes "8.8.8.8"
default_target_host stun = codes "stun.voztovoice.org"
default_target_host mcbe = codes "pms.mc-complex.com"

unfoldable pub default_target_port : UdpTestKind → ℕ
default_target_port ntp = 123
default_target_port dns = 53
default_target_port stun = 3478
default_target_port mcbe = 19132

zeros : ℕ → List ℕ
zeros zero = []
zeros (suc n) = 0 ∷ zeros n

abbrev dns_query_packet : List ℕ
dns_query_packet =
    0x12 ∷ 0x34 ∷ 0x01 ∷ 0x00 ∷ 0x00 ∷ 0x01 ∷ 0x00 ∷ 0x00 ∷ 0x00 ∷ 0x00 ∷ 0x00 ∷ 0x00 ∷ 0x03 ∷ 0x77
    ∷ 0x77 ∷ 0x77 ∷ 0x06 ∷ 0x67 ∷ 0x6f ∷ 0x6f ∷ 0x67 ∷ 0x6c ∷ 0x65 ∷ 0x03 ∷ 0x63 ∷ 0x6f ∷ 0x6d
    ∷ 0x00 ∷ 0x00 ∷ 0x01 ∷ 0x00 ∷ 0x01 ∷ []

abbrev stun_binding_request_packet : List ℕ
stun_binding_request_packet =
    0x00 ∷ 0x01 ∷ 0x00 ∷ 0x00 ∷ 0x21 ∷ 0x12 ∷ 0xa4 ∷ 0x42 ∷ 0x66 ∷ 0x0e ∷ 0xab ∷ 0xbc ∷ 0x61 ∷ 0x0d
    ∷ 0xa4 ∷ 0x40 ∷ 0x8c ∷ 0x65 ∷ 0xc1 ∷ 0xbe ∷ []

abbrev pub mcbe_magic_bytes : List ℕ
mcbe_magic_bytes =
    0x00 ∷ 0xff ∷ 0xff ∷ 0x00 ∷ 0xfe ∷ 0xfe ∷ 0xfe ∷ 0xfe ∷ 0xfd ∷ 0xfd ∷ 0xfd ∷ 0xfd ∷ 0x12 ∷ 0x34
    ∷ 0x56 ∷ 0x78 ∷ []

abbrev mcbe_query_packet : List ℕ
mcbe_query_packet =
    0x01 ∷ 0x27 ∷ 0xc4 ∷ 0x15 ∷ 0x00 ∷ 0x00 ∷ 0x00 ∷ 0x00 ∷ 0x00 ∷ 0x00 ∷ 0xff ∷ 0xff ∷ 0x00 ∷ 0xfe
    ∷ 0xfe ∷ 0xfe ∷ 0xfe ∷ 0xfd ∷ 0xfd ∷ 0xfd ∷ 0xfd ∷ 0x12 ∷ 0x34 ∷ 0x56 ∷ 0x78 ∷ 0x66 ∷ 0x0e
    ∷ 0xab ∷ 0xbc ∷ 0x61 ∷ 0x0d ∷ 0x1f ∷ 0x4e ∷ 0xa4 ∷ 0x40 ∷ 0x8c ∷ 0x65 ∷ 0xc1 ∷ 0xbe ∷ 0xf5
    ∷ 0x4b ∷ []

unfoldable pub build_request_packet : UdpTestKind → List ℕ
unfolding zeros
build_request_packet ntp = 0x23 ∷ zeros 47
build_request_packet dns = dns_query_packet
build_request_packet stun = stun_binding_request_packet
build_request_packet mcbe = mcbe_query_packet

-- `u16::from_be_bytes`.
abbrev pub from_be_bytes : ℕ → ℕ → ℕ
from_be_bytes hi lo = hi * 256 + lo

-- `header[i]` of an array of a fixed size, whose constant indices exist.
abbrev pub byte_at : List ℕ → ℕ → ℕ
byte_at header i = elim (get_elem? header i) [ none ↦ 0 | some b ↦ b ]
