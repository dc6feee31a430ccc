-- ===== src/Udp/Address.antt =====
-- crates/voya-udptest/src/lib.rs: SOCKS5 addresses and UDP packets. How the standard library reads
-- and prints IP addresses, and how it repairs bytes that are no UTF-8, are arguments.
pub mod Safety
pub mod Roundtrip
use voya_vpn.Base.{
  ℕ, ◌+◌, ◌-◌, ◌/◌, ◌%◌, Bool, true, false, ◌||◌, List, [], ◌∷◌, ◌++◌, Option, none, some, ltb, leb,
  ◌==◌, if◌then◌else◌, length, get_elem?, take, drop, Text, utf8_bytes,
}
use voya_vpn.Udp.Kind.{from_be_bytes}
use voya_vpn.Udp.Outcome.{
  UdpTestError, packet_too_short, fragment_unsupported, unsupported_address_type, domain_too_long,
  Outcome, ok, err, panic, ◌>>=◌,
}

pub data IpAddr : Type 0 where
  v4 : ℕ → ℕ → ℕ → ℕ → IpAddr
  v6 : List ℕ → IpAddr

-- The standard library's conversions.
pub record NetText : Type 0 where
  pub parse_ip : Text → Option IpAddr
  pub show_ip : IpAddr → Text
  pub from_utf8_lossy : List ℕ → Text
  pub from_utf8 : List ℕ → Option Text

pub record Socks5RemoteEndpoint : Type 0 where
  pub host : Text
  pub port : ℕ
  pub is_domain : Bool

abbrev port_bytes : ℕ → List ℕ
port_bytes port = port / 256 ∷ port % 256 ∷ []

unfoldable pub encode_socks5_address : NetText → Text → ℕ → Outcome (List ℕ)
encode_socks5_address net host port = elim (net.parse_ip host) [
  | some (v4 a b c d) ↦ ok (0x01 ∷ a ∷ b ∷ c ∷ d ∷ port_bytes port)
  | some (v6 octets) ↦ ok (0x04 ∷ octets ++ port_bytes port)
  | none ↦
      if leb (length (utf8_bytes host)) 255
      then ok (0x03 ∷ length (utf8_bytes host) ∷ utf8_bytes host ++ port_bytes port)
      else err domain_too_long
]

unfoldable pub build_socks5_udp_packet : NetText → Text → ℕ → List ℕ → Outcome (List ℕ)
build_socks5_udp_packet net host port data' = do
  address ← encode_socks5_address net host port
  ok (0x00 ∷ 0x00 ∷ 0x00 ∷ address ++ data')

-- `packet[i]`.
unfoldable pub index : List ℕ → ℕ → Outcome ℕ
index packet i = elim (get_elem? packet i) [ none ↦ panic | some b ↦ ok b ]

-- `packet[start..end]`.
unfoldable pub slice : List ℕ → ℕ → ℕ → Outcome (List ℕ)
slice packet start end =
    if ltb end start || ltb (length packet) end
    then panic
    else ok (take (end - start) (drop start packet))

abbrev pub endpoint : Text → ℕ → Bool → Socks5RemoteEndpoint
endpoint host port is_domain = record { host = host; port = port; is_domain = is_domain }

unfoldable pub parse_ipv4 : NetText → List ℕ → ℕ → Outcome (Socks5RemoteEndpoint × ℕ)
parse_ipv4 net packet offset =
    if ltb (length packet) (offset + 4 + 2) then err packet_too_short else (do
      a ← index packet offset
      b ← index packet (offset + 1)
      c ← index packet (offset + 2)
      d ← index packet (offset + 3)
      hi ← index packet (offset + 4)
      lo ← index packet (offset + 5)
      ok (endpoint (net.show_ip (v4 a b c d)) (from_be_bytes hi lo) false, offset + 6))

pub parse_ipv6 : NetText → List ℕ → ℕ → Outcome (Socks5RemoteEndpoint × ℕ)
parse_ipv6 net packet offset =
    if ltb (length packet) (offset + 16 + 2) then err packet_too_short else (do
      octets ← slice packet offset (offset + 16)
      hi ← index packet (offset + 16)
      lo ← index packet (offset + 17)
      ok (endpoint (net.show_ip (v6 octets)) (from_be_bytes hi lo) false, offset + 18))

pub parse_named : NetText → List ℕ → ℕ → ℕ → Outcome (Socks5RemoteEndpoint × ℕ)
parse_named net packet offset count =
    if ltb (length packet) (offset + count + 2) then err packet_too_short else (do
      name ← slice packet offset (offset + count)
      hi ← index packet (offset + count)
      lo ← index packet (offset + count + 1)
      ok (endpoint (net.from_utf8_lossy name) (from_be_bytes hi lo) true, offset + count + 2))

pub parse_domain : NetText → List ℕ → ℕ → Outcome (Socks5RemoteEndpoint × ℕ)
parse_domain net packet offset =
    if leb (length packet) offset
    then err packet_too_short
    else (do count ← index packet offset; parse_named net packet (offset + 1) count)

-- The `match` on the address type.
unfoldable pub parse_by_type : NetText → List ℕ → ℕ → ℕ → Outcome (Socks5RemoteEndpoint × ℕ)
parse_by_type net packet atyp offset =
    if atyp == 0x01
    then parse_ipv4 net packet offset
    else if atyp == 0x04
    then parse_ipv6 net packet offset
    else if atyp == 0x03
    then parse_domain net packet offset
    else err (unsupported_address_type atyp)

unfoldable pub parse_socks5_address_from_packet :
    NetText → List ℕ → ℕ → Outcome (Socks5RemoteEndpoint × ℕ)
parse_socks5_address_from_packet net packet offset =
    if leb (length packet) offset
    then err packet_too_short
    else (do atyp ← index packet offset; parse_by_type net packet atyp (offset + 1))

unfoldable pub parse_socks5_udp_packet : NetText → List ℕ → Outcome (Socks5RemoteEndpoint × List ℕ)
parse_socks5_udp_packet net packet = if ltb (length packet) 4 then err packet_too_short else (do
  fragment ← index packet 2
  if fragment == 0x00
      then (do
        (remote, offset) ← parse_socks5_address_from_packet net packet 3
        data' ← slice packet offset (length packet)
        ok (remote, data'))
      else err fragment_unsupported)
