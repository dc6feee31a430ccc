-- ===== src/Udp/Stream.antt =====
-- crates/voya-udptest/src/lib.rs: reading a SOCKS5 address from the control connection. A reader is
-- the list of the bytes that still come before the connection ends.
pub mod Laws
use voya_vpn.Base.{
  ℕ, ◌+◌, Bool, true, false, List, [], ◌∷◌, Option, none, some, ltb, ◌==◌, if◌then◌else◌, length,
  take, drop, Text,
}
use voya_vpn.Udp.Kind.{byte_at, from_be_bytes}
use voya_vpn.Udp.Outcome.{io, unsupported_address_type, Outcome, ok, err, panic, ◌>>=◌}
use voya_vpn.Udp.Address.{IpAddr, v4, v6, NetText, Socks5RemoteEndpoint, endpoint}

-- `read_exact` into a buffer of that many bytes; it fails where the connection ends first.
unfoldable pub read_exact : ℕ → List ℕ → Outcome (List ℕ × List ℕ)
read_exact n input = if ltb (length input) n then err io else ok (take n input, drop n input)

-- `Ipv4Addr::from([u8; 4])`.
abbrev v4_from : List ℕ → IpAddr
v4_from bytes = v4 (byte_at bytes 0) (byte_at bytes 1) (byte_at bytes 2) (byte_at bytes 3)

unfoldable pub read_port : List ℕ → Outcome (ℕ × List ℕ)
read_port input = do
  (port, rest) ← read_exact 2 input
  ok (from_be_bytes (byte_at port 0) (byte_at port 1), rest)

unfoldable pub read_ipv4 : NetText → List ℕ → Outcome (Socks5RemoteEndpoint × List ℕ)
read_ipv4 net input = do
  (address, r) ← read_exact 4 input
  (port, rest) ← read_port r
  ok (endpoint (net.show_ip (v4_from address)) port false, rest)

unfoldable pub read_ipv6 : NetText → List ℕ → Outcome (Socks5RemoteEndpoint × List ℕ)
read_ipv6 net input = do
  (address, r) ← read_exact 16 input
  (port, rest) ← read_port r
  ok (endpoint (net.show_ip (v6 address)) port false, rest)

unfoldable pub read_domain : NetText → List ℕ → Outcome (Socks5RemoteEndpoint × List ℕ)
read_domain net input = do
  (size, r) ← read_exact 1 input
  (domain, s) ← read_exact (byte_at size 0) r
  (port, rest) ← read_port s
  ok (endpoint (net.from_utf8_lossy domain) port true, rest)

unfoldable pub read_by_type : NetText → ℕ → List ℕ → Outcome (Socks5RemoteEndpoint × List ℕ)
read_by_type net atyp input =
    if atyp == 0x01
    then read_ipv4 net input
    else if atyp == 0x04
    then read_ipv6 net input
    else if atyp == 0x03
    then read_domain net input
    else err (unsupported_address_type atyp)

unfoldable pub read_socks5_address : NetText → List ℕ → Outcome (Socks5RemoteEndpoint × List ℕ)
read_socks5_address net input = do
  (atyp, rest) ← read_exact 1 input
  read_by_type net (byte_at atyp 0) rest
