-- ===== src/Udp/Target/Laws.antt =====
-- Reading the target of a probe.
use voya_vpn.Base.{
  ℕ, ◌≡◌, refl, ◌≢◌, [], ◌∷◌, ◌++◌, some, Text, false, Free, split_once-append, rsplit_once-append,
  parse_u16, is_empty, ne→==, trim,
}
use voya_vpn.Udp.Kind.{UdpTestKind, default_target_port, from_name}
use voya_vpn.Udp.Target.{
  bracket_port, plain_host_and_port, parse_host_and_port, parse_trimmed, parse_udp_test_target,
}

plain_host_and_port-append :
    (c : ℕ) (host digits : Text) (port : ℕ) (kind : UdpTestKind)
    → Free b':' digits
    → parse_u16 digits ≡ some port
    → plain_host_and_port (c ∷ (host ++ (b':' ∷ digits))) kind ≡ (c ∷ host, port)
unfolding plain_host_and_port
plain_host_and_port-append c host digits port kind free number =
    rw (rsplit_once-append b':' (c ∷ host) digits free, plain_host_and_port, number)

-- A host with a port reads as written: the host stands before the last colon, is not empty, and
-- does not begin with a bracket; the port is a number up to 65535 without a colon.
pub parse_host_and_port-plain :
    (c : ℕ) (host digits : Text) (port : ℕ) (kind : UdpTestKind)
    → c ≢ b'['
    → Free b':' digits
    → parse_u16 digits ≡ some port
    → parse_host_and_port (c ∷ (host ++ (b':' ∷ digits))) kind ≡ (c ∷ host, port)
unfolding parse_host_and_port
parse_host_and_port-plain c host digits port kind other free number =
    rw (ne→== c b'[' other) (plain_host_and_port-append c host digits port kind free number)

-- A host in brackets reads as written, colons included, with its port or, where none follows the
-- bracket, with the default port of the kind.
pub parse_host_and_port-bracket :
    (host digits : Text) (port : ℕ) (kind : UdpTestKind)
    → Free b']' host
    → parse_u16 digits ≡ some port
    → (parse_host_and_port (b'[' ∷ (host ++ (b']' ∷ b':' ∷ digits))) kind ≡ (host, port))
      × (parse_host_and_port (b'[' ∷ (host ++ (b']' ∷ []))) kind ≡ (host, default_target_port kind))
unfolding parse_host_and_port bracket_port
parse_host_and_port-bracket host digits port kind free number = (
  rw (split_once-append b']' host (b':' ∷ digits) free, parse_host_and_port, number),
  rw (split_once-append b']' host [] free, parse_host_and_port),
)

append-is_empty : (s t : Text) (c : ℕ) → is_empty (s ++ (c ∷ t)) ≡ false
append-is_empty [] t c = refl
append-is_empty (a ∷ s) t c = refl

-- A setting `kind:host:port` reads as written, with blanks around it or not: the kind stands before the
-- first colon, and the port behind the last one, so that a host with colons is kept whole. The host is
-- not empty and does not begin with a bracket, and the port is a number up to 65535.
pub parse_udp_test_target-written :
    (setting name : Text) (c : ℕ) (host digits : Text) (port : ℕ)
    → trim setting ≡ name ++ (b':' ∷ c ∷ (host ++ (b':' ∷ digits)))
    → Free b':' name
    → c ≢ b'['
    → Free b':' digits
    → parse_u16 digits ≡ some port
    → parse_udp_test_target (some setting)
      ≡ record { kind = from_name name; host = c ∷ host; port = port }
unfolding parse_udp_test_target parse_trimmed
parse_udp_test_target-written setting name c host digits port trimmed plain other free number = rw (
  trimmed,
  append-is_empty name (c ∷ (host ++ (b':' ∷ digits))) b':',
  split_once-append b':' name (c ∷ (host ++ (b':' ∷ digits))) plain,
  parse_trimmed,
  parse_host_and_port-plain c host digits port (from_name name) other free number,
)
