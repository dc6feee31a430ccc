-- ===== src/Udp/Target.antt =====
-- crates/voya-udptest/src/lib.rs: the setting that names a probe's target, `kind:host:port`.
pub mod Laws
use voya_vpn.Base.{
  ℕ, Bool, true, false, List, [], ◌∷◌, Option, none, some, ◌==◌, if◌then◌else◌, Text, codes,
  is_empty, trim, split_once, rsplit_once, parse_u16,
}
use voya_vpn.Udp.Kind.{UdpTestKind, ntp, from_name, default_target_host, default_target_port}

pub record UdpTestTarget : Type 0 where
  pub kind : UdpTestKind
  pub host : Text
  pub port : ℕ

abbrev or_default : Option ℕ → ℕ → ℕ
or_default none d = d
or_default (some n) d = n

-- What stands behind `]`: a colon and a port, or the default.
bracket_port : Text → ℕ → ℕ
unfolding parse_u16
bracket_port [] d = d
bracket_port (c ∷ s) d = if c == b':' then or_default (parse_u16 s) d else d

-- The last colon splits off a port if a host stands before it and a number behind it.
plain_host_and_port : Text → UdpTestKind → Text × ℕ
unfolding rsplit_once parse_u16 default_target_port
plain_host_and_port value kind = elim (rsplit_once b':' value) [
  | none ↦ (value, default_target_port kind)
  | some (host, port) ↦
      if is_empty host
      then (value, default_target_port kind)
      else elim (parse_u16 port) [ none ↦ (value, default_target_port kind) | some n ↦ (host, n) ]
]

unfoldable pub parse_host_and_port : Text → UdpTestKind → Text × ℕ
unfolding bracket_port plain_host_and_port split_once default_target_host default_target_port
parse_host_and_port [] kind = (default_target_host kind, default_target_port kind)
parse_host_and_port (c ∷ rest) kind =
    if c == b'['
    then elim (split_once b']' rest) [
      | none ↦ plain_host_and_port (c ∷ rest) kind
      | some (host, suffix) ↦ (host, bracket_port suffix (default_target_port kind))
    ]
    else plain_host_and_port (c ∷ rest) kind

abbrev target_of : UdpTestKind → Text → UdpTestTarget
target_of kind value =
    let (host, port) = parse_host_and_port value kind in
    record { kind = kind; host = host; port = port }

parse_trimmed : Text → UdpTestTarget
unfolding parse_host_and_port split_once from_name
parse_trimmed value = elim (split_once b':' value) [
  | none ↦ target_of ntp []
  | some (kind, host) ↦ target_of (from_name kind) host
]

-- An absent or blank setting reads as an NTP probe of the default host.
unfoldable pub parse_udp_test_target : Option Text → UdpTestTarget
unfolding parse_trimmed trim
parse_udp_test_target none = target_of ntp []
parse_udp_test_target (some target) =
    if is_empty (trim target) then target_of ntp [] else parse_trimmed (trim target)
