-- ===== src/Singbox/Dns/Tests.antt =====
-- An address without a scheme, and a hosts file.
use voya_vpn.Base.{
  ◌≡◌, refl, [], ◌∷◌, ◌++◌, Option, none, some, Text, codes, is_whitespace, trim, trim_start,
  split_at, rsplit_once, parse_digits, parse_u16, to_ascii_lowercase,
}
use voya_vpn.Singbox.Dns.{
  Url, DnsServer, first_dns_address, parse_authority_port, plain_authority, parse_authority,
  split_authority, parse_bare, parse_url_parts, server_of_parts, parse_dns_address,
}
use voya_vpn.Singbox.Dns.Hosts.{
  split_whitespace, line_entry, extend_entry, parse_hosts_to_dictionary, addresses_of, given,
  content_of, parse_hosts_to_dictionary-given,
}
use voya_vpn.Singbox.Dns.Laws.{IsPort, HasSmallPorts, parse_dns_address-IsPort}

-- A parser that refuses everything.
abbrev no_url : Text → Option Url
no_url input = none

no_url-HasSmallPorts : HasSmallPorts no_url
no_url-HasSmallPorts = record { small = λ input url n e f. absurd (cc) }

abbrev quad : DnsServer
quad = record {
  server_type = codes "udp";
  server = some (codes "9.9.9.9");
  server_port = some 53;
  path = none;
}

quad_read : parse_dns_address no_url (codes " , 9.9.9.9:53,1.1.1.1") ≡ some quad
unfolding parse_dns_address first_dns_address parse_url_parts parse_bare split_authority
    parse_authority plain_authority parse_authority_port parse_u16 parse_digits rsplit_once
    server_of_parts split_at trim trim_start is_whitespace to_ascii_lowercase
quad_read = refl

parse_dns_address-IsPort_example : IsPort quad.server_port
parse_dns_address-IsPort_example =
    parse_dns_address-IsPort no_url no_url-HasSmallPorts (codes " , 9.9.9.9:53,1.1.1.1") quad
      quad_read

-- Two lines for one name, and a comment.
abbrev hosts : Text
hosts = codes "a.b 1.1.1.1 2.2.2.2" ++ (10 ∷ (codes "#a.b 3.3.3.3" ++ (10 ∷ codes "a.b 4.4.4.4")))

hosts_read :
    addresses_of (codes "a.b") (parse_hosts_to_dictionary (some hosts))
    ≡ codes "1.1.1.1" ∷ codes "2.2.2.2" ∷ codes "4.4.4.4" ∷ []
unfolding parse_hosts_to_dictionary line_entry extend_entry split_whitespace split_at trim
    trim_start is_whitespace
hosts_read = refl

parse_hosts_to_dictionary-given_example :
    addresses_of (codes "a.b") (parse_hosts_to_dictionary (some hosts))
    ≡ given (codes "a.b") (split_at 10 [] (content_of (some hosts)))
parse_hosts_to_dictionary-given_example = parse_hosts_to_dictionary-given (codes "a.b") (some hosts)
