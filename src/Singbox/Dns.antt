-- ===== src/Singbox/Dns.antt =====
-- crates/voya-core/src/singbox/dns/address.rs: the addresses of DNS servers, and hosts files.
pub mod Hosts
pub mod Laws
mod Tests
use voya_vpn.Base.{
  ℕ, zero, suc, ◌-◌, Bool, true, false, not, ◌&&◌, ◌||◌, List, [], ◌∷◌, ◌++◌, Option, none, some,
  ◌==◌, ltb, if◌then◌else◌, drop, length, all, Text, codes, text_eq, is_empty, trim, rsplit_once,
  split_at, parse_u16, to_ascii_lowercase,
}
use voya_vpn.Context.Domains.{has, has_text, starts_with, is_ascii_alphanumeric}
use voya_vpn.Context.Env.{find}

-- What `url::Url` tells of an URL it has parsed.
pub record Url : Type 0 where
  pub host_str : Option Text
  pub scheme : Text
  pub url_port : Option ℕ
  pub url_path : Text
  pub query : Option Text

pub record UrlParts : Type 0 where
  pub domain : Text
  pub part_scheme : Text
  pub part_port : Option ℕ
  pub part_path : Text

pub record DnsServer : Type 0 where
  pub server_type : Text
  pub server : Option Text
  pub server_port : Option ℕ
  pub path : Option Text

-- The first piece that is not blank.
unfoldable pub first_dns_address : Text → Option Text
first_dns_address address =
    first_named (split_at (if has b',' address then b',' else b';') [] address)
  where
    first_named : List Text → Option Text
    first_named [] = none
    first_named (piece ∷ pieces) =
        if is_empty (trim piece) then first_named pieces else some (trim piece)

-- `filter(|port| *port > 0)`.
abbrev pub positive : Option ℕ → Option ℕ
positive none = none
positive (some zero) = none
positive (some (suc n)) = some (suc n)

unfoldable pub parse_authority_port : Text → Option ℕ
parse_authority_port port = positive (parse_u16 port)

abbrev pub Authority : Type 0
Authority = Text × Option ℕ

abbrev with_port : Text → Option ℕ → Option Authority
with_port domain none = none
with_port domain (some n) = some (domain, some n)

-- What stands behind the closing bracket.
abbrev pub bracketed : Text → Text → Option Authority
bracketed domain [] = some (domain, none)
bracketed domain (c ∷ rest) =
    if c == b':' then with_port domain (parse_authority_port rest) else none

unfoldable pub plain_authority : Text → Option Authority
plain_authority authority = elim (rsplit_once b':' authority) [
  | none ↦ some (authority, none)
  | some (domain, port) ↦
      if has b':' domain
      then some (authority, none)
      else with_port domain (parse_authority_port port)
]

abbrev pub after_at : Text → Text
after_at authority = elim (rsplit_once b'@' authority) [
  | none ↦ authority
  | some (user, host) ↦ host
]

abbrev pub host_and_port : Text → Option Authority
host_and_port authority =
    if starts_with (codes "[") authority
    then elim (rsplit_once b']' authority) [
      | none ↦ plain_authority authority
      | some (inside, rest) ↦ bracketed (inside ++ codes "]") rest
    ]
    else plain_authority authority

unfoldable pub parse_authority : Text → Option Authority
parse_authority authority =
    if is_empty authority then some ([], none) else host_and_port (after_at authority)

-- Before and from the first of `/`, `?` and `#` on.
unfoldable pub split_authority : Text → Text × Text
split_authority [] = ([], [])
split_authority (c ∷ s) =
    let (before, rest) = split_authority s in
    if c == b'/' || (c == b'?' || c == b'#') then ([], c ∷ s) else (c ∷ before, rest)

abbrev before_hash : Text → Text
before_hash [] = []
before_hash (c ∷ s) = let rest = before_hash s in if c == b'#' then [] else c ∷ rest

abbrev pub path_of : Text → Text
path_of rest = if starts_with (codes "/") rest then before_hash rest else []

abbrev query_of : Option Text → Text
query_of none = []
query_of (some query) = b'?' ∷ query

-- A port 0 is refused.
abbrev pub ported : Option ℕ → UrlParts → Option UrlParts
ported none parts = some (record parts { part_port = none })
ported (some zero) parts = none
ported (some (suc n)) parts = some (record parts { part_port = some (suc n) })

abbrev pub known_parts : Url → Text → Option UrlParts
known_parts url host = ported url.url_port (record {
  domain = host;
  part_scheme = url.scheme;
  part_port = none;
  part_path = url.url_path ++ query_of url.query;
})

abbrev pub bare_parts : Text → Text → Option Authority → Option UrlParts
bare_parts input path none = none
bare_parts input path (some (domain, port)) =
    if is_empty domain
    then some (record { domain = input; part_scheme = []; part_port = none; part_path = [] })
    else some (record { domain = domain; part_scheme = []; part_port = port; part_path = path })

-- An address without a scheme: behind the guard there is no `://` to split at.
unfoldable pub parse_bare : Text → Option UrlParts
parse_bare input =
    if has_text (codes "://") input
    then none
    else (let (authority, rest) = split_authority input in
        bare_parts input (path_of rest) (parse_authority authority))

abbrev pub host_of : Option Url → Option (Url × Text)
host_of none = none
host_of (some url) = elim url.host_str [ none ↦ none | some host ↦ some (url, host) ]

-- `Url::parse` is an argument.
unfoldable pub parse_url_parts : (Text → Option Url) → Text → Option UrlParts
parse_url_parts url_parse input = elim (host_of (url_parse input)) [
  | none ↦ parse_bare input
  | some (url, host) ↦ known_parts url host
]

-- `replace("+local", "")`: what is left without the text.
abbrev remove_text : ℕ → Text → Text → Text
remove_text skipped text [] = []
remove_text (suc skipped) text (c ∷ s) = remove_text skipped text s
remove_text zero text (c ∷ s) =
    let skip = remove_text (length text - 1) text s in
    let keep = remove_text zero text s in if starts_with text (c ∷ s) then skip else c ∷ keep

abbrev some_unless : Bool → Text → Option Text
some_unless true s = none
some_unless false s = some s

-- The scheme of an URL is in ASCII.
abbrev type_of : Text → Text
type_of scheme =
    if is_empty scheme
    then codes "udp"
    else to_ascii_lowercase (remove_text 0 (codes "+local") scheme)

unfoldable pub server_of_parts : UrlParts → DnsServer
server_of_parts parts =
    if text_eq (to_ascii_lowercase parts.part_scheme) (codes "dhcp")
    then record {
      server_type = codes "dhcp";
      server =
          some_unless (is_empty parts.domain || text_eq parts.domain (codes "auto")) parts.domain;
      server_port = none;
      path = none;
    }
    else (let type = type_of parts.part_scheme in
        record {
          server_type = type;
          server = some_unless (is_empty parts.domain) parts.domain;
          server_port = parts.part_port;
          path =
              some_unless
                (not (text_eq type (codes "https") || text_eq type (codes "h3"))
                  || (is_empty parts.part_path || text_eq parts.part_path (codes "/")))
                parts.part_path;
        })

abbrev pub local_server : DnsServer
local_server = record {
  server_type = codes "local";
  server = none;
  server_port = none;
  path = none;
}

abbrev pub server_if_any : Option UrlParts → Option DnsServer
server_if_any none = none
server_if_any (some parts) = some (server_of_parts parts)

unfoldable pub parse_dns_address : (Text → Option Url) → Text → Option DnsServer
parse_dns_address url_parse address = elim (first_dns_address address) [
  | none ↦ none
  | some first ↦
      if text_eq first (codes "local") || text_eq first (codes "localhost")
      then some local_server
      else server_if_any (parse_url_parts url_parse first)
]
