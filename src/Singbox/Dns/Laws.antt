-- ===== src/Singbox/Dns/Laws.antt =====
-- The ports of DNS servers.
use voya_vpn.Base.{
  ℕ, zero, suc, ◌≡◌, ◌≤◌, refl, ◌||◌, Option, none, some, ◌==◌, [], ◌∷◌, ◌++◌, to_ascii_lowercase,
  if◌then◌else◌, Text, codes, text_eq, is_empty, rsplit_once, parse_u16, parse_u16-le, arith,
  Bool-cases, inl, inr, subst, Gives,
}
use voya_vpn.Context.Domains.{has, has_text, starts_with}
use voya_vpn.Singbox.Dns.{
  Url, UrlParts, DnsServer, first_dns_address, positive, ported, parse_authority_port, Authority,
  with_port, bracketed, plain_authority, after_at, host_and_port, parse_authority, split_authority,
  path_of, known_parts, local_server, bare_parts, parse_bare, host_of, parse_url_parts,
  server_of_parts, server_if_any, parse_dns_address,
}

-- A port, if there is one, is a port that a server can have.
abbrev pub IsPort : Option ℕ → Type 0
IsPort none = Unit
IsPort (some n) = (1 ≤ n) × (n ≤ 65535)

parse_authority_port-IsPort : (port : Text) → IsPort (parse_authority_port port)
unfolding parse_authority_port
parse_authority_port-IsPort port = by_number (parse_u16 port) refl
  where
    by_number : (o : Option ℕ) → parse_u16 port ≡ o → IsPort (positive o)
    by_number none e = tt
    by_number (some zero) e = tt
    by_number (some (suc n)) e = (ground arith, parse_u16-le port (suc n) e)

abbrev HasGoodPort : Authority → Type 0
HasGoodPort (domain, port) = IsPort port

with_port-Gives : (domain : Text) (o : Option ℕ) → IsPort o → Gives HasGoodPort (with_port domain o)
with_port-Gives domain none h = tt
with_port-Gives domain (some n) h = h

bracketed-Gives : (domain rest : Text) → Gives HasGoodPort (bracketed domain rest)
bracketed-Gives domain [] = tt
bracketed-Gives domain (c ∷ rest) = elim (Bool-cases (c == b':')) [
  | inl colon ↦ rw colon (with_port-Gives domain _ (parse_authority_port-IsPort rest))
  | inr other ↦ rw other tt
]

plain_authority-Gives : (authority : Text) → Gives HasGoodPort (plain_authority authority)
unfolding plain_authority
plain_authority-Gives authority = by_split (rsplit_once b':' authority)
  where
    by_split :
        (o : Option (Text × Text))
        → Gives HasGoodPort (elim o as (λ _. Option Authority) [
          | none ↦ some (authority, none)
          | some (domain, port) ↦
              if has b':' domain
              then some (authority, none)
              else with_port domain (parse_authority_port port)
        ])
    by_split none = tt
    by_split (some (domain, port)) = elim (Bool-cases (has b':' domain)) [
      | inl more ↦ rw more tt
      | inr last ↦ rw last (with_port-Gives domain _ (parse_authority_port-IsPort port))
    ]

host_and_port-Gives : (authority : Text) → Gives HasGoodPort (host_and_port authority)
host_and_port-Gives authority = elim (Bool-cases (starts_with (codes "[") authority)) [
  | inl bracket ↦ rw bracket (by_split (rsplit_once b']' authority))
  | inr plain ↦ rw plain (plain_authority-Gives authority)
]
  where
    by_split :
        (o : Option (Text × Text))
        → Gives HasGoodPort (elim o as (λ _. Option Authority) [
          | none ↦ plain_authority authority
          | some (inside, rest) ↦ bracketed (inside ++ codes "]") rest
        ])
    by_split none = plain_authority-Gives authority
    by_split (some (inside, rest)) = bracketed-Gives (inside ++ codes "]") rest

parse_authority-Gives : (authority : Text) → Gives HasGoodPort (parse_authority authority)
unfolding parse_authority
parse_authority-Gives authority = elim (Bool-cases (is_empty authority)) [
  | inl empty ↦ rw empty tt
  | inr some_text ↦ rw some_text (host_and_port-Gives (after_at authority))
]

abbrev PartsPort : UrlParts → Type 0
PartsPort parts = IsPort parts.part_port

bare_parts-Gives :
    (input path : Text) (o : Option Authority)
    → Gives HasGoodPort o
    → Gives PartsPort (bare_parts input path o)
bare_parts-Gives input path none h = tt
bare_parts-Gives input path (some (domain, port)) h = elim (Bool-cases (is_empty domain)) [
  | inl empty ↦ rw empty tt
  | inr named ↦ rw named h
]

parse_bare-Gives : (input : Text) → Gives PartsPort (parse_bare input)
unfolding parse_bare
parse_bare-Gives input = elim (Bool-cases (has_text (codes "://") input)) [
  | inl scheme ↦ rw scheme tt
  | inr bare ↦ rw bare (by_split (split_authority input))
]
  where
    by_split :
        (s : Text × Text)
        → Gives PartsPort (
            let (authority, rest) = s in
            bare_parts input (path_of rest) (parse_authority authority))
    by_split (authority, rest) =
        bare_parts-Gives input (path_of rest) (parse_authority authority)
          (parse_authority-Gives authority)

-- Ports are 16-bit numbers, as in `Url::port`.
pub record HasSmallPorts (url_parse : Text → Option Url) : Type 0 where
  pub small :
      (input : Text) (url : Url) (n : ℕ)
      → url_parse input ≡ some url
      → url.url_port ≡ some n
      → n ≤ 65535

module _ (url_parse : Text → Option Url) (ports : HasSmallPorts url_parse) where
  known_parts-Gives :
      (input host : Text) (url : Url)
      → url_parse input ≡ some url
      → Gives PartsPort (known_parts url host)
  known_parts-Gives input host url e = by_port _ url.url_port refl
    where
      by_port :
          (parts : UrlParts) (o : Option ℕ) → url.url_port ≡ o → Gives PartsPort (ported o parts)
      by_port parts none f = tt
      by_port parts (some zero) f = tt
      by_port parts (some (suc n)) f = (ground arith, ports.small input url (suc n) e f)

  parse_url_parts-Gives : (input : Text) → Gives PartsPort (parse_url_parts url_parse input)
  unfolding parse_url_parts
  parse_url_parts-Gives input = by_url (url_parse input) refl
    where
      by_host :
          (url : Url)
          → url_parse input ≡ some url
          → (h : Option Text)
          → Gives PartsPort
              (elim (elim h as (λ _. Option (Url × Text)) [
                | none ↦ none
                | some host ↦ some (url, host)
              ])
                as (λ _. Option UrlParts) [
                  | none ↦ parse_bare input
                  | some (u, host) ↦ known_parts u host
                ])
      by_host url e none = parse_bare-Gives input
      by_host url e (some host) = known_parts-Gives input host url e

      by_url :
          (o : Option Url)
          → url_parse input ≡ o
          → Gives PartsPort (elim (host_of o) as (λ _. Option UrlParts) [
            | none ↦ parse_bare input
            | some (u, host) ↦ known_parts u host
          ])
      by_url none e = parse_bare-Gives input
      by_url (some url) e = by_host url e url.host_str

  abbrev ServerPort : DnsServer → Type 0
  ServerPort server = IsPort server.server_port

  server_if_any-Gives :
      (o : Option UrlParts) → Gives PartsPort o → Gives ServerPort (server_if_any o)
  unfolding server_of_parts
  server_if_any-Gives none h = tt
  server_if_any-Gives (some parts) h =
      elim (Bool-cases (text_eq (to_ascii_lowercase parts.part_scheme) (codes "dhcp"))) [
        | inl dhcp ↦ rw dhcp tt
        | inr other ↦ rw other h
      ]

  parse_dns_address-Gives :
      (address : Text) → Gives ServerPort (parse_dns_address url_parse address)
  unfolding parse_dns_address
  parse_dns_address-Gives address = by_first (first_dns_address address)
    where
      by_first :
          (o : Option Text)
          → Gives ServerPort (elim o as (λ _. Option DnsServer) [
            | none ↦ none
            | some first ↦
                if text_eq first (codes "local") || text_eq first (codes "localhost")
                then some local_server
                else server_if_any (parse_url_parts url_parse first)
          ])
      by_first none = tt
      by_first (some first) =
          elim (Bool-cases (text_eq first (codes "local") || text_eq first (codes "localhost"))) [
            | inl here ↦ rw here tt
            | inr remote ↦ rw remote (
                server_if_any-Gives (parse_url_parts url_parse first) (parse_url_parts-Gives first))
          ]

  -- Whatever an address says, the port of the server that it reads as, if it has one, is from 1 to
  -- 65535, where the parser of URLs gives 16-bit ports.
  pub parse_dns_address-IsPort :
      (address : Text) (server : DnsServer)
      → parse_dns_address url_parse address ≡ some server
      → IsPort server.server_port
  parse_dns_address-IsPort address server e =
      subst (Gives ServerPort) e (parse_dns_address-Gives address)
