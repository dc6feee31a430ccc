-- ===== src/Udp/Address/Safety.antt =====
-- Reading a SOCKS5 UDP packet stays inside the packet, whatever the bytes are.
use voya_vpn.Base.{
  ℕ, zero, suc, ◌+◌, ◌≤◌, ◌<◌, ◌≢◌, inl, inr, List, [], ◌∷◌, arith, ltb, leb, ◌==◌, length,
  Bool-cases, ltb_of_le, ◌≡◌, refl, Option, none, some, Text, utf8_bytes,
}
use mathlib.Core.Path.{subst}
use voya_vpn.Udp.Outcome.{panic}
use voya_vpn.Udp.Ensures.{Ensures, Ensures-bind, Any}
use voya_vpn.Udp.Address.{
  IpAddr, v4, v6, encode_socks5_address, build_socks5_udp_packet, NetText, Socks5RemoteEndpoint,
  index, slice, parse_ipv4, parse_ipv6, parse_named, parse_domain, parse_by_type,
  parse_socks5_address_from_packet, parse_socks5_udp_packet,
}

pub index-Ensures : (packet : List ℕ) (i : ℕ) → i < length packet → Ensures Any (index packet i)
unfolding index
index-Ensures [] i h = elim h [ ]
index-Ensures (b ∷ packet) zero h = tt
index-Ensures (b ∷ packet) (suc i) h = index-Ensures packet i (omega arith)

slice-Ensures :
    (packet : List ℕ) (start end : ℕ)
    → start ≤ end
    → end ≤ length packet
    → Ensures Any (slice packet start end)
unfolding slice
slice-Ensures packet start end h k = rw (ltb_of_le end start h, ltb_of_le (length packet) end k) tt

abbrev Inside : List ℕ → Socks5RemoteEndpoint × ℕ → Type 0
Inside packet r = r.1 ≤ length packet

parse_ipv4-Ensures :
    (net : NetText) (packet : List ℕ) (offset : ℕ)
    → Ensures (Inside packet) (parse_ipv4 net packet offset)
unfolding parse_ipv4
parse_ipv4-Ensures net packet offset = elim (Bool-cases (ltb (length packet) (offset + 4 + 2))) [
  | inl short ↦ rw short tt
  | inr long ↦ rw long (
      Ensures-bind Any _ (index packet offset) _ (index-Ensures packet offset (ground arith)) λ a _.
        Ensures-bind Any _ (index packet (offset + 1)) _ (index-Ensures packet _ (ground arith))
          λ b _.
            Ensures-bind Any _ (index packet (offset + 2)) _ (index-Ensures packet _ (ground arith))
              λ c _.
                Ensures-bind Any _ (index packet (offset + 3)) _
                  (index-Ensures packet _ (ground arith))
                  λ d _.
                    Ensures-bind Any _ (index packet (offset + 4)) _
                      (index-Ensures packet _ (ground arith))
                      λ hi _.
                        Ensures-bind Any _ (index packet (offset + 5)) _
                          (index-Ensures packet _ (ground arith)) λ lo _. ground arith)
]

parse_ipv6-Ensures :
    (net : NetText) (packet : List ℕ) (offset : ℕ)
    → Ensures (Inside packet) (parse_ipv6 net packet offset)
unfolding parse_ipv6
parse_ipv6-Ensures net packet offset = elim (Bool-cases (ltb (length packet) (offset + 16 + 2))) [
  | inl short ↦ rw short tt
  | inr long ↦ rw long (
      Ensures-bind Any _ (slice packet offset (offset + 16)) _
        (slice-Ensures packet offset _ (omega arith) (ground arith))
        λ octets _.
          Ensures-bind Any _ (index packet (offset + 16)) _ (index-Ensures packet _ (ground arith))
            λ hi _.
              Ensures-bind Any _ (index packet (offset + 17)) _
                (index-Ensures packet _ (ground arith)) λ lo _. ground arith)
]

parse_named-Ensures :
    (net : NetText) (packet : List ℕ) (offset count : ℕ)
    → Ensures (Inside packet) (parse_named net packet offset count)
unfolding parse_named
parse_named-Ensures net packet offset count =
    elim (Bool-cases (ltb (length packet) (offset + count + 2))) [
      | inl short ↦ rw short tt
      | inr long ↦ rw long (
          Ensures-bind Any _ (slice packet offset (offset + count)) _
            (slice-Ensures packet offset _ (omega arith) (ground arith))
            λ octets _.
              Ensures-bind Any _ (index packet (offset + count)) _
                (index-Ensures packet _ (ground arith))
                λ hi _.
                  Ensures-bind Any _ (index packet (offset + count + 1)) _
                    (index-Ensures packet _ (ground arith)) λ lo _. ground arith)
    ]

parse_domain-Ensures :
    (net : NetText) (packet : List ℕ) (offset : ℕ)
    → Ensures (Inside packet) (parse_domain net packet offset)
unfolding parse_domain
parse_domain-Ensures net packet offset = elim (Bool-cases (leb (length packet) offset)) [
  | inl short ↦ rw short tt
  | inr long ↦ rw long (
      Ensures-bind Any _ (index packet offset) _ (index-Ensures packet offset (ground arith))
        λ count _. parse_named-Ensures net packet (offset + 1) count)
]

parse_by_type-Ensures :
    (net : NetText) (packet : List ℕ) (atyp offset : ℕ)
    → Ensures (Inside packet) (parse_by_type net packet atyp offset)
unfolding parse_by_type
parse_by_type-Ensures net packet atyp offset = elim (Bool-cases (atyp == 0x01)) [
  | inl first ↦ rw first (parse_ipv4-Ensures net packet offset)
  | inr other ↦ rw other (elim (Bool-cases (atyp == 0x04)) [
    | inl sixth ↦ rw sixth (parse_ipv6-Ensures net packet offset)
    | inr rest ↦ rw rest (elim (Bool-cases (atyp == 0x03)) [
      | inl name ↦ rw name (parse_domain-Ensures net packet offset)
      | inr unknown ↦ rw unknown tt
    ])
  ])
]

pub parse_socks5_address_from_packet-Ensures :
    (net : NetText) (packet : List ℕ) (offset : ℕ)
    → Ensures (Inside packet) (parse_socks5_address_from_packet net packet offset)
unfolding parse_socks5_address_from_packet
parse_socks5_address_from_packet-Ensures net packet offset =
    elim (Bool-cases (leb (length packet) offset)) [
      | inl short ↦ rw short tt
      | inr long ↦ rw long (
          Ensures-bind Any _ (index packet offset) _ (index-Ensures packet offset (ground arith))
            λ atyp _. parse_by_type-Ensures net packet atyp (offset + 1))
    ]

pub udp_packet-Ensures :
    (net : NetText) (packet : List ℕ) → Ensures Any (parse_socks5_udp_packet net packet)
unfolding parse_socks5_udp_packet
udp_packet-Ensures net packet = elim (Bool-cases (ltb (length packet) 4)) [
  | inl short ↦ rw short tt
  | inr long ↦ rw long (
      Ensures-bind Any _ (index packet 2) _ (index-Ensures packet 2 (ground arith)) λ fragment _.
        elim (Bool-cases (fragment == 0x00)) [
          | inl whole ↦ rw whole (
              Ensures-bind (Inside packet) _ (parse_socks5_address_from_packet net packet 3) _
                (parse_socks5_address_from_packet-Ensures net packet 3)
                λ r inside.
                  Ensures-bind Any _ (slice packet r.1 (length packet)) _
                    (slice-Ensures packet r.1 _ inside (omega arith)) λ rest _. tt)
          | inr part ↦ rw part tt
        ])
]

pub encode-Ensures :
    (net : NetText) (host : Text) (port : ℕ) → Ensures Any (encode_socks5_address net host port)
unfolding encode_socks5_address
encode-Ensures net host port = by_ip (net.parse_ip host) refl
  where
    by_ip :
        (ip : Option IpAddr)
        → net.parse_ip host ≡ ip
        → Ensures Any (encode_socks5_address net host port)
    by_ip (some (v4 a b c d)) e = rw (e, encode_socks5_address) tt
    by_ip (some (v6 octets)) e = rw (e, encode_socks5_address) tt
    by_ip none e =
        rw (e, encode_socks5_address)
          (elim (Bool-cases (leb (length (utf8_bytes host)) 255)) [
            | inl h ↦ rw h tt
            | inr h ↦ rw h tt
          ])

pub build-Ensures :
    (net : NetText) (host : Text) (port : ℕ) (data' : List ℕ)
    → Ensures Any (build_socks5_udp_packet net host port data')
unfolding build_socks5_udp_packet
build-Ensures net host port data' =
    Ensures-bind Any Any (encode_socks5_address net host port) _ (encode-Ensures net host port)
      λ address _. tt

-- Whatever bytes arrive, no index and no range of the packet reader is out of bounds: the reader
-- returns an endpoint with a payload, or an error.
pub parse_socks5_udp_packet_total :
    (net : NetText) (packet : List ℕ) → parse_socks5_udp_packet net packet ≢ panic
parse_socks5_udp_packet_total net packet e = subst (Ensures Any) e (udp_packet-Ensures net packet)
