-- ===== src/Udp/Address/Roundtrip.antt =====
-- Writing a SOCKS5 UDP packet and reading it back.
use mathlib.Core.List.{append_assoc, append-nil}
use mathlib.Core.Path.{subst}
use voya_vpn.Base.{
  ℕ, zero, suc, ◌+◌, ◌-◌, ◌/◌, ◌%◌, ◌≤◌, ◌<◌, ◌≡◌, refl, ap, ◌∙◌, ◌⊎◌, inl, inr, leb, Bool-cases,
  sym, true, false, List, [], ◌∷◌, ◌++◌, Option, none, some, arith, length, Text, ltb_of_le,
  leb_of_lt, le→leb, length-append, take-append_left, utf8_bytes, drop-append_left,
}
use voya_vpn.Udp.Kind.{from_be_bytes}
use voya_vpn.Udp.Outcome.{ok, err, ◌>>=◌, domain_too_long}
use voya_vpn.Udp.Address.{
  IpAddr, v4, v6, endpoint, NetText, Socks5RemoteEndpoint, encode_socks5_address,
  build_socks5_udp_packet, index, slice, parse_ipv4, parse_ipv6, parse_named, parse_domain,
  parse_by_type, parse_socks5_address_from_packet, parse_socks5_udp_packet,
}

index-append : (xs ys : List ℕ) (b i : ℕ) → i ≡ length xs → index (xs ++ b ∷ ys) i ≡ ok b
unfolding index
index-append [] ys b i e = rw e
index-append (x ∷ xs) ys b zero e = absurd (omega arith)
index-append (x ∷ xs) ys b (suc i) e = index-append xs ys b i (omega arith)

index-append_next :
    (xs ys : List ℕ) (a b i : ℕ) → i ≡ suc (length xs) → index (xs ++ a ∷ b ∷ ys) i ≡ ok b
unfolding index
index-append_next [] ys a b i e = rw e
index-append_next (x ∷ xs) ys a b zero e = absurd (omega arith)
index-append_next (x ∷ xs) ys a b (suc i) e = index-append_next xs ys a b i (omega arith)

slice-append :
    (xs mid ys : List ℕ) (start end : ℕ)
    → start ≡ length xs
    → end ≡ start + length mid
    → slice (xs ++ (mid ++ ys)) start end ≡ ok mid
unfolding slice
slice-append xs mid ys start end s e =
    rw
      (
        ltb_of_le end start (omega arith),
        ltb_of_le (length (xs ++ (mid ++ ys))) end
            (omega (arith, length-append xs (mid ++ ys), length-append mid ys)),
        (let n : end - start ≡ length mid = omega arith in n),
        s,
        drop-append_left xs (mid ++ ys),
        take-append_left mid ys,
      )
      refl

slice-append_end :
    (xs ys : List ℕ) (start end : ℕ)
    → start ≡ length xs
    → end ≡ length (xs ++ ys)
    → slice (xs ++ ys) start end ≡ ok ys
slice-append_end xs ys start end s e =
    let whole : ys ++ [] ≡ ys = append-nil ys in
    ap (λ zs. slice (xs ++ zs) start end) (sym whole)
    ∙ slice-append xs ys [] start end s (omega (arith, length-append xs ys))

from_be_bytes-port : (port : ℕ) → from_be_bytes (port / 256) (port % 256) ≡ port
from_be_bytes-port port = omega arith

-- What the reader should find: the host as the library prints it, or the name itself.
abbrev pub remote_of : NetText → Text → ℕ → Socks5RemoteEndpoint
remote_of net host port = elim (net.parse_ip host) [
  | some ip ↦ record { host = net.show_ip ip; port = port; is_domain = false }
  | none ↦ record { host = host; port = port; is_domain = true }
]

slice_after :
    (front rest : List ℕ) (a b start : ℕ)
    → start ≡ length front + 2
    → slice (front ++ (a ∷ b ∷ rest)) start (length (front ++ (a ∷ b ∷ rest))) ≡ ok rest
slice_after front rest a b start e =
    subst (λ packet. slice packet start (length packet) ≡ ok rest) (append_assoc front _ rest)
      (slice-append_end (front ++ (a ∷ b ∷ [])) rest start _
        (omega (arith, length-append front (a ∷ b ∷ []))) refl)

module _ (net : NetText) (packet : List ℕ) where
  address_of :
      (offset atyp : ℕ)
      → offset < length packet
      → index packet offset ≡ ok atyp
      → parse_socks5_address_from_packet net packet offset
        ≡ parse_by_type net packet atyp (offset + 1)
  unfolding parse_socks5_address_from_packet
  address_of offset atyp h e = rw (leb_of_lt offset (length packet) h, e)

  udp_packet_of :
      (r : Socks5RemoteEndpoint) (offset : ℕ) (rest : List ℕ)
      → 4 ≤ length packet
      → index packet 2 ≡ ok 0
      → parse_socks5_address_from_packet net packet 3 ≡ ok (r, offset)
      → slice packet offset (length packet) ≡ ok rest
      → parse_socks5_udp_packet net packet ≡ ok (r, rest)
  unfolding parse_socks5_udp_packet
  udp_packet_of r offset rest h i a s = rw (ltb_of_le (length packet) 4 h, i, a, s)

  ipv6_of :
      (octets : List ℕ) (hi lo offset : ℕ)
      → offset + 18 ≤ length packet
      → slice packet offset (offset + 16) ≡ ok octets
      → index packet (offset + 16) ≡ ok hi
      → index packet (offset + 17) ≡ ok lo
      → parse_ipv6 net packet offset
        ≡ ok (endpoint (net.show_ip (v6 octets)) (from_be_bytes hi lo) false, offset + 18)
  unfolding parse_ipv6
  ipv6_of octets hi lo offset h s i j =
      rw (ltb_of_le (length packet) (offset + 16 + 2) (omega arith), s, i, j)

  domain_of :
      (name : List ℕ) (count hi lo offset : ℕ)
      → offset + 1 + count + 2 ≤ length packet
      → index packet offset ≡ ok count
      → slice packet (offset + 1) (offset + 1 + count) ≡ ok name
      → index packet (offset + 1 + count) ≡ ok hi
      → index packet (offset + 1 + count + 1) ≡ ok lo
      → parse_domain net packet offset
        ≡ ok
            (endpoint (net.from_utf8_lossy name) (from_be_bytes hi lo) true, offset + 1 + count + 2)
  unfolding parse_domain parse_named
  domain_of name count hi lo offset h c s i j = rw (
    leb_of_lt offset (length packet) (omega arith),
    c,
    ltb_of_le (length packet) (offset + 1 + count + 2) h,
    s,
    i,
    j,
  )

module _ (net : NetText) (port : ℕ) (data' : List ℕ) where
  v4_packet :
      (a b c d : ℕ)
      → parse_socks5_udp_packet net
          (0 ∷ 0 ∷ 0 ∷ 1 ∷ a ∷ b ∷ c ∷ d ∷ port / 256 ∷ port % 256 ∷ data')
        ≡ ok (endpoint (net.show_ip (v4 a b c d)) port false, data')
  unfolding parse_socks5_udp_packet parse_socks5_address_from_packet parse_by_type parse_ipv4 index
  v4_packet a b c d =
      let packet : List ℕ = 0 ∷ 0 ∷ 0 ∷ 1 ∷ a ∷ b ∷ c ∷ d ∷ port / 256 ∷ port % 256 ∷ data' in
      rw (
        ltb_of_le (length packet) 4 (omega arith),
        leb_of_lt 3 (length packet) (omega arith),
        ltb_of_le (length packet) 10 (omega arith),
        from_be_bytes-port port,
        slice-append_end (0 ∷ 0 ∷ 0 ∷ 1 ∷ a ∷ b ∷ c ∷ d ∷ port / 256 ∷ port % 256 ∷ []) data' 10 _
            refl refl,
      )

  v6_packet :
      (octets : List ℕ)
      → length octets ≡ 16
      → parse_socks5_udp_packet net (0 ∷ 0 ∷ 0 ∷ 4 ∷ (octets ++ (port / 256 ∷ port % 256 ∷ data')))
        ≡ ok (endpoint (net.show_ip (v6 octets)) port false, data')
  unfolding index parse_by_type
  v6_packet octets h =
      let rest : List ℕ = port / 256 ∷ port % 256 ∷ data' in
      let front : List ℕ = 0 ∷ 0 ∷ 0 ∷ 4 ∷ octets in
      let packet : List ℕ = front ++ rest in
      let size : length packet ≡ 22 + length data' = omega (arith, length-append front rest) in
      udp_packet_of net packet _ 22 data' (omega arith) refl
        (address_of net packet 3 4 (omega arith) refl
          ∙ ipv6_of net packet octets (port / 256) (port % 256) 4 (omega arith)
              (slice-append (0 ∷ 0 ∷ 0 ∷ 4 ∷ []) octets rest 4 20 refl (omega arith))
              (index-append front (port % 256 ∷ data') (port / 256) 20 (omega arith))
              (index-append_next front data' (port / 256) (port % 256) 21 (omega arith))
          ∙ rw (from_be_bytes-port port))
        (slice_after front data' _ _ 22 (omega arith))

  named_packet :
      (host : List ℕ)
      → parse_socks5_udp_packet net
          (0 ∷ 0 ∷ 0 ∷ 3 ∷ length host ∷ (host ++ (port / 256 ∷ port % 256 ∷ data')))
        ≡ ok (endpoint (net.from_utf8_lossy host) port true, data')
  unfolding index parse_by_type
  named_packet host =
      let rest : List ℕ = port / 256 ∷ port % 256 ∷ data' in
      let front : List ℕ = 0 ∷ 0 ∷ 0 ∷ 3 ∷ length host ∷ host in
      let packet : List ℕ = front ++ rest in
      let size : length packet ≡ 7 + length host + length data' =
        omega (arith, length-append front rest) in
      udp_packet_of net packet _ (5 + length host + 2) data' (omega arith) refl
        (address_of net packet 3 3 (omega arith) refl
          ∙ domain_of net packet host (length host) (port / 256) (port % 256) 4 (omega arith) refl
              (slice-append (0 ∷ 0 ∷ 0 ∷ 3 ∷ length host ∷ []) host rest 5 (5 + length host) refl
                refl)
              (index-append front (port % 256 ∷ data') (port / 256) (5 + length host) (omega arith))
              (index-append_next front data' (port / 256) (port % 256) (5 + length host + 1)
                (omega arith))
          ∙ rw (from_be_bytes-port port))
        (slice_after front data' _ _ (5 + length host + 2) (omega arith))

-- A packet that is built reads back as the endpoint and the payload it was built for: the address
-- as the library prints it, or the host name itself. This holds for every payload, every port
-- and every host that is an IP address, or else a name of at most 255 bytes.
-- Two facts of the library are hypotheses: an IPv6 address has 16 octets, and the UTF-8 bytes of
-- the host decode to the host.
pub parse_socks5_udp_packet-build :
    (net : NetText) (host : Text) (port : ℕ) (data' : List ℕ)
    → ((octets : List ℕ) → net.parse_ip host ≡ some (v6 octets) → length octets ≡ 16)
    → net.from_utf8_lossy (utf8_bytes host) ≡ host
    → (net.parse_ip host ≡ none → length (utf8_bytes host) ≤ 255)
    → (do packet ← build_socks5_udp_packet net host port data'; parse_socks5_udp_packet net packet)
      ≡ ok (remote_of net host port, data')
unfolding build_socks5_udp_packet encode_socks5_address
parse_socks5_udp_packet-build net host port data' sixteen lossless named =
    by_ip (net.parse_ip host) refl
  where
    by_ip :
        (ip : Option IpAddr)
        → net.parse_ip host ≡ ip
        → (do
          packet ← build_socks5_udp_packet net host port data'
          parse_socks5_udp_packet net packet)
          ≡ ok (remote_of net host port, data')
    by_ip (some (v4 a b c d)) e =
        rw (e, encode_socks5_address, remote_of) (v4_packet net port data' a b c d)
    by_ip (some (v6 octets)) e =
        rw (e, encode_socks5_address, remote_of, append_assoc octets _ data')
          (v6_packet net port data' octets (sixteen octets e))
    by_ip none e =
        rw
          (
            e,
            encode_socks5_address,
            remote_of,
            le→leb (length (utf8_bytes host)) 255 (named e),
            append_assoc (utf8_bytes host) _ data',
          )
          (named_packet net port data' (utf8_bytes host) ∙ rw lossless)

-- A host that has no encoding: it is no IP address, and it is longer than 255 bytes of UTF-8.
abbrev pub IsTooLong : NetText → Text → Type 0
IsTooLong net host = (net.parse_ip host ≡ none) × (255 < length (utf8_bytes host))

-- Building fails exactly on a host that is no IP address and is longer than 255 bytes of UTF-8, and then
-- with the error for that; for every other host it gives a packet.
pub build_socks5_udp_packet-cases :
    (net : NetText) (host : Text) (port : ℕ) (data' : List ℕ)
    → (IsTooLong net host × (build_socks5_udp_packet net host port data' ≡ err domain_too_long))
      ⊎ (¬ IsTooLong net host
          × ((packet : List ℕ) × (build_socks5_udp_packet net host port data' ≡ ok packet)))
unfolding build_socks5_udp_packet encode_socks5_address
build_socks5_udp_packet-cases net host port data' = by_ip (net.parse_ip host) refl
  where
    is_some : {ip : IpAddr} → none ≡ some ip → ⊥
    is_some h = absurd (cc)

    by_ip :
        (ip : Option IpAddr)
        → net.parse_ip host ≡ ip
        → (IsTooLong net host × (build_socks5_udp_packet net host port data' ≡ err domain_too_long))
          ⊎ (¬ IsTooLong net host
              × ((packet : List ℕ) × (build_socks5_udp_packet net host port data' ≡ ok packet)))
    by_ip (some (v4 a b c d)) e =
        rw (e, encode_socks5_address) (inr ((λ long. is_some (sym long.0)), (_, refl)))
    by_ip (some (v6 octets)) e =
        rw (e, encode_socks5_address) (inr ((λ long. is_some (sym long.0)), (_, refl)))
    by_ip none e = elim (Bool-cases (leb (length (utf8_bytes host)) 255)) [
      | inl fits ↦
          rw (e, encode_socks5_address, fits)
            (inr ((λ long. absurd (ground (arith, long.1, fits))), (_, refl)))
      | inr long ↦ rw (e, encode_socks5_address, long) (inl ((refl, ground (arith, long)), refl))
    ]
