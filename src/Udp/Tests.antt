-- ===== src/Udp/Tests.antt =====
-- The probe run on small inputs.
use voya_vpn.Base.{
  ℕ, ◌≡◌, ◌≢◌, ◌+◌, ◌⊎◌, refl, true, List, [], ◌∷◌, Option, none, some, if◌then◌else◌, Text, codes,
  text_eq, parse_u16, utf8_bytes, trim, is_whitespace, Free-of_is_free, length, arith,
}
use voya_vpn.Udp.Kind.{ntp, dns, from_name, default_target_port, build_request_packet}
use voya_vpn.Udp.Outcome.{ok, err, panic, ◌>>=◌, domain_too_long, timeout}
use voya_vpn.Udp.Address.{
  IpAddr, v4, v6, NetText, encode_socks5_address, index, slice, parse_ipv4, parse_by_type,
  parse_socks5_address_from_packet, build_socks5_udp_packet, parse_socks5_udp_packet,
}
use voya_vpn.Udp.Address.Safety.{parse_socks5_udp_packet_total}
use voya_vpn.Udp.Address.Roundtrip.{
  remote_of, parse_socks5_udp_packet-build, IsTooLong, build_socks5_udp_packet-cases,
}
use voya_vpn.Udp.Verify.{verify_response, verify_ntp_response}
use voya_vpn.Udp.Stream.{read_exact, read_port, read_ipv4, read_by_type, read_socks5_address}
use voya_vpn.Udp.Target.{UdpTestTarget, parse_host_and_port, parse_udp_test_target}
use voya_vpn.Udp.Target.Laws.{
  parse_host_and_port-plain, parse_host_and_port-bracket, parse_udp_test_target-written,
}
use voya_vpn.Udp.Service.{
  Network, Socks5UdpChannel, new, relay_ip, establish_udp_association, send_to_host, receive,
  attempts, judge, attempt_once, send_via_socks5,
}
use voya_vpn.Udp.Service.Laws.{send_via_socks5_total}
use voya_vpn.Udp.Service.Second.{verdict, send_via_socks5_second}

-- Conversions that know two addresses, and take every byte for a character.
parse_known : Text → Option IpAddr
parse_known s =
    if text_eq s (codes "0.0.0.0")
    then some (v4 0 0 0 0)
    else if text_eq s (codes "127.0.0.1")
    then some (v4 127 0 0 1)
    else none

show_known : IpAddr → Text
show_known ip = codes "127.0.0.1"

net : NetText
unfolding parse_known show_known
net = record {
  parse_ip = parse_known;
  show_ip = show_known;
  from_utf8_lossy = λ bytes. bytes;
  from_utf8 = λ bytes. some bytes;
}

-- An answer of a time server, behind the header of a datagram from 127.0.0.1.
abbrev ntp_answer : List ℕ
ntp_answer = 0x24 ∷ (build_request_packet ntp)

-- A proxy that answers each step, twice with the same datagram.
network : Network
network = record {
  connects = λ host port. true;
  writes = λ bytes. true;
  replies = 0x05 ∷ 0x00 ∷ 0x05 ∷ 0x00 ∷ 0x00 ∷ 0x01 ∷ 127 ∷ 0 ∷ 0 ∷ 1 ∷ 0x04 ∷ 0x38 ∷ [];
  peer_ip = some (v4 127 0 0 1);
  binds = true;
  sends = λ attempt packet relay. true;
  datagram = λ attempt. some (0 ∷ 0 ∷ 0 ∷ 0x01 ∷ 127 ∷ 0 ∷ 0 ∷ 1 ∷ 0 ∷ 123 ∷ ntp_answer);
  elapsed = λ attempt. 20 + attempt;
  total = 50;
}

parse_socks5_udp_packet_total_example :
    parse_socks5_udp_packet net (0 ∷ 0 ∷ 0 ∷ 0x03 ∷ 9 ∷ 97 ∷ []) ≢ panic
parse_socks5_udp_packet_total_example =
    parse_socks5_udp_packet_total net (0 ∷ 0 ∷ 0 ∷ 0x03 ∷ 9 ∷ 97 ∷ [])

no_ip : (octets : List ℕ) → net.parse_ip (codes "ab") ≡ some (v6 octets) → length octets ≡ 16
unfolding net parse_known
no_ip octets e = cc

parse_socks5_udp_packet-build_example :
    (do
      packet ← build_socks5_udp_packet net (codes "ab") 53 (1 ∷ 2 ∷ [])
      parse_socks5_udp_packet net packet)
    ≡ ok (remote_of net (codes "ab") 53, 1 ∷ 2 ∷ [])
parse_socks5_udp_packet-build_example =
    parse_socks5_udp_packet-build net (codes "ab") 53 (1 ∷ 2 ∷ []) no_ip
      (unfold net utf8_bytes in refl) (λ e. unfold utf8_bytes in omega arith)

build_socks5_udp_packet-cases_example :
    (IsTooLong net (codes "ab")
      × (build_socks5_udp_packet net (codes "ab") 53 [] ≡ err domain_too_long))
    ⊎ (¬ IsTooLong net (codes "ab")
        × ((packet : List ℕ) × (build_socks5_udp_packet net (codes "ab") 53 [] ≡ ok packet)))
build_socks5_udp_packet-cases_example = build_socks5_udp_packet-cases net (codes "ab") 53 []

parse_host_and_port-plain_example :
    parse_host_and_port (b'a' ∷ b'b' ∷ b':' ∷ b'5' ∷ b'3' ∷ []) ntp ≡ (b'a' ∷ b'b' ∷ [], 53)
parse_host_and_port-plain_example =
    parse_host_and_port-plain b'a' (b'b' ∷ []) (b'5' ∷ b'3' ∷ []) 53 ntp (omega arith)
      (omega arith, (omega arith, tt)) (unfold parse_u16 in refl)

parse_host_and_port-bracket_example :
    (parse_host_and_port (b'[' ∷ b':' ∷ b':' ∷ b']' ∷ b':' ∷ b'5' ∷ b'3' ∷ []) dns
      ≡ (b':' ∷ b':' ∷ [], 53))
    × (parse_host_and_port (b'[' ∷ b':' ∷ b':' ∷ b']' ∷ []) dns
        ≡ (b':' ∷ b':' ∷ [], default_target_port dns))
parse_host_and_port-bracket_example =
    parse_host_and_port-bracket (b':' ∷ b':' ∷ []) (b'5' ∷ b'3' ∷ []) 53 dns
      (omega arith, (omega arith, tt)) (unfold parse_u16 in refl)

trimmed : trim (codes " dns:8.8:53 ") ≡ codes "dns:8.8:53"
unfolding trim is_whitespace
trimmed = refl

parse_udp_test_target-written_example :
    parse_udp_test_target (some (codes " dns:8.8:53 "))
    ≡ record { kind = from_name (codes "dns"); host = codes "8.8"; port = 53 }
parse_udp_test_target-written_example =
    parse_udp_test_target-written (codes " dns:8.8:53 ") (codes "dns") b'8' (codes ".8")
      (codes "53") 53 trimmed (Free-of_is_free b':' (codes "dns") refl) (omega arith)
      (Free-of_is_free b':' (codes "53") refl) (unfold parse_u16 in refl)

abbrev target : UdpTestTarget
target = record { kind = ntp; host = codes "127.0.0.1"; port = 123 }

send_via_socks5_total_example :
    send_via_socks5 net network ntp (codes "127.0.0.1") 1080 target 100 ≢ panic
send_via_socks5_total_example =
    send_via_socks5_total net network ntp (codes "127.0.0.1") 1080 target 100

-- The channel after the handshake with the proxy.
abbrev channel : Socks5UdpChannel
channel = record {
  socks5_host = codes "127.0.0.1";
  socks5_tcp_port = 1080;
  tcp_stream = true;
  udp_socket = true;
  relay_endpoint = some (v4 127 0 0 1, 0x0438);
}

established : establish_udp_association net network (new (codes "127.0.0.1") 1080) ≡ ok channel
unfolding net network parse_known show_known establish_udp_association new read_exact read_port
    read_ipv4 read_by_type read_socks5_address relay_ip encode_socks5_address
established = refl

send_via_socks5_second_example :
    send_via_socks5 net network ntp (codes "127.0.0.1") 1080 target 100
    ≡ verdict net ntp
        (attempt_once net network channel target (build_request_packet ntp) 0)
        (attempt_once net network channel target (build_request_packet ntp) 1)
send_via_socks5_second_example =
    send_via_socks5_second net network ntp (codes "127.0.0.1") 1080 target 100 channel
      (unfold network in omega arith) established

-- The time of the quicker attempt.
send_via_socks5_in_time :
    send_via_socks5 net network ntp (codes "127.0.0.1") 1080 target 100 ≡ ok 20
unfolding net network parse_known show_known establish_udp_association new read_exact read_port
    read_ipv4 read_by_type read_socks5_address relay_ip encode_socks5_address send_via_socks5
    attempt_once send_to_host receive attempts judge verify_response verify_ntp_response
    build_socks5_udp_packet parse_socks5_udp_packet parse_socks5_address_from_packet parse_by_type
    parse_ipv4 index slice build_request_packet utf8_bytes
send_via_socks5_in_time = refl

send_via_socks5_too_late :
    send_via_socks5 net network ntp (codes "127.0.0.1") 1080 target 40 ≡ err (timeout 40)
unfolding network send_via_socks5
send_via_socks5_too_late = refl
