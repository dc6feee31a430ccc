-- ===== src/Udp/Service.antt =====
-- crates/voya-udptest/src/lib.rs: the channel through the proxy and the probe of a target. What the
-- network does is an argument: `Network` says how each operation on a socket ends.
pub mod Laws
pub mod Second
use Prim.Native.Nat.{min}
use voya_vpn.Base.{
  ℕ, ◌+◌, ◌*◌, ◌-◌, ◌^◌, Bool, true, false, ◌&&◌, ◌||◌, not, List, [], ◌∷◌, ◌++◌, Option, none,
  some, ltb, leb, ◌==◌, if◌then◌else◌, take, Text, codes, text_eq,
}
use voya_vpn.Udp.Kind.{UdpTestKind, build_request_packet, byte_at}
use voya_vpn.Udp.Outcome.{
  UdpTestError, io, timeout, socks_no_auth_rejected, socks_udp_associate_rejected,
  invalid_relay_address, channel_not_established, response_verification_failed, Outcome, ok, err,
  panic, ◌>>=◌, or_err,
}
use voya_vpn.Udp.Address.{
  IpAddr, NetText, Socks5RemoteEndpoint, encode_socks5_address, build_socks5_udp_packet,
  parse_socks5_udp_packet,
}
use voya_vpn.Udp.Verify.{verify_response}
use voya_vpn.Udp.Target.{UdpTestTarget}
use voya_vpn.Udp.Stream.{read_exact, read_socks5_address}

-- Times are in nanoseconds. An attempt is one round of `send_to_host` and `receive`.
pub record Network : Type 0 where
  -- The control connection: whether it opens, whether a write succeeds, what the proxy sends, and
  -- the address of the other end, where the system knows it.
  pub connects : Text → ℕ → Bool
  pub writes : List ℕ → Bool
  pub replies : List ℕ
  pub peer_ip : Option IpAddr
  -- The UDP socket: whether it binds, whether a packet leaves, and the datagram that comes back.
  pub binds : Bool
  pub sends : ℕ → List ℕ → IpAddr × ℕ → Bool
  pub datagram : ℕ → Option (List ℕ)
  -- The clock: how long an attempt takes, and the whole probe.
  pub elapsed : ℕ → ℕ
  pub total : ℕ

pub record Socks5UdpChannel : Type 0 where
  pub socks5_host : Text
  pub socks5_tcp_port : ℕ
  pub tcp_stream : Bool
  pub udp_socket : Bool
  pub relay_endpoint : Option (IpAddr × ℕ)

unfoldable pub new : Text → ℕ → Socks5UdpChannel
new host port = record {
  socks5_host = host;
  socks5_tcp_port = port;
  tcp_stream = false;
  udp_socket = false;
  relay_endpoint = none;
}

abbrev pub guard : Bool → UdpTestError → Outcome (Unit {0})
guard true e = ok tt
guard false e = err e

infixl 5 ◌>>◌
abbrev ◌>>◌ {ℓ} : {B : Type ℓ} → Outcome (Unit {0}) → Outcome B → Outcome B
m >> k = m >>= λ _. k

module _ (net : NetText) (network : Network) where
  unfoldable pub relay_ip : Text → Outcome IpAddr
  relay_ip host =
      if text_eq host (codes "0.0.0.0") || text_eq host (codes "::")
      then or_err network.peer_ip io
      else or_err (net.parse_ip host) invalid_relay_address

  -- The fields are set at the end: a failure leaves the channel as it was.
  unfoldable pub establish_udp_association : Socks5UdpChannel → Outcome Socks5UdpChannel
  establish_udp_association channel = do
    guard (network.connects channel.socks5_host channel.socks5_tcp_port) io
    guard network.binds io
    guard (network.writes (0x05 ∷ 0x01 ∷ 0x00 ∷ [])) io
    (handshake, replies) ← read_exact 2 network.replies
    guard (text_eq handshake (0x05 ∷ 0x00 ∷ [])) socks_no_auth_rejected
    address ← encode_socks5_address net (codes "0.0.0.0") 0
    guard (network.writes (0x05 ∷ 0x03 ∷ 0x00 ∷ address)) io
    (header, replies') ← read_exact 3 replies
    guard (byte_at header 0 == 0x05 && byte_at header 1 == 0x00)
        (socks_udp_associate_rejected (byte_at header 1))
    (relay, _) ← read_socks5_address net replies'
    ip ← relay_ip relay.host
    ok (record channel {
      tcp_stream = true;
      udp_socket = true;
      relay_endpoint = some (ip, relay.port);
    })

  -- The number of an attempt only names the packet for `network`.
  unfoldable pub send_to_host : ℕ → Socks5UdpChannel → Text → ℕ → List ℕ → Outcome (Unit {0})
  send_to_host attempt channel host port data' = do
    guard channel.udp_socket channel_not_established
    relay ← or_err channel.relay_endpoint channel_not_established
    packet ← build_socks5_udp_packet net host port data'
    guard (network.sends attempt packet relay) io

  -- The buffer holds 4096 bytes; the rest of a longer datagram is lost.
  unfoldable pub receive : ℕ → Socks5UdpChannel → Outcome (Socks5RemoteEndpoint × List ℕ)
  receive attempt channel = do
    guard channel.udp_socket channel_not_established
    datagram ← or_err (network.datagram attempt) io
    parse_socks5_udp_packet net (take 4096 datagram)

  unfoldable pub attempt_once : Socks5UdpChannel → UdpTestTarget → List ℕ → ℕ → Outcome (ℕ × List ℕ)
  attempt_once channel target request attempt = do
    send_to_host attempt channel target.host target.port request
    (remote, response) ← receive attempt channel
    ok (network.elapsed attempt, response)

-- `attempt == 0 && !verify(…)`, whose `continue` ends the round where it would end anyway.
abbrev pub refused_first : (List ℕ → Outcome Bool) → ℕ → List ℕ → Outcome Bool
refused_first verify attempt response =
    if attempt == 0 then (do accepted ← verify response; ok (not accepted)) else ok false

-- `for attempt in 0..2`, over the attempts that are left: the best time and the last response.
unfoldable pub attempts :
    (List ℕ → Outcome Bool)
    → (ℕ → Outcome (ℕ × List ℕ))
    → List ℕ
    → ℕ
    → List ℕ
    → Outcome (ℕ × List ℕ)
attempts verify once [] best last_response = ok (best, last_response)
attempts verify once (attempt ∷ rest) best last_response = elim (once attempt) [
  | ok (elapsed, response) ↦ refused_first verify attempt response >>= λ _.
      attempts verify once rest (min elapsed best) response
  | err e ↦ if attempt == 0 then attempts verify once rest best last_response else err e
  | panic ↦ panic
]

-- `Duration::MAX`.
abbrev pub duration_max : ℕ
duration_max = (2 ^ 64 - 1) * 1_000_000_000 + 999_999_999

unfoldable pub judge : NetText → UdpTestKind → ℕ × List ℕ → Outcome ℕ
judge net kind (best, last_response) = do
  accepted ← verify_response net kind last_response
  if accepted then ok best else err (response_verification_failed kind)

-- `time::timeout` around a run that takes `total`.
within : ℕ → ℕ → Outcome ℕ → Outcome ℕ
within total limit run = if ltb limit total then err (timeout limit) else run

unfoldable pub send_via_socks5 :
    NetText → Network → UdpTestKind → Text → ℕ → UdpTestTarget → ℕ → Outcome ℕ
unfolding within
send_via_socks5 net network kind socks5_host socks5_port target operation_timeout =
    within network.total operation_timeout (do
      channel ← establish_udp_association net network (new socks5_host socks5_port)
      run ←
          attempts (verify_response net kind)
            (attempt_once net network channel target (build_request_packet kind)) (0 ∷ 1 ∷ [])
            duration_max []
      judge net kind run)
