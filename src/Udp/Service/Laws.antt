-- ===== src/Udp/Service/Laws.antt =====
-- No step of a probe panics.
use Prim.Native.Nat.{min}
use mathlib.Core.Path.{subst}
use voya_vpn.Base.{
  ℕ, ◌≡◌, refl, ◌≢◌, inl, inr, Bool, true, false, ◌||◌, ◌&&◌, List, [], ◌∷◌, ltb, ◌==◌, Text, codes,
  text_eq, Bool-cases, take,
}
use voya_vpn.Udp.Kind.{UdpTestKind, build_request_packet, byte_at}
use voya_vpn.Udp.Outcome.{
  UdpTestError, io, channel_not_established, Outcome, ok, err, panic, or_err,
  socks_no_auth_rejected, socks_udp_associate_rejected, invalid_relay_address,
}
use voya_vpn.Udp.Address.{NetText, encode_socks5_address, build_socks5_udp_packet}
use voya_vpn.Udp.Ensures.{Ensures, Any, step, or_err-Ensures}
use voya_vpn.Udp.Address.Safety.{udp_packet-Ensures, encode-Ensures, build-Ensures}
use voya_vpn.Udp.Stream.Laws.{read_exact-Ensures, address-Ensures}
use voya_vpn.Udp.Verify.{verify_response}
use voya_vpn.Udp.Verify.Safety.{verify_response-Answers}
use voya_vpn.Udp.Target.{UdpTestTarget}
use voya_vpn.Udp.Stream.{read_exact, read_socks5_address}
use voya_vpn.Udp.Service.{
  Network, Socks5UdpChannel, new, guard, relay_ip, establish_udp_association, send_to_host, receive,
  attempt_once, refused_first, attempts, duration_max, judge, within, send_via_socks5,
}

guard-Ensures : (b : Bool) (e : UdpTestError) → Ensures Any (guard b e)
guard-Ensures true e = tt
guard-Ensures false e = tt

relay_ip-Ensures :
    (net : NetText) (network : Network) (host : Text) → Ensures Any (relay_ip net network host)
unfolding relay_ip
relay_ip-Ensures net network host =
    elim (Bool-cases (text_eq host (codes "0.0.0.0") || text_eq host (codes "::"))) [
      | inl e ↦ rw e (or_err-Ensures network.peer_ip io)
      | inr e ↦ rw e (or_err-Ensures (net.parse_ip host) invalid_relay_address)
    ]

establish-Ensures :
    (net : NetText) (network : Network) (channel : Socks5UdpChannel)
    → Ensures Any (establish_udp_association net network channel)
unfolding establish_udp_association
establish-Ensures net network channel =
    step (guard (network.connects channel.socks5_host channel.socks5_tcp_port) io) _
      (guard-Ensures (network.connects channel.socks5_host channel.socks5_tcp_port) io)
      λ _. step (guard network.binds io) _ (guard-Ensures network.binds io) λ _.
        step (guard (network.writes (0x05 ∷ 0x01 ∷ 0x00 ∷ [])) io) _
          (guard-Ensures (network.writes (0x05 ∷ 0x01 ∷ 0x00 ∷ [])) io)
          λ _. step (read_exact 2 network.replies) _ (read_exact-Ensures 2 network.replies) λ r.
            step (guard (text_eq r.0 (0x05 ∷ 0x00 ∷ [])) socks_no_auth_rejected) _
              (guard-Ensures (text_eq r.0 (0x05 ∷ 0x00 ∷ [])) socks_no_auth_rejected)
              λ _.
                step (encode_socks5_address net (codes "0.0.0.0") 0) _
                  (encode-Ensures net (codes "0.0.0.0") 0)
                  λ address.
                    step (guard (network.writes (0x05 ∷ 0x03 ∷ 0x00 ∷ address)) io) _
                      (guard-Ensures (network.writes (0x05 ∷ 0x03 ∷ 0x00 ∷ address)) io)
                      λ _. step (read_exact 3 r.1) _ (read_exact-Ensures 3 r.1) λ h.
                        step
                          (guard (byte_at h.0 0 == 0x05 && byte_at h.0 1 == 0x00)
                            (socks_udp_associate_rejected (byte_at h.0 1)))
                          _
                          (guard-Ensures (byte_at h.0 0 == 0x05 && byte_at h.0 1 == 0x00)
                            (socks_udp_associate_rejected (byte_at h.0 1)))
                          λ _.
                            step (read_socks5_address net h.1) _ (address-Ensures net h.1) λ relay.
                              step (relay_ip net network relay.0.host) _
                                (relay_ip-Ensures net network relay.0.host) λ ip. tt

send-Ensures :
    (net : NetText) (network : Network) (attempt : ℕ) (channel : Socks5UdpChannel) (host : Text)
    (port : ℕ) (data' : List ℕ)
    → Ensures Any (send_to_host net network attempt channel host port data')
unfolding send_to_host
send-Ensures net network attempt channel host port data' =
    step (guard channel.udp_socket channel_not_established) _
      (guard-Ensures channel.udp_socket channel_not_established)
      λ _.
        step (or_err channel.relay_endpoint channel_not_established) _
          (or_err-Ensures channel.relay_endpoint channel_not_established)
          λ relay.
            step (build_socks5_udp_packet net host port data') _ (build-Ensures net host port data')
              λ packet. guard-Ensures (network.sends attempt packet relay) io

receive-Ensures :
    (net : NetText) (network : Network) (attempt : ℕ) (channel : Socks5UdpChannel)
    → Ensures Any (receive net network attempt channel)
unfolding receive
receive-Ensures net network attempt channel =
    step (guard channel.udp_socket channel_not_established) _
      (guard-Ensures channel.udp_socket channel_not_established)
      λ _.
        step (or_err (network.datagram attempt) io) _ (or_err-Ensures (network.datagram attempt) io)
          λ d. udp_packet-Ensures net (take 4096 d)

pub attempt_once-Ensures :
    (net : NetText) (network : Network) (channel : Socks5UdpChannel) (target : UdpTestTarget)
    (request : List ℕ) (attempt : ℕ)
    → Ensures Any (attempt_once net network channel target request attempt)
unfolding attempt_once
attempt_once-Ensures net network channel target request attempt =
    step (send_to_host net network attempt channel target.host target.port request) _
      (send-Ensures net network attempt channel target.host target.port request)
      λ _.
        step (receive net network attempt channel) _ (receive-Ensures net network attempt channel)
          λ r. tt

verify-Ensures :
    (net : NetText) (kind : UdpTestKind) (response : List ℕ)
    → Ensures Any (verify_response net kind response)
verify-Ensures net kind response = let (b, e) = verify_response-Answers net kind response in rw e tt

attempts-Ensures :
    (verify : List ℕ → Outcome Bool) (once : ℕ → Outcome (ℕ × List ℕ))
    → ((response : List ℕ) → Ensures Any (verify response))
    → ((attempt : ℕ) → Ensures Any (once attempt))
    → (rest : List ℕ) (best : ℕ) (last_response : List ℕ)
    → Ensures Any (attempts verify once rest best last_response)
unfolding attempts
attempts-Ensures verify once v h [] best last_response = tt
attempts-Ensures verify once v h (attempt ∷ rest) best last_response =
    by_outcome (once attempt) refl (λ b l. attempts-Ensures verify once v h rest b l)
  where
    refused : (response : List ℕ) → Ensures Any (refused_first verify attempt response)
    refused response = elim (Bool-cases (attempt == 0)) [
      | inl first ↦ rw first (step (verify response) _ (v response) λ b. tt)
      | inr later ↦ rw later tt
    ]

    by_outcome :
        (o : Outcome (ℕ × List ℕ))
        → once attempt ≡ o
        → ((b : ℕ) (l : List ℕ) → Ensures Any (attempts verify once rest b l))
        → Ensures Any (attempts verify once (attempt ∷ rest) best last_response)
    by_outcome (ok (elapsed, response)) e k =
        rw (e, attempts)
          (step (refused_first verify attempt response) _ (refused response)
            λ _. k (min elapsed best) response)
    by_outcome (err f) e k =
        rw (e, attempts)
          (elim (Bool-cases (attempt == 0)) [
            | inl first ↦ rw first (k best last_response)
            | inr later ↦ rw later tt
          ])
    by_outcome panic e k = absurd (subst (Ensures Any) e (h attempt))

judge-Ensures :
    (net : NetText) (kind : UdpTestKind) (run : ℕ × List ℕ) → Ensures Any (judge net kind run)
unfolding judge
judge-Ensures net kind (best, last_response) =
    step (verify_response net kind last_response) _ (verify-Ensures net kind last_response)
      λ b. elim (Bool-cases b) [ inl e ↦ rw e tt | inr e ↦ rw e tt ]

-- Whatever the proxy and the target send, a probe ends with a time or an error of the program: no
-- index of the readers is out of bounds on the way, and none of the checks of the answers.
pub send_via_socks5_total :
    (net : NetText) (network : Network) (kind : UdpTestKind) (socks5_host : Text) (socks5_port : ℕ)
    (target : UdpTestTarget) (operation_timeout : ℕ)
    → send_via_socks5 net network kind socks5_host socks5_port target operation_timeout ≢ panic
unfolding send_via_socks5
send_via_socks5_total net network kind socks5_host socks5_port target operation_timeout e =
    subst (Ensures Any) e (elim (Bool-cases (ltb operation_timeout network.total)) [
      | inl late ↦ rw (late, within) tt
      | inr timely ↦
          rw (timely, within)
            (step (establish_udp_association net network (new socks5_host socks5_port)) _
              (establish-Ensures net network (new socks5_host socks5_port))
              λ channel.
                step
                  (attempts (verify_response net kind) (once channel) (0 ∷ 1 ∷ []) duration_max [])
                  _
                  (attempts-Ensures (verify_response net kind) (once channel)
                    (verify-Ensures net kind)
                    (attempt_once-Ensures net network channel target request) (0 ∷ 1 ∷ [])
                    duration_max [])
                  λ run. judge-Ensures net kind run)
    ])
  where
    request : List ℕ
    request = build_request_packet kind

    once : Socks5UdpChannel → ℕ → Outcome (ℕ × List ℕ)
    once channel = attempt_once net network channel target request
