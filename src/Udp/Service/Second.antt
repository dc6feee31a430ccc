-- ===== src/Udp/Service/Second.antt =====
-- Which of the two attempts of a probe decides.
use Prim.Native.Nat.{min}
use voya_vpn.Base.{ℕ, ◌≤◌, ◌≡◌, refl, List, [], ◌∷◌, if◌then◌else◌, Text, ltb_of_le}
use voya_vpn.Udp.Kind.{UdpTestKind, build_request_packet}
use voya_vpn.Udp.Outcome.{response_verification_failed, Outcome, ok, err, panic, ◌>>=◌}
use voya_vpn.Udp.Ensures.{Ensures, Any}
use voya_vpn.Udp.Address.{NetText}
use voya_vpn.Udp.Verify.{verify_response}
use voya_vpn.Udp.Verify.Safety.{verify_response-Answers}
use voya_vpn.Udp.Target.{UdpTestTarget}
use voya_vpn.Udp.Service.Laws.{attempt_once-Ensures}
use voya_vpn.Udp.Service.{
  Network, Socks5UdpChannel, new, establish_udp_association, attempt_once, attempts, duration_max,
  judge, within, send_via_socks5,
}

-- The time of an attempt that was answered, and the longest duration where it was not.
abbrev pub time_of : Outcome (ℕ × List ℕ) → ℕ
time_of (ok (elapsed, response)) = elapsed
time_of _ = duration_max

-- What a probe makes of its two attempts.
abbrev pub verdict : NetText → UdpTestKind → Outcome (ℕ × List ℕ) → Outcome (ℕ × List ℕ) → Outcome ℕ
verdict net kind first (ok (elapsed, response)) = do
  accepted ← verify_response net kind response
  if accepted
      then ok (min elapsed (min (time_of first) duration_max))
      else err (response_verification_failed kind)
verdict net kind first (err e) = err e
verdict net kind first panic = panic

module _ (net : NetText) (kind : UdpTestKind) (once : ℕ → Outcome (ℕ × List ℕ)) where
  attempts-verdict :
      (first second : Outcome (ℕ × List ℕ))
      → once 0 ≡ first
      → once 1 ≡ second
      → Ensures Any first
      → (attempts (verify_response net kind) once (0 ∷ 1 ∷ []) duration_max [] >>= judge net kind)
        ≡ verdict net kind first second
  unfolding judge attempts
  attempts-verdict (ok (t, r)) (ok (u, s)) e f h =
      let (b, c) = verify_response-Answers net kind r in rw (e, attempts, c, f, attempts)
  attempts-verdict (ok (t, r)) (err x) e f h =
      let (b, c) = verify_response-Answers net kind r in rw (e, attempts, c, f, attempts)
  attempts-verdict (ok (t, r)) panic e f h =
      let (b, c) = verify_response-Answers net kind r in rw (e, attempts, c, f, attempts)
  attempts-verdict (err y) (ok (u, s)) e f h = rw (e, f, attempts)
  attempts-verdict (err y) (err x) e f h = rw (e, f, attempts)
  attempts-verdict (err y) panic e f h = rw (e, f, attempts)
  attempts-verdict panic second e f h = absurd h

-- The second attempt decides. Where the channel is up and the time limit is kept: if the second
-- attempt is answered, its response alone is checked, and the time is the shortest of the answered
-- attempts, the first included whatever it answered; if the second attempt fails, the probe fails
-- with that error, whatever the first one answered.
pub send_via_socks5_second :
    (net : NetText) (network : Network) (kind : UdpTestKind) (socks5_host : Text) (socks5_port : ℕ)
    (target : UdpTestTarget) (operation_timeout : ℕ) (channel : Socks5UdpChannel)
    → network.total ≤ operation_timeout
    → establish_udp_association net network (new socks5_host socks5_port) ≡ ok channel
    → send_via_socks5 net network kind socks5_host socks5_port target operation_timeout
      ≡ verdict net kind
          (attempt_once net network channel target (build_request_packet kind) 0)
          (attempt_once net network channel target (build_request_packet kind) 1)
unfolding send_via_socks5
send_via_socks5_second net network kind socks5_host socks5_port target operation_timeout channel t
      e =
    rw (ltb_of_le operation_timeout network.total t, within, e)
      (attempts-verdict net kind once (once 0) (once 1) refl refl
        (attempt_once-Ensures net network channel target (build_request_packet kind) 0))
  where
    once : ℕ → Outcome (ℕ × List ℕ)
    once = attempt_once net network channel target (build_request_packet kind)
