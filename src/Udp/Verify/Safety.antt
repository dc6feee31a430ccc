-- ===== src/Udp/Verify/Safety.antt =====
-- The checks of the probes' answers stay inside the answers.
use voya_vpn.Base.{
  ℕ, zero, suc, ◌+◌, ◌-◌, ◌<◌, ◌≡◌, refl, ◌||◌, not, ◌==◌, List, [], ◌∷◌, Option, none, some, arith,
  ltb, leb, length, drop, Bool-cases, inl, inr, length-take, length-drop,
}
use voya_vpn.Udp.Kind.{UdpTestKind, ntp, dns, stun, mcbe}
use voya_vpn.Udp.Outcome.{Outcome, ok}
use voya_vpn.Udp.Address.{NetText, index}
use voya_vpn.Udp.Verify.{
  u16_at, verify_ntp_response, verify_dns_response, verify_stun_response, get_range, matches_magic,
  verify_mcbe_payload, verify_mcbe_response, verify_response,
}

-- A value is computed: there is no error, and no panic.
abbrev pub Answers {ℓ} : {A : Type ℓ} → Outcome A → Type ℓ
Answers {A} o = (a : A) × (o ≡ ok a)

index-Answers : (bytes : List ℕ) (i : ℕ) → i < length bytes → Answers (index bytes i)
unfolding index
index-Answers [] i h = elim h [ ]
index-Answers (b ∷ bytes) zero h = (b, refl)
index-Answers (b ∷ bytes) (suc i) h = index-Answers bytes i (omega arith)

u16_at-Answers : (bytes : List ℕ) (i : ℕ) → i + 1 < length bytes → Answers (u16_at bytes i)
unfolding u16_at
u16_at-Answers bytes i h =
    let (hi, e) = index-Answers bytes i (omega arith) in
    let (lo, f) = index-Answers bytes (i + 1) h in rw (e, f) (_, refl)

verify_ntp_response-Answers : (response : List ℕ) → Answers (verify_ntp_response response)
unfolding verify_ntp_response
verify_ntp_response-Answers response = elim (Bool-cases (leb 48 (length response))) [
  | inl long ↦ let (mode, e) = index-Answers response 0 (ground arith) in rw (long, e) (_, refl)
  | inr short ↦ rw short (_, refl)
]

verify_dns_response-Answers : (response : List ℕ) → Answers (verify_dns_response response)
unfolding verify_dns_response
verify_dns_response-Answers response = elim (Bool-cases (ltb (length response) 12)) [
  | inl short ↦ rw short (_, refl)
  | inr long ↦
      let (id, e) = u16_at-Answers response 0 (ground arith) in
      let (flags, f) = u16_at-Answers response 2 (ground arith) in
      let (count, g) = u16_at-Answers response 6 (ground arith) in rw (long, e, f, g) (_, refl)
]

verify_stun_response-Answers : (response : List ℕ) → Answers (verify_stun_response response)
unfolding verify_stun_response
verify_stun_response-Answers response = elim (Bool-cases (ltb (length response) 20)) [
  | inl short ↦ rw short (_, refl)
  | inr long ↦
      let (type, e) = u16_at-Answers response 0 (ground arith) in
      let (count, f) = u16_at-Answers response 2 (ground arith) in
      let (high, g) = u16_at-Answers response 4 (ground arith) in
      let (low, h) = u16_at-Answers response 6 (ground arith) in rw (long, e, f, g, h) (_, refl)
]

-- A range that is there has as many bytes as it says.
abbrev IsLong : ℕ → Option (List ℕ) → Type 0
IsLong n none = Unit
IsLong n (some bytes) = length bytes ≡ n

get_range-IsLong :
    (response : List ℕ) (start end : ℕ) → IsLong (end - start) (get_range response start end)
unfolding get_range
get_range-IsLong response start end =
    elim (Bool-cases (ltb end start || ltb (length response) end)) [
      | inl outside ↦ rw outside tt
      | inr inside ↦ rw inside (
          length-take (end - start) (drop start response)
            (ground (arith, length-drop start response)))
    ]

verify_mcbe_payload-Answers :
    (net : NetText) (response : List ℕ) (o : Option (List ℕ))
    → IsLong 2 o
    → Answers (verify_mcbe_payload net response o)
unfolding verify_mcbe_payload
verify_mcbe_payload-Answers net response none h = (_, refl)
verify_mcbe_payload-Answers net response (some length_bytes) h =
    let (count, e) = u16_at-Answers length_bytes 0 (omega (arith, h)) in rw e (_, refl)

verify_mcbe_response-Answers :
    (net : NetText) (response : List ℕ) → Answers (verify_mcbe_response net response)
unfolding verify_mcbe_response
verify_mcbe_response-Answers net response = elim (Bool-cases (ltb (length response) 48)) [
  | inl short ↦ rw short (_, refl)
  | inr long ↦
      let (id, e) = index-Answers response 0 (ground arith) in
      rw (long, e)
        (elim (Bool-cases (not (id == 0x1c))) [
          | inl other ↦ rw other (_, refl)
          | inr pong ↦ rw pong (elim (Bool-cases (not (matches_magic (get_range response 17 33)))) [
            | inl foreign ↦ rw foreign (_, refl)
            | inr magic ↦ rw magic (
                verify_mcbe_payload-Answers net response (get_range response 33 35)
                  (get_range-IsLong response 33 35))
          ])
        ])
]

-- Every check answers, for whatever bytes: no index is out of bounds.
pub verify_response-Answers :
    (net : NetText) (kind : UdpTestKind) (response : List ℕ)
    → Answers (verify_response net kind response)
unfolding verify_response
verify_response-Answers net ntp response = verify_ntp_response-Answers response
verify_response-Answers net dns response = verify_dns_response-Answers response
verify_response-Answers net stun response = verify_stun_response-Answers response
verify_response-Answers net mcbe response = verify_mcbe_response-Answers net response
