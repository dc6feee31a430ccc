-- ===== src/Udp/Verify.antt =====
-- crates/voya-udptest/src/lib.rs: the checks of the probes' answers.
pub mod Safety
use Prim.Native.Nat.{bit_and}
use voya_vpn.Base.{
  ℕ, zero, suc, ◌+◌, ◌-◌, ◌*◌, ◌%◌, Bool, false, ◌&&◌, ◌||◌, not, List, [], ◌∷◌, ◌++◌, Option, none,
  some, ltb, leb, ◌==◌, if◌then◌else◌, length, take, drop, Text, codes, text_eq,
}
use voya_vpn.Udp.Kind.{UdpTestKind, ntp, dns, stun, mcbe, from_be_bytes, mcbe_magic_bytes}
use voya_vpn.Udp.Outcome.{Outcome, ok, ◌>>=◌}
use voya_vpn.Udp.Address.{NetText, index}

-- `u16::from_be_bytes([response[i], response[i + 1]])`.
unfoldable pub u16_at : List ℕ → ℕ → Outcome ℕ
u16_at response i = do hi ← index response i; lo ← index response (i + 1); ok (from_be_bytes hi lo)

unfoldable pub verify_ntp_response : List ℕ → Outcome Bool
verify_ntp_response response =
    if leb 48 (length response)
    then (do mode ← index response 0; ok (bit_and mode 0x07 == 4))
    else ok false

unfoldable pub verify_dns_response : List ℕ → Outcome Bool
verify_dns_response response = if ltb (length response) 12 then ok false else (do
  transaction_id ← u16_at response 0
  flags ← u16_at response 2
  answer_count ← u16_at response 6
  ok (
      transaction_id == 0x1234
      && (not (bit_and flags 0x8000 == 0) && (bit_and flags 0x000f == 0 && ltb 0 answer_count))))

unfoldable pub verify_stun_response : List ℕ → Outcome Bool
verify_stun_response response = if ltb (length response) 20 then ok false else (do
  message_type ← u16_at response 0
  message_length ← u16_at response 2
  cookie_high ← u16_at response 4
  cookie_low ← u16_at response 6
  ok (
      message_type == 0x0101
      && (message_length % 4 == 0
          && (length response == 20 + message_length
              && cookie_high * 65536 + cookie_low == 0x2112_a442))))

-- `response.get(start..end)`.
unfoldable pub get_range : List ℕ → ℕ → ℕ → Option (List ℕ)
get_range response start end =
    if ltb end start || ltb (length response) end
    then none
    else some (take (end - start) (drop start response))

-- The pieces between semicolons, `nth(n)`, and `unwrap_or_default`.
nth_piece : ℕ → Text → Text → Text
nth_piece n piece [] = elim n [ zero ↦ piece | suc k ↦ [] ]
nth_piece n piece (c ∷ s) =
    let next = λ (k : ℕ). nth_piece k [] s in
    let more = nth_piece n (piece ++ c ∷ []) s in
    if c == b';' then elim n [ zero ↦ piece | suc k ↦ next k ] else more

is_game_mode : Text → Bool
is_game_mode mode =
    text_eq mode (codes "Survival")
    || (text_eq mode (codes "Creative")
        || (text_eq mode (codes "Adventure") || text_eq mode (codes "Spectator")))

pub verify_mcbe_text : Option Text → Bool
unfolding nth_piece is_game_mode
verify_mcbe_text none = false
verify_mcbe_text (some text) = is_game_mode (nth_piece 8 [] text)

-- From `length_bytes` on.
unfoldable pub verify_mcbe_payload : NetText → List ℕ → Option (List ℕ) → Outcome Bool
unfolding verify_mcbe_text
verify_mcbe_payload net response none = ok false
verify_mcbe_payload net response (some length_bytes) = do
  count ← u16_at length_bytes 0
  ok (elim (get_range response 35 (35 + count)) [
    | none ↦ false
    | some data' ↦ verify_mcbe_text (net.from_utf8 data')
  ])

matches_magic : Option (List ℕ) → Bool
matches_magic none = false
matches_magic (some bytes) = text_eq bytes mcbe_magic_bytes

unfoldable pub verify_mcbe_response : NetText → List ℕ → Outcome Bool
unfolding matches_magic
verify_mcbe_response net response = if ltb (length response) 48 then ok false else (do
  id ← index response 0
  if not (id == 0x1c)
      then ok false
      else if not (matches_magic (get_range response 17 33))
      then ok false
      else verify_mcbe_payload net response (get_range response 33 35))

unfoldable pub verify_response : NetText → UdpTestKind → List ℕ → Outcome Bool
verify_response net ntp response = verify_ntp_response response
verify_response net dns response = verify_dns_response response
verify_response net stun response = verify_stun_response response
verify_response net mcbe response = verify_mcbe_response net response
