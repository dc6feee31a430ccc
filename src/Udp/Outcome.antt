-- ===== src/Udp/Outcome.antt =====
-- crates/voya-udptest/src/lib.rs: the errors and results. An index or a range out of bounds is a
-- `panic`, which no error handling of the program catches.
use voya_vpn.Base.{ℕ, Option, none, some}
use voya_vpn.Udp.Kind.{UdpTestKind}

pub data UdpTestError : Type 0 where
  io : UdpTestError
  timeout : ℕ → UdpTestError
  socks_no_auth_rejected : UdpTestError
  socks_udp_associate_rejected : ℕ → UdpTestError
  invalid_relay_address : UdpTestError
  channel_not_established : UdpTestError
  packet_too_short : UdpTestError
  fragment_unsupported : UdpTestError
  unsupported_address_type : ℕ → UdpTestError
  domain_too_long : UdpTestError
  invalid_target_port : UdpTestError
  response_verification_failed : UdpTestKind → UdpTestError

pub data Outcome {ℓ} (A : Type ℓ) : Type ℓ where
  ok : A → Outcome A
  err : UdpTestError → Outcome A
  panic : Outcome A

infixl 5 ◌>>=◌
abbrev pub ◌>>=◌ {ℓ κ} : {A : Type ℓ} {B : Type κ} → Outcome A → (A → Outcome B) → Outcome B
ok a >>= f = f a
err e >>= f = err e
panic >>= f = panic

-- `ok_or`.
abbrev pub or_err {ℓ} : {A : Type ℓ} → Option A → UdpTestError → Outcome A
or_err none e = err e
or_err (some a) e = ok a
