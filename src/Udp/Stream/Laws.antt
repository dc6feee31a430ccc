-- ===== src/Udp/Stream/Laws.antt =====
-- The reader of the control connection: it does not panic, and it agrees with the packet reader.
use voya_vpn.Base.{ℕ, List, ltb, length, inl, inr, Bool-cases, ◌==◌}
use voya_vpn.Udp.Ensures.{Ensures, Any, step}
use voya_vpn.Udp.Address.{NetText}
use voya_vpn.Udp.Kind.{byte_at}
use voya_vpn.Udp.Stream.{
  read_exact, read_port, read_ipv4, read_ipv6, read_domain, read_by_type, read_socks5_address,
}

pub read_exact-Ensures : (n : ℕ) (input : List ℕ) → Ensures Any (read_exact n input)
unfolding read_exact
read_exact-Ensures n input = elim (Bool-cases (ltb (length input) n)) [
  | inl e ↦ rw e tt
  | inr e ↦ rw e tt
]

port-Ensures : (input : List ℕ) → Ensures Any (read_port input)
unfolding read_port
port-Ensures input = step (read_exact 2 input) _ (read_exact-Ensures 2 input) λ r. tt

read_by_type-Ensures :
    (net : NetText) (atyp : ℕ) (input : List ℕ) → Ensures Any (read_by_type net atyp input)
unfolding read_by_type read_ipv4 read_ipv6 read_domain
read_by_type-Ensures net atyp input = elim (Bool-cases (atyp == 0x01)) [
  | inl e ↦ rw e (
      step (read_exact 4 input) _ (read_exact-Ensures 4 input)
        λ r. step (read_port r.1) _ (port-Ensures r.1) λ s. tt)
  | inr e ↦ rw e (elim (Bool-cases (atyp == 0x04)) [
    | inl f ↦ rw f (
        step (read_exact 16 input) _ (read_exact-Ensures 16 input)
          λ r. step (read_port r.1) _ (port-Ensures r.1) λ s. tt)
    | inr f ↦ rw f (elim (Bool-cases (atyp == 0x03)) [
      | inl g ↦ rw g (
          step (read_exact 1 input) _ (read_exact-Ensures 1 input) λ r.
            step (read_exact (byte_at r.0 0) r.1) _ (read_exact-Ensures (byte_at r.0 0) r.1)
              λ d. step (read_port d.1) _ (port-Ensures d.1) λ s. tt)
      | inr g ↦ rw g tt
    ])
  ])
]

pub address-Ensures : (net : NetText) (input : List ℕ) → Ensures Any (read_socks5_address net input)
unfolding read_socks5_address
address-Ensures net input =
    step (read_exact 1 input) _ (read_exact-Ensures 1 input)
      λ r. read_by_type-Ensures net (byte_at r.0 0) r.1
