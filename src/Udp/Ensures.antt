-- ===== src/Udp/Ensures.antt =====
-- A postcondition of a fallible computation that also rules out a panic, and its rule for a `do`
-- block.
use voya_vpn.Udp.Outcome.{Outcome, ok, err, panic, ◌>>=◌, UdpTestError, or_err}
use voya_vpn.Base.{Option, none, some}

-- A value satisfies `P`, an error is allowed, a panic is not.
abbrev pub Ensures {ℓ} : {A : Type ℓ} → (A → Type 0) → Outcome A → Type 0
Ensures P (ok a) = P a
Ensures P (err e) = Unit
Ensures P panic = ⊥

pub Ensures-bind {ℓ κ} :
    {A : Type ℓ} {B : Type κ} (P : A → Type 0) (Q : B → Type 0) (m : Outcome A) (f : A → Outcome B)
    → Ensures P m
    → ((a : A) → P a → Ensures Q (f a))
    → Ensures Q (m >>= f)
Ensures-bind P Q (ok a) f h k = k a h
Ensures-bind P Q (err e) f h k = tt
Ensures-bind P Q panic f h k = absurd h

abbrev pub Any {ℓ} : {A : Type ℓ} → A → Type 0
Any a = Unit

-- One step of a `do` block: it does not panic, and nothing that follows does.
pub step {ℓ κ} :
    {A : Type ℓ} {B : Type κ} (m : Outcome A) (f : A → Outcome B)
    → Ensures Any m
    → ((a : A) → Ensures Any (f a))
    → Ensures Any (m >>= f)
step m f h k = Ensures-bind Any Any m f h λ a _. k a

pub or_err-Ensures {ℓ} : {A : Type ℓ} (o : Option A) (e : UdpTestError) → Ensures Any (or_err o e)
or_err-Ensures none e = tt
or_err-Ensures (some a) e = tt
