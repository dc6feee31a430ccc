-- ===== src/Context/Build/Laws.antt =====
-- Chains of computations that may run out of fuel.
use voya_vpn.Base.{Option, none, some, Gives, Returns}
use voya_vpn.Context.Build.{◌>>=◌}

pub bind-Gives {ℓ ℓ'} :
    {A : Type ℓ} {B : Type ℓ'} (P : A → Type 0) (Q : B → Type 0) (o : Option A) (f : A → Option B)
    → Gives P o
    → ((a : A) → P a → Gives Q (f a))
    → Gives Q (o >>= f)
unfolding ◌>>=◌
bind-Gives P Q none f h next = tt
bind-Gives P Q (some a) f h next = next a h

pub bind-Returns {ℓ ℓ'} :
    {A : Type ℓ} {B : Type ℓ'} (o : Option A) (f : A → Option B)
    → Returns o
    → ((a : A) → Returns (f a))
    → Returns (o >>= f)
unfolding ◌>>=◌
bind-Returns none f h next = absurd h
bind-Returns (some a) f h next = next a
