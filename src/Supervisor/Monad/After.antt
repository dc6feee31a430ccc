-- ===== src/Supervisor/Monad/After.antt =====
-- What holds after a computation of the actor: one condition where it succeeds, one where it fails.
use voya_vpn.Base.{◌≡◌, refl, ◌∙◌, Bool, true, false, List, if◌then◌else◌, Option, none, some}
use voya_vpn.Supervisor.State.{SupervisorError}
use voya_vpn.Supervisor.Monad.{
  Result, ok, err, Actor, M, continue, ◌>>=◌, of_option, check, return, fail, ask, attempt, when,
  Action,
}

abbrev pub After {ℓ} :
    {A : Type ℓ}
    → (A → Actor → Type 0)
    → (SupervisorError → Actor → Type 0)
    → Result A
    → Actor
    → Type 0
After Q E (ok a) actor = Q a actor
After Q E (err e) actor = E e actor

continue-After {ℓ κ} :
    {A : Type ℓ} {B : Type κ} (Q : A → Actor → Type 0) (Q' : B → Actor → Type 0)
    (E : SupervisorError → Actor → Type 0) (r : Result A) (actor : Actor) (f : A → M B)
    → After Q E r actor
    → ((a : A) (s : Actor) → Q a s → After Q' E (f a s).0 (f a s).1)
    → After Q' E (continue r actor f).0 (continue r actor f).1
continue-After Q Q' E (ok a) actor f h k = k a actor h
continue-After Q Q' E (err e) actor f h k = h

-- The rule for one step of a `do` block.
pub >>=-After {ℓ κ} :
    {A : Type ℓ} {B : Type κ} (Q : A → Actor → Type 0) (Q' : B → Actor → Type 0)
    (E : SupervisorError → Actor → Type 0) (m : M A) (f : A → M B) (actor : Actor)
    → After Q E (m actor).0 (m actor).1
    → ((a : A) (s : Actor) → Q a s → After Q' E (f a s).0 (f a s).1)
    → After Q' E ((m >>= f) actor).0 ((m >>= f) actor).1
unfolding ◌>>=◌
>>=-After Q Q' E m f actor h k = continue-After Q Q' E (m actor).0 (m actor).1 f h k

pub of_option-After {ℓ} :
    {A : Type ℓ} (P : Actor → Type 0) (E : SupervisorError → Actor → Type 0) (o : Option A)
    (e : SupervisorError) (actor : Actor)
    → P actor
    → E e actor
    → After (λ (a : A) s. P s) E (of_option o e actor).0 (of_option o e actor).1
unfolding of_option
of_option-After P E none e actor p h = h
of_option-After P E (some a) e actor p h = p

pub check-After :
    (P : Actor → Type 0) (E : SupervisorError → Actor → Type 0) (b : Bool) (e : SupervisorError)
    (actor : Actor)
    → P actor
    → E e actor
    → After (λ (u : Unit {0}) s. P s) E (check b e actor).0 (check b e actor).1
unfolding check
check-After P E true e actor p h = p
check-After P E false e actor p h = h

pub After-weaken {ℓ} :
    {A : Type ℓ} (Q : A → Actor → Type 0) (E E' : SupervisorError → Actor → Type 0) (r : Result A)
    (s : Actor)
    → After Q E r s
    → ((e : SupervisorError) → E e s → E' e s)
    → After Q E' r s
After-weaken Q E E' (ok a) s h k = h
After-weaken Q E E' (err e) s h k = k e h

-- The running core and the generation, which most steps leave alone.
abbrev pub Same : Actor → Actor → Type 0
Same t s = (s.running ≡ t.running) × (s.native_tun_generation ≡ t.native_tun_generation)

-- Whatever it does, it only adds to the log.
pub record Keeps {ℓ} {A : Type ℓ} (m : M A) : Type 0 where
  pub at : (actor : Actor) → Same actor (m actor).1

continue-Keeps {ℓ κ} :
    {A : Type ℓ} {B : Type κ} (s : Actor) (r : Result A) (actor : Actor) (f : A → M B)
    → Same s actor
    → ((a : A) → Keeps (f a))
    → Same s (continue r actor f).1
continue-Keeps s (ok a) actor f h k = (((k a).at actor).0 ∙ h.0, ((k a).at actor).1 ∙ h.1)
continue-Keeps s (err e) actor f h k = h

pub >>=-Keeps {ℓ κ} :
    {A : Type ℓ} {B : Type κ} (m : M A) (f : A → M B)
    → Keeps m
    → ((a : A) → Keeps (f a))
    → Keeps (m >>= f)
unfolding ◌>>=◌
>>=-Keeps m f h k = record {
  at = λ actor. continue-Keeps actor (m actor).0 (m actor).1 f (h.at actor) k;
}

pub of_option-Keeps {ℓ} : {A : Type ℓ} (o : Option A) (e : SupervisorError) → Keeps (of_option o e)
unfolding of_option
of_option-Keeps none e = record { at = λ actor. (refl, refl) }
of_option-Keeps (some a) e = record { at = λ actor. (refl, refl) }

pub check-Keeps : (b : Bool) (e : SupervisorError) → Keeps (check b e)
unfolding check
check-Keeps true e = record { at = λ actor. (refl, refl) }
check-Keeps false e = record { at = λ actor. (refl, refl) }

pub return-Keeps {ℓ} : {A : Type ℓ} (a : A) → Keeps (return a)
unfolding return
return-Keeps a = record { at = λ actor. (refl, refl) }

pub fail-Keeps {ℓ} : {A : Type ℓ} (e : SupervisorError) → Keeps (fail {A = A} e)
unfolding fail
fail-Keeps e = record { at = λ actor. (refl, refl) }

pub ask-Keeps {ℓ} :
    {A : Type ℓ} (answer : List Action → A) (action : Action) → Keeps (ask answer action)
unfolding ask
ask-Keeps answer action = record { at = λ actor. (refl, refl) }

pub attempt-Keeps {ℓ} : {A : Type ℓ} (m : M A) → Keeps m → Keeps (attempt m)
unfolding attempt
attempt-Keeps m h = record { at = λ actor. h.at actor }

pub when-Keeps : (b : Bool) (m : M (Unit {0})) → Keeps m → Keeps (when b m)
unfolding when
when-Keeps true m h = record { at = λ actor. h.at actor }
when-Keeps false m h = record { at = λ actor. (refl, refl) }

pub if-Keeps {ℓ} :
    {A : Type ℓ} (b : Bool) (m n : M A) → Keeps m → Keeps n → Keeps (if b then m else n)
if-Keeps true m n h k = h
if-Keeps false m n h k = k

pub ruleset keeps_rules = (
  >>=-Keeps, of_option-Keeps, check-Keeps, return-Keeps, fail-Keeps, ask-Keeps, attempt-Keeps,
  when-Keeps, if-Keeps,
)
