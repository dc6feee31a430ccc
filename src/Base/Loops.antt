-- ===== src/Base/Loops.antt =====
-- Loops whose body may run out of fuel, and that the code runs them to the end.
use mathlib.Core.Path.{◌≡◌, refl}
use mathlib.Core.List.{List, [], ◌∷◌, ◌++◌, reverse, reverse_aux}
use mathlib.Core.Option.{Option, none, some}

-- A loop whose body may run out of fuel.
unfoldable pub for_each {ℓ ℓ'} :
    {A : Type ℓ} {R : Type ℓ'} → (A → R → Option R) → List A → R → Option R
for_each body [] r = some r
for_each body (x ∷ xs) r = elim (body x r) [ none ↦ none | some r' ↦ for_each body xs r' ]

-- The computation gives a result.
abbrev pub Returns {ℓ} : {R : Type ℓ} → Option R → Type 0
Returns none = ⊥
Returns (some r) = Unit

-- What holds of a result, if there is one.
abbrev pub Gives {ℓ} : {R : Type ℓ} → (R → Type 0) → Option R → Type 0
Gives P none = Unit
Gives P (some r) = P r

pub Returns-cases {ℓ} : {R : Type ℓ} (o : Option R) → Returns o → (r : R) × (o ≡ some r)
Returns-cases none h = absurd h
Returns-cases (some r) h = (r, refl)

-- Every element of the list.
abbrev pub Each {ℓ} : {A : Type ℓ} → (A → Type 0) → List A → Type 0
Each Q [] = Unit
Each Q (x ∷ xs) = Q x × Each Q xs

pub Each-append {ℓ} :
    {A : Type ℓ} (Q : A → Type 0) (xs ys : List A) → Each Q xs → Each Q ys → Each Q (xs ++ ys)
Each-append Q [] ys h k = k
Each-append Q (x ∷ xs) ys (h, hs) k = (h, Each-append Q xs ys hs k)

pub Each-map {ℓ} :
    {A : Type ℓ} (P Q : A → Type 0) (xs : List A) → ((x : A) → P x → Q x) → Each P xs → Each Q xs
Each-map P Q [] f h = tt
Each-map P Q (x ∷ xs) f (h, hs) = (f x h, Each-map P Q xs f hs)

-- A loop keeps what its body keeps at every element.
pub for_each-Gives {ℓ ℓ'} :
    {A : Type ℓ} {R : Type ℓ'} (Q : A → Type 0) (P : R → Type 0) (body : A → R → Option R)
    (xs : List A) (r : R)
    → ((x : A) (r' : R) → Q x → P r' → Gives P (body x r'))
    → Each Q xs
    → P r
    → Gives P (for_each body xs r)
unfolding for_each
for_each-Gives Q P body [] r keeps each h = h
for_each-Gives {R = R} Q P body (x ∷ xs) r keeps (q, each) h =
    by_step (body x r) (keeps x r q h) λ r' h'. for_each-Gives Q P body xs r' keeps each h'
  where
    by_step :
        (o : Option R)
        → Gives P o
        → ((r' : R) → P r' → Gives P (for_each body xs r'))
        → Gives P (elim o [ none ↦ none | some r' ↦ for_each body xs r' ])
    by_step none h rest = tt
    by_step (some r') h rest = rest r' h

-- A loop gives a result where its body does at every element.
pub for_each-Returns {ℓ ℓ'} :
    {A : Type ℓ} {R : Type ℓ'} (Q : A → Type 0) (body : A → R → Option R) (xs : List A) (r : R)
    → ((x : A) (r' : R) → Q x → Returns (body x r'))
    → Each Q xs
    → Returns (for_each body xs r)
unfolding for_each
for_each-Returns Q body [] r returns each = tt
for_each-Returns {R = R} Q body (x ∷ xs) r returns (q, each) =
    by_step (body x r) (returns x r q) λ r'. for_each-Returns Q body xs r' returns each
  where
    by_step :
        (o : Option R)
        → Returns o
        → ((r' : R) → Returns (for_each body xs r'))
        → Returns (elim o [ none ↦ none | some r' ↦ for_each body xs r' ])
    by_step none h rest = absurd h
    by_step (some r') h rest = rest r'

pub Each-trivial {ℓ} : {A : Type ℓ} (xs : List A) → Each (λ x. Unit) xs
Each-trivial [] = tt
Each-trivial (x ∷ xs) = (tt, Each-trivial xs)

reverse_aux-Each {ℓ} :
    {A : Type ℓ} (Q : A → Type 0) (xs ys : List A)
    → Each Q xs
    → Each Q ys
    → Each Q (reverse_aux xs ys)
reverse_aux-Each Q [] ys h k = k
reverse_aux-Each Q (x ∷ xs) ys (h, hs) k = reverse_aux-Each Q xs (x ∷ ys) hs (h, k)

pub reverse-Each {ℓ} : {A : Type ℓ} (Q : A → Type 0) (xs : List A) → Each Q xs → Each Q (reverse xs)
reverse-Each Q xs h = reverse_aux-Each Q xs [] h tt
