-- ===== src/Context/Maps.antt =====
-- Lookups in a map of profiles after an insertion, and sets of ids.
use voya_vpn.Base.{
  ◌≡◌, refl, sym, Bool, true, false, ◌||◌, List, [], ◌∷◌, ◌++◌, Option, none, some, if◌then◌else◌,
  Text, text_eq, eq_of_text_eq, text_eq_refl, arith, Bool-cases, inl, inr, subst,
}
use voya_vpn.Entities.{ProfileItem}
use voya_vpn.Groups.Profile.{ProfileMap, insert, get, contains, text_lt}

pub text_eq_sym : (s t : Text) → text_eq s t ≡ text_eq t s
text_eq_sym [] [] = refl
text_eq_sym (a ∷ s) (b ∷ t) = let h = text_eq_sym s t in ground (arith, h)
text_eq_sym [] (b ∷ t) = refl
text_eq_sym (a ∷ s) [] = refl

pub get-insert :
    (id k : Text) (p : ProfileItem) (m : ProfileMap)
    → get id (insert k p m) ≡ (if text_eq id k then some p else get id m)
unfolding get insert
get-insert id k p [] = refl
get-insert id k p ((k', p') ∷ m) = elim (Bool-cases (text_eq k k')) [
  | inl same ↦ rw same (elim (Bool-cases (text_eq id k)) [
    | inl here ↦ rw here refl
    | inr other ↦ rw (other, subst (λ x. text_eq id x ≡ false) (eq_of_text_eq k k' same) other) refl
  ])
  | inr differ ↦ rw differ (elim (Bool-cases (text_lt k k')) [
    | inl before ↦ rw before refl
    | inr after ↦ rw after (
        rw (get-insert id k p m) (elim (Bool-cases (text_eq id k)) [
          | inl here ↦
              rw (here, subst (λ x. text_eq x k' ≡ false) (sym (eq_of_text_eq id k here)) differ)
                refl
          | inr other ↦ rw other refl
        ]))
  ])
]

-- The map has a profile under the id.
abbrev pub is_some {ℓ} : {A : Type ℓ} → Option A → Bool
is_some none = false
is_some (some a) = true

unfoldable pub has_key : Text → ProfileMap → Bool
unfolding get
has_key id m = is_some (get id m)

pub has_key-insert :
    (id k : Text) (p : ProfileItem) (m : ProfileMap)
    → has_key id (insert k p m) ≡ (text_eq id k || has_key id m)
unfolding has_key
has_key-insert id k p m =
    rw (get-insert id k p m)
      (elim (Bool-cases (text_eq id k)) [ inl here ↦ rw here refl | inr other ↦ rw other refl ])

-- Every id of the list is in the map.
abbrev pub AllKeys : List Text → ProfileMap → Type 0
AllKeys [] m = Unit
AllKeys (id ∷ ids) m = (has_key id m ≡ true) × AllKeys ids m

pub AllKeys-append :
    (ids : List Text) (id : Text) (m : ProfileMap)
    → AllKeys ids m
    → has_key id m ≡ true
    → AllKeys (ids ++ (id ∷ [])) m
AllKeys-append [] id m h k = (k, tt)
AllKeys-append (x ∷ ids) id m (h, hs) k = (h, AllKeys-append ids id m hs k)

-- One map has all the keys of another.
abbrev pub Extends : ProfileMap → ProfileMap → Type 0
Extends m m' = (id : Text) → has_key id m ≡ true → has_key id m' ≡ true

pub AllKeys-Extends :
    (ids : List Text) (m m' : ProfileMap) → Extends m m' → AllKeys ids m → AllKeys ids m'
AllKeys-Extends [] m m' e h = tt
AllKeys-Extends (id ∷ ids) m m' e (h, hs) = (e id h, AllKeys-Extends ids m m' e hs)

pub or_true : (b : Bool) → (b || true) ≡ true
or_true true = refl
or_true false = refl

pub true_of_or_false : (b : Bool) → (b || false) ≡ true → b ≡ true
true_of_or_false true h = refl
true_of_or_false false h = h

pub insert-Extends : (k : Text) (p : ProfileItem) (m : ProfileMap) → Extends m (insert k p m)
insert-Extends k p m id h = rw (has_key-insert id k p m, h) (or_true (text_eq id k))

pub insert-has_key : (k : Text) (p : ProfileItem) (m : ProfileMap) → has_key k (insert k p m) ≡ true
insert-has_key k p m = rw (has_key-insert k k p m, text_eq_refl k) refl

pub contains-cons :
    (id k : Text) (ks : List Text) → contains id (k ∷ ks) ≡ (text_eq id k || contains id ks)
unfolding contains
contains-cons id k ks = refl
