-- ===== src/Groups/Profile.antt =====
-- crates/voya-core/src/groups.rs: the map of profiles by their ids.
use voya_vpn.Base.{
  ◌≡◌, arith, ◌++◌, Bool, true, false, ◌&&◌, ◌||◌, List, [], ◌∷◌, Option, none, some, ltb, ◌==◌,
  if◌then◌else◌, any, Text, codes, text_eq, is_empty, trim,
}
use voya_vpn.Entities.{ProfileItem}

unfoldable pub nonempty : Text → Option Text
unfolding trim
nonempty value = if is_empty (trim value) then none else some (trim value)

abbrev or_else {ℓ} : {A : Type ℓ} → Option A → A → A
or_else none d = d
or_else (some a) d = a

-- The id of a group that has none yet.
unfoldable pub effective_profile_id : ProfileItem → Text
unfolding nonempty
effective_profile_id profile = or_else (nonempty profile.index_id) (codes "__draft_group__")

-- `BTreeMap<String, ProfileItem>`: the entries by their keys in the order of strings.
abbrev pub ProfileMap : Type 0
ProfileMap = List (Text × ProfileItem)

unfoldable pub text_lt : Text → Text → Bool
text_lt s [] = false
text_lt [] (b ∷ t) = true
text_lt (a ∷ s) (b ∷ t) = ltb a b || (a == b && text_lt s t)

unfoldable pub insert : Text → ProfileItem → ProfileMap → ProfileMap
unfolding text_lt
insert k p [] = (k, p) ∷ []
insert k p ((k', p') ∷ m) =
    let rest = insert k p m in
    if text_eq k k'
    then (k, p) ∷ m
    else if text_lt k k'
    then (k, p) ∷ (k', p') ∷ m
    else (k', p') ∷ rest

unfoldable pub get : Text → ProfileMap → Option ProfileItem
get k [] = none
get k ((k', p) ∷ m) = let rest = get k m in if text_eq k k' then some p else rest

abbrev pub keys : ProfileMap → List Text
keys [] = []
keys ((k, p) ∷ m) = k ∷ keys m

-- Membership in a list or a set of ids.
unfoldable pub contains : Text → List Text → Bool
contains k ks = any (text_eq k) ks

-- No id of the list stands among those before it.
abbrev pub IsFresh : List Text → List Text → Type 0
IsFresh before [] = Unit
IsFresh before (id ∷ path) = (contains id before ≡ false) × IsFresh (id ∷ before) path

pub contains-append :
    (x id : Text) (stack : List Text)
    → contains x (stack ++ (id ∷ [])) ≡ (contains x stack || text_eq x id)
unfolding contains
contains-append x id [] = ground arith
contains-append x id (s ∷ stack) = ground (arith, contains-append x id stack)

insert_named : ProfileItem → ProfileMap → ProfileMap
unfolding insert trim
insert_named profile m =
    if is_empty (trim profile.index_id) then m else insert profile.index_id profile m

insert_all : List ProfileItem → ProfileMap → ProfileMap
unfolding insert_named
insert_all [] m = m
insert_all (profile ∷ profiles) m = insert_all profiles (insert_named profile m)

-- A later profile takes the place of an earlier one with its id.
unfoldable pub profiles_by_id : List ProfileItem → ProfileMap
unfolding insert_all
profiles_by_id profiles = insert_all profiles []
