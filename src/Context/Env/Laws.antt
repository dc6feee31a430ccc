-- ===== src/Context/Env/Laws.antt =====
-- What the snapshot answers are profiles of the snapshot.
use voya_vpn.Base.{
  Bool, List, [], ◌∷◌, Option, none, some, Text, Bool-cases, inl, inr, Each, Each-append, Gives,
}
use voya_vpn.Entities.{
  ProfileItem, ProfileProtocol, single, policy_group_of, proxy_chain_of, child_profile_ids,
}
use voya_vpn.Context.Library.{Library}
use voya_vpn.Context.Env.{
  SnapshotCoreGenEnv, find, filter, filter_map, get_profile_by_index_id, get_profile_by_remarks,
  get_profile_items_by_subscription_id, get_profile_items_ordered_by_index_ids,
}
use voya_vpn.Context.Traverse.{
  selected_child_profile_items, sub_child_profile_items, group_child_profile_items,
}

find-Gives {ℓ} :
    {A : Type ℓ} (Q : A → Type 0) (p : A → Bool) (xs : List A) → Each Q xs → Gives Q (find p xs)
unfolding find
find-Gives Q p [] each = tt
find-Gives Q p (x ∷ xs) (q, each) = elim (Bool-cases (p x)) [
  | inl here ↦ rw here q
  | inr later ↦ rw later (find-Gives Q p xs each)
]

pub filter-Each {ℓ} :
    {A : Type ℓ} (Q : A → Type 0) (p : A → Bool) (xs : List A) → Each Q xs → Each Q (filter p xs)
unfolding filter
filter-Each Q p [] each = tt
filter-Each Q p (x ∷ xs) (q, each) = elim (Bool-cases (p x)) [
  | inl kept ↦ rw kept (q, filter-Each Q p xs each)
  | inr dropped ↦ rw dropped (filter-Each Q p xs each)
]

filter_map-Each {ℓ ℓ'} :
    {A : Type ℓ} {B : Type ℓ'} (Q : B → Type 0) (f : A → Option B) (xs : List A)
    → ((x : A) → Gives Q (f x))
    → Each Q (filter_map f xs)
unfolding filter_map
filter_map-Each Q f [] gives = tt
filter_map-Each {B = B} Q f (x ∷ xs) gives = by_value (f x) (gives x) (filter_map-Each Q f xs gives)
  where
    by_value :
        (o : Option B)
        → Gives Q o
        → Each Q (filter_map f xs)
        → Each Q (elim o [ none ↦ filter_map f xs | some y ↦ y ∷ filter_map f xs ])
    by_value none h rest = rest
    by_value (some y) h rest = (h, rest)

pub get_profile_by_index_id-Gives :
    (env : SnapshotCoreGenEnv) (Q : ProfileItem → Type 0) (id : Text)
    → Each Q env.profiles
    → Gives Q (get_profile_by_index_id env id)
unfolding get_profile_by_index_id
get_profile_by_index_id-Gives env Q id each = find-Gives Q _ env.profiles each

pub get_profile_by_remarks-Gives :
    (env : SnapshotCoreGenEnv) (Q : ProfileItem → Type 0) (remarks : Text)
    → Each Q env.profiles
    → Gives Q (get_profile_by_remarks env remarks)
unfolding get_profile_by_remarks
get_profile_by_remarks-Gives env Q remarks each = find-Gives Q _ env.profiles each

-- The children of a group.
pub children-Each :
    (lib : Library) (env : SnapshotCoreGenEnv) (Q : ProfileItem → Type 0)
    (protocol : ProfileProtocol)
    → Each Q env.profiles
    → Each Q (group_child_profile_items lib env protocol)
unfolding group_child_profile_items selected_child_profile_items sub_child_profile_items
    get_profile_items_by_subscription_id get_profile_items_ordered_by_index_ids
children-Each lib env Q protocol each =
    Each-append Q (sub_child_profile_items lib env protocol)
      (selected_child_profile_items env protocol) (members protocol)
      (filter_map-Each Q _ (child_profile_ids protocol)
        λ id. get_profile_by_index_id-Gives env Q id each)
  where
    members : (pr : ProfileProtocol) → Each Q (sub_child_profile_items lib env pr)
    members (single p) = tt
    members (policy_group_of ids none pattern) = tt
    members (policy_group_of ids (some subscription) pattern) =
        filter-Each Q _ (get_profile_items_by_subscription_id env subscription)
          (filter-Each Q _ env.profiles each)
    members (proxy_chain_of ids) = tt
