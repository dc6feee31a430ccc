-- ===== src/Context/Env.antt =====
-- crates/voya-app/src/coregen.rs: the snapshot of the database that a context is built from.
pub mod Laws
use voya_vpn.Base.{
  ℤ, Bool, true, false, List, [], ◌∷◌, Option, none, some, if◌then◌else◌, Text, text_eq,
}
use voya_vpn.Entities.{ProfileItem}
use voya_vpn.Entities.Routing.{RoutingItem, SubItem, AppConfig}

pub data CoreGenPlatform : Type 0 where
  windows mac_os linux : CoreGenPlatform

unfoldable pub is_non_windows : CoreGenPlatform → Bool
is_non_windows windows = false
is_non_windows mac_os = true
is_non_windows linux = true

-- The paths of rule sets are handed through and not read.
pub record SnapshotCoreGenEnv : Type 0 where
  pub local_socks_port : ℤ
  pub platform : CoreGenPlatform
  pub profiles : List ProfileItem
  pub routings : List RoutingItem
  pub subs : List SubItem

-- `iter().find(…).cloned()`.
unfoldable pub find {ℓ} : {A : Type ℓ} → (A → Bool) → List A → Option A
find p [] = none
find p (x ∷ xs) = let rest = find p xs in if p x then some x else rest

-- `iter().filter(…)`.
unfoldable pub filter {ℓ} : {A : Type ℓ} → (A → Bool) → List A → List A
filter p [] = []
filter p (x ∷ xs) = let rest = filter p xs in if p x then x ∷ rest else rest

-- `iter().filter_map(…)`.
unfoldable pub filter_map {ℓ ℓ'} : {A : Type ℓ} {B : Type ℓ'} → (A → Option B) → List A → List B
filter_map f [] = []
filter_map f (x ∷ xs) = elim (f x) [ none ↦ filter_map f xs | some y ↦ y ∷ filter_map f xs ]

unfoldable pub get_profile_by_index_id : SnapshotCoreGenEnv → Text → Option ProfileItem
unfolding find
get_profile_by_index_id env index_id =
    find (λ profile. text_eq profile.index_id index_id) env.profiles

unfoldable pub get_profile_by_remarks : SnapshotCoreGenEnv → Text → Option ProfileItem
unfolding find
get_profile_by_remarks env remarks = find (λ profile. text_eq profile.remarks remarks) env.profiles

unfoldable pub get_profile_items_ordered_by_index_ids :
    SnapshotCoreGenEnv → List Text → List ProfileItem
unfolding filter_map get_profile_by_index_id
get_profile_items_ordered_by_index_ids env index_ids =
    filter_map (get_profile_by_index_id env) index_ids

abbrev is_text : Option Text → Text → Bool
is_text none t = false
is_text (some s) t = text_eq s t

unfoldable pub get_profile_items_by_subscription_id : SnapshotCoreGenEnv → Text → List ProfileItem
unfolding filter
get_profile_items_by_subscription_id env subscription_id =
    filter (λ profile. is_text profile.subscription_id subscription_id) env.profiles

unfoldable pub get_subscription : SnapshotCoreGenEnv → Text → Option SubItem
unfolding find
get_subscription env subscription_id = find (λ sub. text_eq sub.id subscription_id) env.subs

abbrev first {ℓ} : {A : Type ℓ} → List A → Option A
first [] = none
first (x ∷ xs) = some x

unfoldable pub get_default_routing : SnapshotCoreGenEnv → AppConfig → Option RoutingItem
unfolding find
get_default_routing env config =
    elim (find (λ routing. text_eq routing.id config.routing_index_id) env.routings) [
      | none ↦ first env.routings
      | some routing ↦ some routing
    ]
