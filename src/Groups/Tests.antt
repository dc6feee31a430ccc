-- ===== src/Groups/Tests.antt =====
-- A group of a leaf, and two groups that contain each other.
use voya_vpn.Base.{
  for_each, pos, ◌≡◌, ◌≢◌, refl, Bool, true, false, [], ◌∷◌, Option, none, some, Text, codes,
}
use voya_vpn.Entities.{
  single, policy_group_of, proxy_chain_of, ProfileItem, is_group_type, config_type, vless_of,
}
use voya_vpn.Groups.Profile.{IsFresh, effective_profile_id, profiles_by_id, insert, get, contains}
use voya_vpn.Groups.Children.{
  GroupValidationResult, fresh_result, duplicate_ignored, effective_child_ids, push_named,
  push_unique_child, cycle_dependency,
}
use voya_vpn.Groups.Children.Distinct.{effective_child_ids-IsFresh}
use voya_vpn.Groups.Cycle.{detect_cycle}
use voya_vpn.Groups.Cycle.Genuine.{AreGenuine, detect_cycle-AreGenuine}
use voya_vpn.Groups.Cycle.Acyclic.{IsChild}
use voya_vpn.Groups.Validate.{with_root, join_profile_id_list, validate_group_profile}
use voya_vpn.Groups.Validate.Laws.{validate_group_profile_total, validate_group_profile-IsFresh}

abbrev no_regex : Text → Option (Text → Bool)
no_regex pattern = none

abbrev leaf : ProfileItem
leaf = record {
  index_id = codes "leaf";
  subscription_id = none;
  remarks = [];
  protocol =
      single (vless_of (record { address = codes "leaf.example"; port = pos 443 }) [] none none);
  transport = none;
  tls = none;
}

abbrev chain : ProfileItem
chain = record {
  index_id = codes "chain";
  subscription_id = none;
  remarks = [];
  protocol = proxy_chain_of (codes "leaf" ∷ codes "group" ∷ []);
  transport = none;
  tls = none;
}

abbrev group : ProfileItem
group = record {
  index_id = codes "group";
  subscription_id = none;
  remarks = [];
  protocol = policy_group_of (codes "leaf" ∷ []) none none;
  transport = none;
  tls = none;
}

abbrev looped : ProfileItem
looped = record group { protocol = policy_group_of (codes "chain" ∷ codes "chain" ∷ []) none none }

abbrev accepted : GroupValidationResult
accepted = record {
  valid = true;
  normalized_child_items = codes "leaf";
  child_index_ids = codes "leaf" ∷ [];
  errors = [];
  warnings = [];
}

validated : validate_group_profile no_regex group (leaf ∷ group ∷ []) ≡ some accepted
unfolding validate_group_profile is_group_type config_type detect_cycle contains get insert
    profiles_by_id effective_profile_id for_each effective_child_ids push_named push_unique_child
    join_profile_id_list
validated = refl

refused :
    validate_group_profile no_regex looped (leaf ∷ chain ∷ looped ∷ [])
    ≡ some (record {
      valid = false;
      normalized_child_items = codes "chain";
      child_index_ids = codes "chain" ∷ [];
      errors = cycle_dependency (codes "group" ∷ codes "chain" ∷ codes "group" ∷ []) ∷ [];
      warnings = duplicate_ignored (codes "chain") ∷ [];
    })
unfolding validate_group_profile is_group_type config_type detect_cycle contains get insert
    profiles_by_id effective_profile_id for_each effective_child_ids push_named push_unique_child
    join_profile_id_list
refused = refl

validate_group_profile_total_example :
    validate_group_profile no_regex looped (leaf ∷ chain ∷ looped ∷ []) ≢ none
validate_group_profile_total_example =
    validate_group_profile_total no_regex looped (leaf ∷ chain ∷ looped ∷ [])

leaf-IsChild :
    IsChild no_regex
      (with_root group (leaf ∷ group ∷ []))
      (effective_profile_id group)
      (codes "leaf")
unfolding get insert profiles_by_id effective_profile_id is_group_type config_type contains
    effective_child_ids push_named push_unique_child
leaf-IsChild = record { profile = group; found = refl; group = refl; listed = refl }

validate_group_profile-IsFresh_example : IsFresh [] (effective_profile_id group ∷ codes "leaf" ∷ [])
validate_group_profile-IsFresh_example =
    validate_group_profile-IsFresh no_regex group (leaf ∷ group ∷ []) accepted (codes "leaf" ∷ [])
      validated refl (leaf-IsChild, tt)

effective_child_ids-IsFresh_example :
    IsFresh []
      (effective_child_ids no_regex looped (with_root looped (chain ∷ [])) true fresh_result).ids
effective_child_ids-IsFresh_example =
    effective_child_ids-IsFresh no_regex looped (with_root looped (chain ∷ [])) true fresh_result

abbrev cyclic : GroupValidationResult
cyclic = record fresh_result {
  errors = cycle_dependency (codes "group" ∷ codes "chain" ∷ codes "group" ∷ []) ∷ [];
}

searched :
    detect_cycle no_regex
      (with_root looped (leaf ∷ chain ∷ []))
      4
      []
      []
      (codes "group")
      (record fresh_result { warnings = duplicate_ignored (codes "chain") ∷ [] })
    ≡ some (record cyclic { warnings = duplicate_ignored (codes "chain") ∷ [] })
unfolding is_group_type config_type detect_cycle contains get insert profiles_by_id
    effective_profile_id for_each effective_child_ids push_named push_unique_child
searched = refl

detect_cycle-AreGenuine_example :
    AreGenuine no_regex (with_root looped (leaf ∷ chain ∷ [])) cyclic.errors
detect_cycle-AreGenuine_example =
    detect_cycle-AreGenuine no_regex (with_root looped (leaf ∷ chain ∷ [])) 4 (codes "group")
      (record fresh_result { warnings = duplicate_ignored (codes "chain") ∷ [] })
      (record cyclic { warnings = duplicate_ignored (codes "chain") ∷ [] }) tt searched
