-- ===== src/Groups/Validate.antt =====
-- crates/voya-core/src/groups.rs: the validation of a group, and lists of ids as texts.
pub mod Laws
use voya_vpn.Base.{
  ℕ, suc, Bool, true, false, ◌&&◌, ◌||◌, List, [], ◌∷◌, ◌++◌, Option, none, some, ◌==◌,
  if◌then◌else◌, length, Text, is_empty, trim, split_at,
}
use voya_vpn.Entities.{
  ConfigType, policy_group, proxy_chain, is_group_type, ProfileItem, config_type,
}
use voya_vpn.Groups.Profile.{
  nonempty, effective_profile_id, ProfileMap, insert, keys, profiles_by_id,
}
use voya_vpn.Groups.Children.{
  GroupValidationResult, fresh_result, GroupError, not_a_group, no_valid_children, one_hop,
  add_error, add_warning, Collected, effective_child_ids,
}
use voya_vpn.Groups.Cycle.{detect_cycle}

-- `values.join(",")`.
unfoldable pub join_profile_id_list : List Text → Text
join_profile_id_list [] = []
join_profile_id_list (v ∷ []) = v
join_profile_id_list (v ∷ w ∷ vs) = v ++ (b',' ∷ join_profile_id_list (w ∷ vs))

-- `replace(['\r', '\n'], "")`.
drop_newlines : Text → Text
drop_newlines [] = []
drop_newlines (c ∷ s) = let rest = drop_newlines s in if c == 13 || c == 10 then rest else c ∷ rest

nonempty_pieces : List Text → List Text
unfolding nonempty
nonempty_pieces [] = []
nonempty_pieces (piece ∷ pieces) = elim (nonempty piece) [
  | none ↦ nonempty_pieces pieces
  | some id ↦ id ∷ nonempty_pieces pieces
]

unfoldable pub parse_profile_id_list : Option Text → List Text
unfolding trim split_at drop_newlines nonempty_pieces
parse_profile_id_list none = []
parse_profile_id_list (some value) =
    if is_empty (trim value)
    then []
    else nonempty_pieces (split_at b',' [] (drop_newlines (trim value)))

abbrev no_errors : List GroupError → Bool
no_errors [] = true
no_errors (e ∷ es) = false

-- The map with the group itself under its effective id.
abbrev pub with_root : ProfileItem → List ProfileItem → ProfileMap
with_root profile profiles =
    insert (effective_profile_id profile)
      (record profile { index_id = effective_profile_id profile }) (profiles_by_id profiles)

check_children : ProfileItem → Collected → GroupValidationResult
check_children profile children =
    let counted =
      if length children.ids == 0
      then add_error (no_valid_children (config_type profile.protocol)) children.result
      else children.result in
    elim (config_type profile.protocol) [
      | proxy_chain ↦ if length children.ids == 1 then add_warning one_hop counted else counted
      | _ ↦ counted
    ]

finish_validation : List Text → GroupValidationResult → GroupValidationResult
finish_validation child_index_ids result = record result {
  valid = no_errors result.errors;
  normalized_child_items = join_profile_id_list child_index_ids;
  child_index_ids = child_index_ids;
}

-- The fuel is one more than the ids of the map: the calls that a call is nested in are for different
-- ids of the map. `none`: out of fuel.
unfoldable pub validate_group_profile :
    (Text → Option (Text → Bool)) → ProfileItem → List ProfileItem → Option GroupValidationResult
unfolding check_children finish_validation
validate_group_profile regex profile profiles =
    if is_group_type (config_type profile.protocol)
    then (let m = with_root profile profiles in
        let children = effective_child_ids regex profile m true fresh_result in
        elim (detect_cycle regex m (suc (length (keys m))) [] [] (effective_profile_id profile)
          (check_children profile children)) [
            | none ↦ none
            | some result ↦ some (finish_validation children.ids result)
          ])
    else some (record (add_error not_a_group fresh_result) { valid = false })
