-- ===== src/Groups/Children.antt =====
-- crates/voya-core/src/groups.rs: the children of a group.
pub mod Laws
pub mod Distinct
use voya_vpn.Base.{
  Bool, true, false, ◌&&◌, ◌||◌, not, List, [], ◌∷◌, ◌++◌, Option, none, some, if◌then◌else◌, Text,
  text_eq,
}
use voya_vpn.Entities.{
  ConfigType, is_complex_type, ProfileProtocol, single, policy_group_of, proxy_chain_of,
  ProfileItem, config_type, child_profile_ids,
}
use voya_vpn.Groups.Profile.{nonempty, ProfileMap, get, contains}

-- The texts of the program, by what they say.
pub data GroupError : Type 0 where
  not_a_group : GroupError
  no_valid_children : ConfigType → GroupError
  child_not_found : Text → GroupError
  cycle_dependency : List Text → GroupError

pub data GroupWarning : Type 0 where
  one_hop : GroupWarning
  duplicate_ignored : Text → GroupWarning

pub record GroupValidationResult : Type 0 where
  pub valid : Bool
  pub normalized_child_items : Text
  pub child_index_ids : List Text
  pub errors : List GroupError
  pub warnings : List GroupWarning

abbrev pub fresh_result : GroupValidationResult
fresh_result = record {
  valid = true;
  normalized_child_items = [];
  child_index_ids = [];
  errors = [];
  warnings = [];
}

abbrev pub add_error : GroupError → GroupValidationResult → GroupValidationResult
add_error e result = record result { errors = result.errors ++ (e ∷ []) }

abbrev pub add_warning : GroupWarning → GroupValidationResult → GroupValidationResult
add_warning w result = record result { warnings = result.warnings ++ (w ∷ []) }

has_duplicate : Text → List GroupWarning → Bool
has_duplicate id [] = false
has_duplicate id (one_hop ∷ ws) = has_duplicate id ws
has_duplicate id (duplicate_ignored id' ∷ ws) = text_eq id id' || has_duplicate id ws

-- The ids so far, in order; the set of those seen; and the result that is written on the way.
pub record Collected : Type 0 where
  pub ids : List Text
  pub seen : List Text
  pub result : GroupValidationResult

unfoldable pub push_unique_child : Text → Collected → Collected
unfolding has_duplicate
push_unique_child id c =
    if contains id c.seen
    then if has_duplicate id c.result.warnings
      then c
      else record c { result = add_warning (duplicate_ignored id) c.result }
    else record c { ids = c.ids ++ (id ∷ []); seen = id ∷ c.seen }

-- The first loop: the ids that the group names.
unfoldable pub push_named : ProfileMap → Bool → List Text → Collected → Collected
push_named m report_missing [] c = c
push_named m report_missing (id ∷ ids) c = elim (get id m) [
  | none ↦
      push_named m report_missing ids (
        if report_missing then record c { result = add_error (child_not_found id) c.result } else c)
  | some profile ↦ push_named m report_missing ids (push_unique_child id c)
]

abbrev same_text : Option Text → Text → Bool
same_text none t = false
same_text (some s) t = text_eq s t

abbrev pub passes : Option (Text → Bool) → Text → Bool
passes none remarks = true
passes (some is_match) remarks = is_match remarks

is_candidate : Text → Option (Text → Bool) → ProfileItem → Bool
unfolding is_complex_type config_type
is_candidate subscription filter candidate =
    same_text candidate.subscription_id subscription
    && (not (is_complex_type (config_type candidate.protocol)) && passes filter candidate.remarks)

-- The second loop: the members of the subscription that pass.
unfoldable pub push_matching : (ProfileItem → Bool) → ProfileMap → Collected → Collected
push_matching wanted [] c = c
push_matching wanted ((k, child) ∷ m) c =
    push_matching wanted m (if wanted child then push_unique_child child.index_id c else c)

-- `Regex::new` on the filter, where there is one that is not blank.
unfoldable pub filter_of : (Text → Option (Text → Bool)) → Option Text → Option (Text → Bool)
unfolding nonempty
filter_of regex none = none
filter_of regex (some filter) = elim (nonempty filter) [ none ↦ none | some value ↦ regex value ]

push_subscription :
    (Text → Option (Text → Bool)) → ProfileMap → ProfileProtocol → Collected → Collected
unfolding is_candidate filter_of
push_subscription regex m (policy_group_of ids (some subscription) filter) c =
    push_matching (is_candidate subscription (filter_of regex filter)) m c
push_subscription regex m (policy_group_of ids none filter) c = c
push_subscription regex m (single t) c = c
push_subscription regex m (proxy_chain_of ids) c = c

abbrev pub nothing_yet : GroupValidationResult → Collected
nothing_yet result = record { ids = []; seen = []; result = result }

-- Regular expressions are an argument: what `Regex::new` and `is_match` answer.
unfoldable pub effective_child_ids :
    (Text → Option (Text → Bool))
    → ProfileItem
    → ProfileMap
    → Bool
    → GroupValidationResult
    → Collected
unfolding push_subscription child_profile_ids
effective_child_ids regex profile m report_missing result =
    push_subscription regex m profile.protocol
      (push_named m report_missing (child_profile_ids profile.protocol) (nothing_yet result))
