-- ===== src/Groups/Cycle.antt =====
-- crates/voya-core/src/groups.rs: the search for a group that contains itself.
pub mod Laws
pub mod Quiet
pub mod Genuine
pub mod Acyclic
use voya_vpn.Base.{
  for_each, ℕ, zero, suc, Bool, true, false, List, [], ◌∷◌, ◌++◌, Option, none, some, if◌then◌else◌,
  Text, text_eq,
}
use voya_vpn.Entities.{is_group_type, ProfileItem, config_type}
use voya_vpn.Groups.Profile.{ProfileMap, get, contains}
use voya_vpn.Groups.Children.{
  GroupValidationResult, cycle_dependency, add_error, Collected, effective_child_ids,
}

-- `stack[start..]`, from the first place of the id on; `none` where it does not occur.
unfoldable pub from_first : Text → List Text → Option (List Text)
from_first id [] = none
from_first id (s ∷ stack) =
    let rest = from_first id stack in if text_eq s id then some (s ∷ stack) else rest

-- The cycle is what is on the stack from the id on, and the id again.
unfoldable pub report_cycle : Text → List Text → GroupValidationResult → GroupValidationResult
unfolding from_first
report_cycle id stack result = elim (from_first id stack) [
  | none ↦ result
  | some path ↦ add_error (cycle_dependency (path ++ (id ∷ []))) result
]

-- Each call takes its id off the stack and out of the set again before it returns, so that the two
-- are handed down. `none`: out of fuel.
unfoldable pub detect_cycle :
    (Text → Option (Text → Bool))
    → ProfileMap
    → ℕ
    → List Text
    → List Text
    → Text
    → GroupValidationResult
    → Option GroupValidationResult
unfolding report_cycle
detect_cycle regex m zero visiting stack id result = none
detect_cycle regex m (suc fuel) visiting stack id result =
    let next = detect_cycle regex m fuel (id ∷ visiting) (stack ++ (id ∷ [])) in
    if contains id visiting then some (report_cycle id stack result) else elim (get id m) [
      | none ↦ some result
      | some profile ↦
          if is_group_type (config_type profile.protocol)
          then (let children = effective_child_ids regex profile m false result in
              for_each next children.ids children.result)
          else some result
    ]
