-- ===== src/Singbox/Groups.antt =====
-- crates/voya-core/src/singbox/outbounds.rs: the outbounds of groups and chains.
pub mod Ends
pub mod Chain
pub mod Members
use voya_vpn.Base.{
  ℕ, zero, suc, ◌-◌, ◌+◌, Bool, true, false, not, ◌&&◌, ◌||◌, List, [], ◌∷◌, ◌++◌, Option, none,
  some, ◌==◌, ltb, if◌then◌else◌, length, map, Text, codes, text_eq, is_empty, show_number,
}
use mathlib.Core.List.{reverse}
use voya_vpn.Entities.{
  ConfigType, is_group_type, policy_group, proxy_chain, ProfileItem, config_type,
}
use voya_vpn.Groups.Profile.{ProfileMap}
use voya_vpn.Context.Domains.{starts_with}
use voya_vpn.Context.Env.{filter}
use voya_vpn.Singbox.Server.{
  SingboxServer, set_tag, set_detour, buildable_child_nodes, build_proxy_server, leaf_server,
  ordered_proxy_tags, build_selector_servers,
}

abbrev pub to_list {ℓ} : {A : Type ℓ} → Option A → List A
to_list none = []
to_list (some a) = a ∷ []

abbrev pub Building : Type 0
Building = Option (List SingboxServer)

-- The outbounds of a child: of a group by `next`, which builds groups.
unfoldable pub child_servers : (ProfileItem → Text → Building) → ProfileItem → Text → Building
child_servers next child tag =
    if is_group_type (config_type child.protocol)
    then next child tag
    else some (to_list (build_proxy_server child tag))

-- `{base}-{number}-{remarks}`.
unfoldable pub member_tag : Text → ℕ → Text → Text
member_tag base number remarks = base ++ (b'-' ∷ (show_number number ++ (b'-' ∷ remarks)))

abbrev pub append_built : List SingboxServer → Building → Building
append_built servers none = none
append_built servers (some later) = some (servers ++ later)

unfoldable pub list_outbounds :
    (ProfileItem → Text → Building) → Text → Bool → ℕ → List ProfileItem → Building
list_outbounds next base only index [] = some []
list_outbounds next base only index (child ∷ nodes) =
    let tag = if only then base else member_tag base (suc index) child.remarks in
    elim (child_servers next child tag) [
      | none ↦ none
      | some servers ↦ append_built servers (list_outbounds next base only (suc index) nodes)
    ]

unfoldable pub build_outbounds_list :
    (ProfileItem → Text → Building) → ProfileMap → ProfileItem → Text → Building
build_outbounds_list next m node base_tag_name =
    let nodes = buildable_child_nodes m node in
    list_outbounds next base_tag_name (length nodes == 1) 0 nodes

-- `chain-{base}-{index}-{remarks}`, but the base itself for the first one.
unfoldable pub chain_tag : Text → ℕ → Text → Text
chain_tag base zero remarks = base
chain_tag base (suc index) remarks = codes "chain-" ++ member_tag base (suc index) remarks

-- The tag of the node behind, if there is one.
unfoldable pub detour_tag : Text → ℕ → List ProfileItem → Option Text
detour_tag base index [] = none
detour_tag base index (child ∷ rest) = some (chain_tag base (suc index) child.remarks)

abbrev pub is_detour : Text → Option Text → Bool
is_detour tag none = false
is_detour tag (some detour) = text_eq detour tag

abbrev pub no_detour : Option Text → Bool
no_detour none = true
no_detour (some detour) = is_empty detour

unfoldable pub detour_open : Text → SingboxServer → SingboxServer
detour_open tag server = if no_detour server.detour then set_detour tag server else server

unfoldable pub redirect : Text → Text → SingboxServer → SingboxServer
redirect from to server = if is_detour from server.detour then set_detour to server else server

abbrev clone_name : ℕ → SingboxServer → SingboxServer
clone_name branch server = set_tag (server.tag ++ (codes "-clone-" ++ show_number branch)) server

abbrev next_tag : Text → List SingboxServer → Text
next_tag last [] = last
next_tag last (server ∷ servers) = server.tag

-- The clones of one branch: each leads to the branch's start or to the clone behind it.
unfoldable pub link_clones : Text → Text → List SingboxServer → List SingboxServer
link_clones current start [] = []
link_clones current start (clone ∷ clones) =
    set_detour (if is_detour current clone.detour then start else next_tag start clones) clone
    ∷ link_clones current start clones

unfoldable pub branch_clones :
    Text → List SingboxServer → ℕ → List SingboxServer → List SingboxServer
branch_clones current existed branch [] = []
branch_clones current existed branch (start ∷ starts) =
    link_clones current start.tag (map (clone_name (suc branch)) existed)
    ++ branch_clones current existed (suc branch) starts

-- What stands in front is led to where the group begins: to its only start, or in a clone to each.
unfoldable pub lead_to : Text → List SingboxServer → List SingboxServer → List SingboxServer
lead_to current [] result = result
lead_to current (start ∷ []) result = map (redirect current start.tag) result
lead_to current (start ∷ other ∷ starts) result =
    branch_clones current result 0 (start ∷ other ∷ starts)

abbrev open_all : Option Text → List SingboxServer → List SingboxServer
open_all none servers = servers
open_all (some tag) servers = map (detour_open tag) servers

unfoldable pub extend_group :
    Text → ℕ → Option Text → List SingboxServer → List SingboxServer → List SingboxServer
extend_group current index detour child_profiles result =
    let opened = open_all detour child_profiles in
    (if index == 0
      then result
      else lead_to current (filter (λ server. starts_with current server.tag) opened) result)
    ++ opened

abbrev pub detour_if : Option Text → SingboxServer → SingboxServer
detour_if none server = server
detour_if (some tag) server = set_detour tag server

-- One node of a chain, behind what there is.
unfoldable pub chain_step :
    (ProfileItem → Text → Building)
    → Text
    → ℕ
    → ProfileItem
    → List ProfileItem
    → List SingboxServer
    → Building
chain_step next base index child rest result =
    let current = chain_tag base index child.remarks in
    let detour = detour_tag base index rest in
    if is_group_type (config_type child.protocol)
    then elim (next child current) [
      | none ↦ none
      | some servers ↦ some (extend_group current index detour servers result)
    ]
    else some (result ++ map (detour_if detour) (to_list (build_proxy_server child current)))

unfoldable pub chain_outbounds :
    (ProfileItem → Text → Building) → Text → ℕ → List ProfileItem → List SingboxServer → Building
chain_outbounds next base index [] result = some result
chain_outbounds next base index (child ∷ rest) result =
    elim (chain_step next base index child rest result) [
      | none ↦ none
      | some result' ↦ chain_outbounds next base (suc index) rest result'
    ]

-- The last node of the chain comes first.
unfoldable pub build_chain_outbounds_list :
    (ProfileItem → Text → Building) → ProfileMap → ProfileItem → Text → Building
build_chain_outbounds_list next m node base_tag_name =
    chain_outbounds next base_tag_name 0 (reverse (buildable_child_nodes m node)) []

-- One unit of fuel for each group that the code is in. `none`: out of fuel.
unfoldable pub build_group_proxy_servers : ℕ → ProfileMap → ProfileItem → Text → Building
build_group_proxy_servers zero m node base_tag_name = none
build_group_proxy_servers (suc fuel) m node base_tag_name =
    let next = build_group_proxy_servers fuel m in
    elim (config_type node.protocol) [
      | policy_group ↦ build_outbounds_list next m node base_tag_name
      | proxy_chain ↦ build_chain_outbounds_list next m node base_tag_name
      | _ ↦ some []
    ]

abbrev pub with_selectors : Text → Building → Building
with_selectors base none = none
with_selectors base (some servers) =
    let proxy_tags = ordered_proxy_tags servers base in
    some (
      if ltb 1 (length proxy_tags)
      then build_selector_servers proxy_tags base ++ servers
      else servers)

unfoldable pub build_all_proxy_servers : ℕ → ProfileMap → ProfileItem → Text → Bool → Building
build_all_proxy_servers fuel m node base_tag_name with_selector =
    let servers =
      if is_group_type (config_type node.protocol)
      then build_group_proxy_servers fuel m node base_tag_name
      else some (to_list (build_proxy_server node base_tag_name)) in
    if with_selector then with_selectors base_tag_name servers else servers
