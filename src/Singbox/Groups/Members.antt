-- ===== src/Singbox/Groups/Members.antt =====
-- The outbounds of the members of a group are built where those of each member are.
use voya_vpn.Base.{
  ℕ, suc, ◌≡◌, refl, Bool, true, List, [], ◌∷◌, Option, none, some, if◌then◌else◌, Text, text_eq,
  text_eq_refl, Bool-cases, inl, inr, Returns, Each,
}
use voya_vpn.Entities.{is_group_type, ProfileItem, config_type}
use voya_vpn.Groups.Profile.{ProfileMap, get, contains}
use voya_vpn.Context.Maps.{or_true}
use voya_vpn.Singbox.Server.{SingboxServer, child_nodes}
use voya_vpn.Singbox.Groups.{
  Building, child_servers, member_tag, append_built, list_outbounds, chain_tag, detour_tag,
  extend_group, chain_step, chain_outbounds,
}

pub child_nodes-Each :
    (m : ProfileMap) (Q : ProfileItem → Type 0) (seen ids : List Text)
    → ((c : Text) (q : ProfileItem) → contains c ids ≡ true → get c m ≡ some q → Q q)
    → Each Q (child_nodes m seen ids)
unfolding child_nodes contains
child_nodes-Each m Q seen [] h = tt
child_nodes-Each m Q seen (id ∷ ids) h =
    with_rest
      (child_nodes-Each m Q (id ∷ seen) ids λ c q among. h c q (rw among (or_true (text_eq c id))))
  where
    by_child :
        Each Q (child_nodes m (id ∷ seen) ids)
        → (o : Option ProfileItem) → get id m ≡ o
        → Each Q (elim o as (λ _. List ProfileItem) [
          | none ↦ child_nodes m (id ∷ seen) ids
          | some child ↦ child ∷ child_nodes m (id ∷ seen) ids
        ])
    by_child later none e = later
    by_child later (some child) e = (h id child (rw (text_eq_refl id) refl) e, later)

    with_rest : Each Q (child_nodes m (id ∷ seen) ids) → Each Q (child_nodes m seen (id ∷ ids))
    with_rest later = elim (Bool-cases (contains id seen)) [
      | inl known ↦ rw known later
      | inr new ↦ rw new (by_child later (get id m) refl)
    ]

-- Whatever the tag, the outbounds of the group are built.
abbrev pub IsBuilt : (ProfileItem → Text → Building) → ProfileItem → Type 0
IsBuilt next q = (tag : Text) → Returns (next q tag)

child_servers-Returns :
    (next : ProfileItem → Text → Building) (child : ProfileItem) (tag : Text)
    → IsBuilt next child
    → Returns (child_servers next child tag)
unfolding child_servers
child_servers-Returns next child tag h =
    elim (Bool-cases (is_group_type (config_type child.protocol))) [
      | inl group ↦ rw group (h tag)
      | inr other ↦ rw other tt
    ]

append_built-Returns :
    (servers : List SingboxServer) (o : Building) → Returns o → Returns (append_built servers o)
append_built-Returns servers none h = h
append_built-Returns servers (some later) h = tt

pub list_outbounds-Returns :
    (next : ProfileItem → Text → Building) (base : Text) (only : Bool) (index : ℕ)
    (nodes : List ProfileItem)
    → Each (IsBuilt next) nodes
    → Returns (list_outbounds next base only index nodes)
unfolding list_outbounds
list_outbounds-Returns next base only index [] each = tt
list_outbounds-Returns next base only index (child ∷ nodes) (h, each) =
    by_servers (child_servers next child tag_of) (child_servers-Returns next child tag_of h)
      (list_outbounds-Returns next base only (suc index) nodes each)
  where
    tag_of : Text
    tag_of = if only then base else member_tag base (suc index) child.remarks

    by_servers :
        (o : Building)
        → Returns o
        → Returns (list_outbounds next base only (suc index) nodes)
        → Returns (elim o [
          | none ↦ none
          | some servers ↦ append_built servers (list_outbounds next base only (suc index) nodes)
        ])
    by_servers none h later = absurd h
    by_servers (some servers) h later = append_built-Returns servers _ later

pub chain_outbounds-Returns :
    (next : ProfileItem → Text → Building) (base : Text) (index : ℕ) (nodes : List ProfileItem)
    (result : List SingboxServer)
    → Each (IsBuilt next) nodes
    → Returns (chain_outbounds next base index nodes result)
unfolding chain_outbounds chain_step
chain_outbounds-Returns next base index [] result each = tt
chain_outbounds-Returns next base index (child ∷ rest) result (h, each) =
    by_step (chain_step next base index child rest result) stepped
      λ result'. chain_outbounds-Returns next base (suc index) rest result' each
  where
    by_group :
        (o : Building)
        → Returns o
        → Returns (elim o [
          | none ↦ none
          | some servers ↦ some (
              extend_group
                (chain_tag base index child.remarks)
                index
                (detour_tag base index rest)
                servers
                result)
        ])
    by_group none r = r
    by_group (some servers) r = tt

    stepped : Returns (chain_step next base index child rest result)
    stepped = elim (Bool-cases (is_group_type (config_type child.protocol))) [
      | inl group ↦ rw group (
          by_group (next child (chain_tag base index child.remarks))
            (h (chain_tag base index child.remarks)))
      | inr other ↦ rw other tt
    ]

    by_step :
        (o : Building)
        → Returns o
        → ((result' : List SingboxServer)
            → Returns (chain_outbounds next base (suc index) rest result'))
        → Returns (elim o [
          | none ↦ none
          | some result' ↦ chain_outbounds next base (suc index) rest result'
        ])
    by_step none r later = absurd r
    by_step (some result') r later = later result'
