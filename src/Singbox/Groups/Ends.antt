-- ===== src/Singbox/Groups/Ends.antt =====
-- The outbounds of groups are built to the end, in a context without dangling or circular groups.
use voya_vpn.Base.{
  ℕ, zero, suc, ◌≡◌, ◌≤◌, ◌+◌, refl, sym, ◌∙◌, Bool, true, false, List, [], ◌∷◌, Option, none, some,
  if◌then◌else◌, Text, text_eq, text_eq_refl, eq_of_text_eq, subst, arith, Bool-cases, inl, inr,
  Returns, Each, reverse-Each,
}
use mathlib.Core.List.{reverse}
use voya_vpn.Entities.{
  is_group_type, ProfileItem, config_type, ConfigType, policy_group, proxy_chain,
}
use voya_vpn.Entities.Routing.{AppConfig}
use voya_vpn.Groups.Profile.{ProfileMap, get, contains}
use voya_vpn.Context.Env.{SnapshotCoreGenEnv}
use voya_vpn.Context.Env.Laws.{filter-Each}
use voya_vpn.Context.Library.{Library}
use voya_vpn.Context.Maps.{or_true}
use voya_vpn.Context.Traverse.Closed.{some_inj}
use voya_vpn.Context.Traverse.Grounded.{children_of, IsGrounded, grounded}
use voya_vpn.Context.Build.{BuilderResult, build}
use voya_vpn.Context.Build.Sound.{IsSound, IsPlain}
use voya_vpn.Context.Build.Outbounds.{build-IsSound}
use voya_vpn.Singbox.Server.{child_nodes, is_buildable, buildable_child_nodes, build_proxy_server}
use voya_vpn.Singbox.Groups.{
  Building, to_list, build_outbounds_list, build_chain_outbounds_list, build_group_proxy_servers,
  with_selectors, build_all_proxy_servers,
}
use voya_vpn.Singbox.Groups.Members.{
  IsBuilt, child_nodes-Each, list_outbounds-Returns, chain_outbounds-Returns,
}

module _ (m : ProfileMap) where
  group-Returns :
      (fuel : ℕ) (p : ProfileItem) (tag : Text)
      → ((c : Text) (q : ProfileItem)
          → contains c (children_of p) ≡ true
          → get c m ≡ some q
          → IsBuilt (build_group_proxy_servers fuel m) q)
      → Returns (build_group_proxy_servers (suc fuel) m p tag)
  unfolding build_group_proxy_servers build_outbounds_list build_chain_outbounds_list
      buildable_child_nodes
  group-Returns fuel p tag h = by_type (config_type p.protocol)
    where
      next : ProfileItem → Text → Building
      next = build_group_proxy_servers fuel m

      each : Each (IsBuilt next) (buildable_child_nodes m p)
      each =
          filter-Each (IsBuilt next) is_buildable (child_nodes m [] (children_of p))
            (child_nodes-Each m (IsBuilt next) [] (children_of p) h)

      by_type :
          (type : ConfigType)
          → Returns (elim type as (λ _. Building) [
            | policy_group ↦ build_outbounds_list next m p tag
            | proxy_chain ↦ build_chain_outbounds_list next m p tag
            | _ ↦ some []
          ])
      by_type policy_group = list_outbounds-Returns next tag _ 0 (buildable_child_nodes m p) each
      by_type proxy_chain =
          chain_outbounds-Returns next tag 0 (reverse (buildable_child_nodes m p)) []
            (reverse-Each (IsBuilt next) (buildable_child_nodes m p) each)
      by_type _ = tt

  -- With this much fuel or more, the group under the id is built.
  abbrev EndsFrom : ℕ → Text → Type 0
  EndsFrom n id =
      (k : ℕ) (p : ProfileItem)
      → n ≤ k
      → get id m ≡ some p
      → IsBuilt (build_group_proxy_servers k m) p

  abbrev Ends : Text → Type 0
  Ends id = (n : ℕ) × EndsFrom n id

  -- Enough fuel for all ids of a list.
  all_end :
      (ids : List Text)
      → ((c : Text) → contains c ids ≡ true → Ends c)
      → (n : ℕ) × ((c : Text) → contains c ids ≡ true → EndsFrom n c)
  unfolding contains
  all_end [] h = (0, λ c among. absurd (cc))
  all_end (id ∷ ids) h =
      let (n, first) = h id (rw (text_eq_refl id) refl) in
      let (n', others) = all_end ids (λ c among. h c (rw among (or_true (text_eq c id)))) in
      (
        n + n',
        λ c among k p enough. elim (Bool-cases (text_eq c id)) [
          | inl same ↦ λ e.
              first k p (omega (arith, enough))
                (subst (λ x. get x m ≡ some p) (eq_of_text_eq c id same) e)
          | inr other ↦ others c (rw other at among) k p (omega (arith, enough))
        ],
      )

  -- Fuel that is enough for a profile with these children.
  parent-Ends :
      (p : ProfileItem)
      → ((c : Text) → contains c (children_of p) ≡ true → Ends c)
      → (n : ℕ) × ((k : ℕ) → n ≤ k → IsBuilt (build_group_proxy_servers k m) p)
  parent-Ends p h =
      let (n, below) = all_end (children_of p) h in
      (suc n, λ k enough tag. by_fuel n below k enough tag)
    where
      by_fuel :
          (n : ℕ)
          → ((c : Text) → contains c (children_of p) ≡ true → EndsFrom n c)
          → (k : ℕ) → suc n ≤ k
          → IsBuilt (build_group_proxy_servers k m) p
      by_fuel n below zero enough tag = absurd (omega (arith, enough))
      by_fuel n below (suc k) enough tag =
          group-Returns k p tag λ c q among e. below c among k q (omega (arith, enough)) e

  grounded-Ends : (id : Text) → IsGrounded m id → Ends id
  grounded-Ends id (grounded below) =
      by_profile (get id m) refl λ p c e among. grounded-Ends c (below p c e among)
    where
      none_some : {p : ProfileItem} → none ≡ some p → ⊥
      none_some h = absurd (cc)

      by_profile :
          (o : Option ProfileItem)
          → get id m ≡ o
          → ((p : ProfileItem) (c : Text)
              → get id m ≡ some p
              → contains c (children_of p) ≡ true
              → Ends c)
          → Ends id
      by_profile none e inner = (0, λ k p enough e'. absurd (none_some (sym e ∙ e')))
      by_profile (some p) e inner =
          let (n, built) = parent-Ends p (λ c among. inner p c e among) in
          (
            n,
            λ k q enough e'.
                subst (IsBuilt (build_group_proxy_servers k m)) (some_inj (sym e ∙ e'))
                  (built k enough),
          )

-- There is fuel with which, or with more, the outbounds of a profile are built, whatever the tag
-- and whether there are selectors.
abbrev pub IsGenerated : ProfileMap → ProfileItem → Type 0
IsGenerated m node =
    (n : ℕ) × ((k : ℕ) (tag : Text) (with_selector : Bool)
      → n ≤ k
      → Returns (build_all_proxy_servers k m node tag with_selector))

with_selectors-Returns :
    (tag : Text) (with_selector : Bool) (o : Building)
    → Returns o
    → Returns (if with_selector then with_selectors tag o else o)
with_selectors-Returns tag true none h = h
with_selectors-Returns tag true (some servers) h = tt
with_selectors-Returns tag false o h = h

sound-IsGenerated : (m : ProfileMap) (node : ProfileItem) → IsSound m → IsGenerated m node
unfolding build_all_proxy_servers
sound-IsGenerated m node s =
    let (n, built) = parent-Ends m node λ c among. grounded-Ends m c (s.all_grounded c) in
    (
      n,
      λ k tag with_selector enough. elim (Bool-cases (is_group_type (config_type node.protocol))) [
        | inl group ↦ rw group (
            with_selectors-Returns tag with_selector (build_group_proxy_servers k m node tag)
              (built k enough tag))
        | inr other ↦ rw other (
            with_selectors-Returns tag with_selector (some (to_list (build_proxy_server node tag)))
              tt)
      ],
    )

-- The recursion over the groups of a context that has been built comes to an end, where no profile
-- of the snapshot has an id, or a child's id, that is a key of a rule: for every profile there is
-- fuel from which on its outbounds are built, however the groups of the snapshot refer to each
-- other.
pub build-IsGenerated :
    (lib : Library) (env : SnapshotCoreGenEnv) (config : AppConfig) (active node : ProfileItem)
    (built : BuilderResult)
    → Each IsPlain env.profiles
    → build lib env config active ≡ some built
    → IsGenerated built.context.all_proxies_map node
build-IsGenerated lib env config active node built plain e =
    sound-IsGenerated built.context.all_proxies_map node
      (build-IsSound lib env config active built plain e)
