-- ===== src/Singbox/Groups/Chain.antt =====
-- The outbounds of a chain of servers lead from one to the next.
use voya_vpn.Base.{
  append_nil, append_assoc, ℕ, suc, ◌≡◌, refl, sym, ◌∙◌, ap, Bool, true, false, not, ◌&&◌, ◌||◌,
  List, [], ◌∷◌, ◌++◌, Option, none, some, if◌then◌else◌, map, Text, Bool-cases, inl, inr, Each,
  reverse-Each,
}
use mathlib.Core.List.{reverse}
use voya_vpn.Entities.{is_group_type, ProfileItem, config_type, child_profile_ids}
use voya_vpn.Groups.Profile.{ProfileMap}
use voya_vpn.Context.Env.{filter}
use voya_vpn.Context.Validation.{singbox_supports_config_type}
use voya_vpn.Singbox.Server.{
  ServerKind, proxy_of, SingboxServer, wireguard_public_key, is_wire_guard, has_value,
  singbox_can_build_leaf, child_nodes, is_buildable, buildable_child_nodes, build_proxy_server,
  leaf_server,
}
use voya_vpn.Singbox.Groups.{
  Building, chain_tag, detour_tag, detour_if, chain_step, chain_outbounds,
  build_chain_outbounds_list,
}

-- A server that sing-box can build, and no group.
record IsLeaf (q : ProfileItem) : Type 0 where
  no_group : is_group_type (config_type q.protocol) ≡ false
  can_build : singbox_can_build_leaf q ≡ true

abbrev pub IsServer : ProfileItem → Type 0
IsServer q = is_group_type (config_type q.protocol) ≡ false

-- Each outbound goes through the next one, and the last one goes out directly.
abbrev pub IsLinked : List SingboxServer → Type 0
IsLinked [] = Unit
IsLinked (server ∷ []) = server.detour ≡ none
IsLinked (server ∷ next ∷ servers) = (server.detour ≡ some next.tag) × IsLinked (next ∷ servers)

abbrev pub BeginsAt : Text → List SingboxServer → Type 0
BeginsAt base [] = Unit
BeginsAt base (server ∷ servers) = server.tag ≡ base

abbrev pub kinds : List SingboxServer → List ServerKind
kinds [] = []
kinds (server ∷ servers) = server.kind ∷ kinds servers

abbrev pub proxies_of : List ProfileItem → List ServerKind
proxies_of [] = []
proxies_of (node ∷ nodes) = proxy_of node ∷ proxies_of nodes

-- The outbounds for servers in the order of the chain.
linked : Text → ℕ → List ProfileItem → List SingboxServer
linked base index [] = []
linked base index (node ∷ rest) =
    record {
      kind = proxy_of node;
      tag = chain_tag base index node.remarks;
      detour = detour_tag base index rest;
    }
    ∷ linked base (suc index) rest

linked-IsLinked :
    (base : Text) (index : ℕ) (nodes : List ProfileItem) → IsLinked (linked base index nodes)
unfolding linked detour_tag
linked-IsLinked base index [] = tt
linked-IsLinked base index (node ∷ []) = refl
linked-IsLinked base index (node ∷ next ∷ rest) =
    (refl, linked-IsLinked base (suc index) (next ∷ rest))

linked-BeginsAt : (base : Text) (nodes : List ProfileItem) → BeginsAt base (linked base 0 nodes)
unfolding linked chain_tag
linked-BeginsAt base [] = tt
linked-BeginsAt base (node ∷ rest) = refl

kinds-linked :
    (base : Text) (index : ℕ) (nodes : List ProfileItem)
    → kinds (linked base index nodes) ≡ proxies_of nodes
unfolding linked
kinds-linked base index [] = refl
kinds-linked base index (node ∷ rest) =
    ap (◌∷◌ (proxy_of node)) (kinds-linked base (suc index) rest)

build_proxy_server-leaf :
    (q : ProfileItem) (tag : Text)
    → singbox_can_build_leaf q ≡ true
    → build_proxy_server q tag ≡ some (leaf_server q tag)
unfolding build_proxy_server singbox_can_build_leaf
build_proxy_server-leaf q tag h =
    by_cases (is_wire_guard (config_type q.protocol)) (has_value (wireguard_public_key q.protocol))
      (singbox_supports_config_type (config_type q.protocol)) h
  where
    by_cases :
        (w v s : Bool)
        → (s && (not w || v)) ≡ true
        → (if w then if v then some (leaf_server q tag) else none else some (leaf_server q tag))
          ≡ some (leaf_server q tag)
    by_cases false v s e = refl
    by_cases true true s e = refl
    by_cases true false true e = absurd (cc)
    by_cases true false false e = absurd (cc)

chain_step-leaf :
    (next : ProfileItem → Text → Building) (base : Text) (index : ℕ) (q : ProfileItem)
    (rest : List ProfileItem) (result : List SingboxServer)
    → IsLeaf q
    → chain_step next base index q rest result
      ≡ some (
          result
          ++ (record {
            kind = proxy_of q;
            tag = chain_tag base index q.remarks;
            detour = detour_tag base index rest;
          }
              ∷ []))
unfolding chain_step
chain_step-leaf next base index q rest result leaf =
    rw (leaf.no_group, build_proxy_server-leaf q (chain_tag base index q.remarks) leaf.can_build)
      (by_detour (detour_tag base index rest))
  where
    by_detour :
        (o : Option Text)
        → some (result ++ map (detour_if o) (leaf_server q (chain_tag base index q.remarks) ∷ []))
          ≡ some (
              result
              ++ (record { kind = proxy_of q; tag = chain_tag base index q.remarks; detour = o }
                  ∷ []))
    by_detour none = refl
    by_detour (some tag) = refl

chain_outbounds-linked :
    (next : ProfileItem → Text → Building) (base : Text) (index : ℕ) (nodes : List ProfileItem)
    (result : List SingboxServer)
    → Each IsLeaf nodes
    → chain_outbounds next base index nodes result ≡ some (result ++ linked base index nodes)
unfolding chain_outbounds linked
chain_outbounds-linked next base index [] result each = ap some (sym (append_nil result))
chain_outbounds-linked next base index (q ∷ rest) result (leaf, each) =
    rw (chain_step-leaf next base index q rest result leaf, chain_outbounds)
      (chain_outbounds-linked next base (suc index) rest _ each
        ∙ ap some (append_assoc result _ (linked base (suc index) rest)))

leaves :
    (nodes : List ProfileItem)
    → Each IsServer (filter is_buildable nodes)
    → Each IsLeaf (filter is_buildable nodes)
unfolding filter is_buildable
leaves [] each = tt
leaves (q ∷ nodes) each = elim (Bool-cases (is_buildable q)) [
  | inl kept ↦
      let (server, others) = rw kept at each in
      rw kept (record { no_group = server; can_build = rw server at kept }, leaves nodes others)
  | inr dropped ↦ rw dropped (leaves nodes (rw dropped at each))
]

-- What the outbounds of a chain are.
pub record IsChain (base : Text) (nodes : List ProfileItem) (servers : List SingboxServer)
    : Type 0 where
  pub in_order : kinds servers ≡ proxies_of (reverse nodes)
  pub is_linked : IsLinked servers
  pub begins : BeginsAt base servers

-- A chain of servers without groups gets one outbound for each server that can be built, the last
-- of them first and with the tag of the chain, each of them going through the one before it in the chain, and the first server of
-- the chain going out directly.
pub build_chain_outbounds_list-IsChain :
    (next : ProfileItem → Text → Building) (m : ProfileMap) (node : ProfileItem) (base : Text)
    → Each IsServer (buildable_child_nodes m node)
    → (servers : List SingboxServer) × ((build_chain_outbounds_list next m node base ≡ some servers)
        × IsChain base (buildable_child_nodes m node) servers)
unfolding build_chain_outbounds_list buildable_child_nodes
build_chain_outbounds_list-IsChain next m node base each =
    let nodes = reverse (buildable_child_nodes m node) in
    (
      linked base 0 nodes,
      (
        chain_outbounds-linked next base 0 nodes [] (
            reverse-Each IsLeaf (buildable_child_nodes m node)
              (leaves (child_nodes m [] (child_profile_ids node.protocol)) each)),
        record {
          in_order = kinds-linked base 0 nodes;
          is_linked = linked-IsLinked base 0 nodes;
          begins = linked-BeginsAt base nodes;
        },
      ),
    )
