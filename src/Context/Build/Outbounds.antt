-- ===== src/Context/Build/Outbounds.antt =====
-- The map of a context after the outbounds of the rules have been added.
use voya_vpn.Base.{
  ◌≡◌, subst, Option, none, some, Text, is_empty, trim, Bool-cases, inl, inr, Gives, Each, Each-map,
  for_each-Gives, Each-trivial,
}
use voya_vpn.Entities.{ProfileItem}
use voya_vpn.Entities.Routing.{RulesItem, AppConfig}
use voya_vpn.Context.Library.{Library}
use voya_vpn.Context.Messages.{NodeValidatorResult, success}
use voya_vpn.Context.Env.{SnapshotCoreGenEnv, get_profile_by_remarks}
use voya_vpn.Context.Env.Laws.{get_profile_by_remarks-Gives}
use voya_vpn.Context.Register.{CoreConfigContext}
use voya_vpn.Context.Traverse.{register_node}
use voya_vpn.Context.Traverse.Invariant.{HasPlainId}
use voya_vpn.Context.Build.{
  BuilderResult, resolve_node, nonempty_of, text_of, after_rule, resolve_found, resolve_tag,
  resolve_rule_outbound, enabled_rules, resolve_rule_outbounds, initial_context, build, remark_key,
}
use voya_vpn.Context.Build.Laws.{bind-Gives}
use voya_vpn.Context.Build.Sound.{
  IsSound, IsPlain, empty-IsSound, remark-IsSound, remark_key-is_remark, RegistersSoundly,
  register_node-IsSound,
}

abbrev IsSoundResult : BuilderResult → Type 0
IsSoundResult built = IsSound built.context.all_proxies_map

abbrev IsSoundPair : CoreConfigContext × NodeValidatorResult → Type 0
IsSoundPair (context, result) = IsSound context.all_proxies_map

forget_success :
    (node : ProfileItem) (o : Option (CoreConfigContext × NodeValidatorResult))
    → Gives (RegistersSoundly node) o
    → Gives IsSoundPair o
forget_success node none h = tt
forget_success node (some (context, result)) (s, key) = s

module _ (lib : Library) (env : SnapshotCoreGenEnv) (plain : Each IsPlain env.profiles) where
  resolve_node-IsSound :
      (node : ProfileItem) (context : CoreConfigContext)
      → IsSound context.all_proxies_map
      → Gives IsSoundPair (resolve_node lib env node context)
  unfolding resolve_node
  resolve_node-IsSound node context s = elim (Bool-cases (is_empty (trim node.index_id))) [
    | inl blank ↦ rw blank s
    | inr named ↦ rw named (
        forget_success node (register_node lib env node context) (
          register_node-IsSound lib env node context
            (Each-map IsPlain HasPlainId env.profiles (λ p h. h.plain_id) plain) s))
  ]

  after_rule-IsSound :
      (rule_name tag : Text) (node : ProfileItem) (built : BuilderResult)
      (resolved : CoreConfigContext × NodeValidatorResult)
      → IsPlain node
      → IsSoundPair resolved
      → IsSoundResult (after_rule rule_name tag node resolved built)
  unfolding after_rule
  after_rule-IsSound rule_name tag node built (context, result) p s =
      elim (Bool-cases (success result)) [
        | inl ok ↦ rw ok (
            remark-IsSound (remark_key tag) node context.all_proxies_map (remark_key-is_remark tag)
              p s)
        | inr failed ↦ rw failed s
      ]

  resolve_rule-IsSound :
      (rule : RulesItem) (built : BuilderResult)
      → IsSoundResult built
      → Gives IsSoundResult (resolve_rule_outbound lib env rule built)
  unfolding resolve_rule_outbound resolve_tag resolve_found
  resolve_rule-IsSound rule built s = by_tag (nonempty_of rule.outbound_tag)
    where
      by_profile :
          (rule_name tag : Text) (o : Option ProfileItem)
          → Gives IsPlain o
          → Gives IsSoundResult (resolve_found lib env rule_name tag built o)
      by_profile rule_name tag none p = s
      by_profile rule_name tag (some node) p =
          bind-Gives IsSoundPair IsSoundResult _ _ (resolve_node-IsSound node built.context s)
            λ resolved s'. after_rule-IsSound rule_name tag node built resolved p s'

      by_tag :
          (o : Option Text)
          → Gives IsSoundResult (resolve_tag lib env (text_of rule.remarks) built o)
      by_tag none = s
      by_tag (some tag) =
          by_profile (text_of rule.remarks) tag (get_profile_by_remarks env tag)
            (get_profile_by_remarks-Gives env IsPlain tag plain)

  build-Gives :
      (config : AppConfig) (node : ProfileItem) → Gives IsSoundResult (build lib env config node)
  unfolding build resolve_rule_outbounds initial_context
  build-Gives config node =
      bind-Gives IsSoundPair IsSoundResult _ _
        (resolve_node-IsSound node (initial_context env config node) empty-IsSound)
        λ (context, result) s. elim (Bool-cases (success result)) [
          | inl ok ↦ rw ok (
              for_each-Gives (λ x. Unit) IsSoundResult (resolve_rule_outbound lib env)
                (enabled_rules context.routing_item) _
                (λ rule b u s'. resolve_rule-IsSound rule b s')
                (Each-trivial (enabled_rules context.routing_item)) s)
          | inr failed ↦ rw failed s
        ]

-- Where no profile of the snapshot has an id, or a child's id, that is a key of a rule, the map of
-- the context that is built for a profile is sound, with the outbounds of the rules in it: the
-- children of the profiles that stand under their own ids are in the map, and descending from any
-- profile of it through children ends.
pub build-IsSound :
    (lib : Library) (env : SnapshotCoreGenEnv) (config : AppConfig) (node : ProfileItem)
    (built : BuilderResult)
    → Each IsPlain env.profiles
    → build lib env config node ≡ some built
    → IsSound built.context.all_proxies_map
build-IsSound lib env config node built plain e =
    subst (Gives IsSoundResult) e (build-Gives lib env plain config node)
