-- ===== src/Context/Build/Keeps.antt =====
-- What the construction of a context keeps.
use voya_vpn.Base.{
  Option, none, some, Text, is_empty, trim, Bool-cases, inl, inr, Gives, for_each-Gives,
  Each-trivial,
}
use voya_vpn.Entities.{ProfileItem}
use voya_vpn.Entities.Routing.{RulesItem, AppConfig}
use voya_vpn.Context.Library.{Library}
use voya_vpn.Context.Messages.{NodeValidatorResult, success}
use voya_vpn.Context.Env.{SnapshotCoreGenEnv, get_profile_by_remarks}
use voya_vpn.Context.Register.{CoreConfigContext}
use voya_vpn.Context.Traverse.Keeps.{IsKept, KeptPair, register_node-Kept}
use voya_vpn.Context.Build.{
  BuilderResult, resolve_node, nonempty_of, text_of, after_rule, resolve_found, resolve_tag,
  resolve_rule_outbound, enabled_rules, resolve_rule_outbounds, initial_context, build, remark_key,
}
use voya_vpn.Context.Build.Laws.{bind-Gives}

module _ (lib : Library) (env : SnapshotCoreGenEnv) (P : CoreConfigContext → Type 0)
    (kept : IsKept lib P) where
  abbrev pub KeptResult : BuilderResult → Type 0
  KeptResult built = P built.context

  abbrev Pair : CoreConfigContext × NodeValidatorResult → Type 0
  Pair = KeptPair lib env P kept

  resolve_node-Kept :
      (node : ProfileItem) (context : CoreConfigContext)
      → P context
      → Gives Pair (resolve_node lib env node context)
  unfolding resolve_node
  resolve_node-Kept node context h = elim (Bool-cases (is_empty (trim node.index_id))) [
    | inl blank ↦ rw blank h
    | inr named ↦ rw named (register_node-Kept lib env P kept node context h)
  ]

  resolve_rule-Kept :
      (rule : RulesItem) (built : BuilderResult)
      → P built.context
      → Gives KeptResult (resolve_rule_outbound lib env rule built)
  unfolding resolve_rule_outbound resolve_tag resolve_found after_rule
  resolve_rule-Kept rule built h = by_tag (nonempty_of rule.outbound_tag)
    where
      finished :
          (rule_name tag : Text) (node : ProfileItem)
          (resolved : CoreConfigContext × NodeValidatorResult)
          → Pair resolved
          → KeptResult (after_rule rule_name tag node resolved built)
      finished rule_name tag node (context, result) k = elim (Bool-cases (success result)) [
        | inl ok ↦ rw ok (kept.keeps_put (remark_key tag) node context k)
        | inr failed ↦ rw failed k
      ]

      by_profile :
          (rule_name tag : Text) (o : Option ProfileItem)
          → Gives KeptResult (resolve_found lib env rule_name tag built o)
      by_profile rule_name tag none = h
      by_profile rule_name tag (some node) =
          bind-Gives Pair KeptResult _ _ (resolve_node-Kept node built.context h)
            λ resolved k. finished rule_name tag node resolved k

      by_tag :
          (o : Option Text) → Gives KeptResult (resolve_tag lib env (text_of rule.remarks) built o)
      by_tag none = h
      by_tag (some tag) = by_profile (text_of rule.remarks) tag (get_profile_by_remarks env tag)

  -- A property that does not depend on the node is kept from the initial context on.
  pub build-Kept :
      (config : AppConfig) (node : ProfileItem)
      → ((context : CoreConfigContext) → P context → P (record context { node = node }))
      → P (initial_context env config node)
      → Gives KeptResult (build lib env config node)
  unfolding build resolve_rule_outbounds
  build-Kept config node renamed h =
      bind-Gives Pair KeptResult _ _ (resolve_node-Kept node (initial_context env config node) h)
        λ (context, result) k. elim (Bool-cases (success result)) [
          | inl ok ↦ rw ok (
              for_each-Gives (λ x. Unit) KeptResult (resolve_rule_outbound lib env)
                (enabled_rules context.routing_item) _ (λ rule b u k'. resolve_rule-Kept rule b k')
                (Each-trivial (enabled_rules context.routing_item)) (renamed context k))
          | inr failed ↦ rw failed k
        ]
