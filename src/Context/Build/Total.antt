-- ===== src/Context/Build/Total.antt =====
-- The construction of a context always gives a result.
use voya_vpn.Base.{
  ◌≢◌, Option, none, some, subst, Text, is_empty, trim, Bool-cases, inl, inr, Returns,
  for_each-Returns, Each-trivial,
}
use voya_vpn.Entities.{ProfileItem}
use voya_vpn.Entities.Routing.{RulesItem, AppConfig}
use voya_vpn.Context.Library.{Library}
use voya_vpn.Context.Messages.{success}
use voya_vpn.Context.Env.{SnapshotCoreGenEnv, get_profile_by_index_id, get_profile_by_remarks}
use voya_vpn.Context.Register.{CoreConfigContext}
use voya_vpn.Context.Traverse.Terminates.{register_node-Returns}
use voya_vpn.Context.Build.{
  BuilderResult, resolve_node, nonempty_of, text_of, resolve_found, resolve_tag, enabled_rules,
  build_front, build_found, resolve_rule_outbound, resolve_rule_outbounds, initial_context, build,
  pre_socks_item, build_pre_socks_if_needed, build_all, build_active, built_if_any,
}
use voya_vpn.Context.Build.Laws.{bind-Returns}

module _ (lib : Library) (env : SnapshotCoreGenEnv) where
  resolve_node-Returns :
      (node : ProfileItem) (context : CoreConfigContext)
      → Returns (resolve_node lib env node context)
  unfolding resolve_node
  resolve_node-Returns node context = elim (Bool-cases (is_empty (trim node.index_id))) [
    | inl blank ↦ rw blank tt
    | inr named ↦ rw named (register_node-Returns lib env node context)
  ]

  resolve_rule-Returns :
      (rule : RulesItem) (built : BuilderResult)
      → Returns (resolve_rule_outbound lib env rule built)
  unfolding resolve_rule_outbound resolve_tag resolve_found
  resolve_rule-Returns rule built = by_tag (nonempty_of rule.outbound_tag)
    where
      by_profile :
          (rule_name tag : Text) (o : Option ProfileItem)
          → Returns (resolve_found lib env rule_name tag built o)
      by_profile rule_name tag none = tt
      by_profile rule_name tag (some node) =
          bind-Returns _ _ (resolve_node-Returns node built.context) λ resolved. tt

      by_tag : (o : Option Text) → Returns (resolve_tag lib env (text_of rule.remarks) built o)
      by_tag none = tt
      by_tag (some tag) = by_profile (text_of rule.remarks) tag (get_profile_by_remarks env tag)

  resolve_rule_outbounds-Returns :
      (built : BuilderResult) → Returns (resolve_rule_outbounds lib env built)
  unfolding resolve_rule_outbounds
  resolve_rule_outbounds-Returns built =
      for_each-Returns (λ x. Unit) (resolve_rule_outbound lib env)
        (enabled_rules built.context.routing_item) built (λ rule b u. resolve_rule-Returns rule b)
        (Each-trivial (enabled_rules built.context.routing_item))

  pub build-Returns :
      (config : AppConfig) (node : ProfileItem) → Returns (build lib env config node)
  unfolding build
  build-Returns config node =
      bind-Returns _ _ (resolve_node-Returns node (initial_context env config node))
        λ (context, node_result). elim (Bool-cases (success node_result)) [
          | inl ok ↦ rw ok (resolve_rule_outbounds-Returns _)
          | inr failed ↦ rw failed tt
        ]

  build_all-Returns :
      (config : AppConfig) (node : ProfileItem) → Returns (build_all lib env config node)
  unfolding build_all build_pre_socks_if_needed build_front
  build_all-Returns config node = bind-Returns _ _ (build-Returns config node) λ main.
      elim (Bool-cases (success main.validator_result)) [
        | inl ok ↦ rw ok (
            bind-Returns _ _
              (by_item main.context (pre_socks_item env main.context.app_config main.context.node))
              λ front. tt)
        | inr failed ↦ rw failed tt
      ]
    where
      by_item :
          (context : CoreConfigContext) (o : Option ProfileItem)
          → Returns (build_front lib env context o)
      by_item context none = tt
      by_item context (some item) =
          bind-Returns _ _ (build-Returns context.app_config item) λ built. tt

  -- The construction for a profile always gives a result, however its groups and the rules refer
  -- to each other.
  pub build_all_total :
      (config : AppConfig) (node : ProfileItem) → build_all lib env config node ≢ none
  build_all_total config node e = subst Returns e (build_all-Returns config node)

  -- The construction for the active profile always gives a context or an error.
  pub build_active_total : (config : AppConfig) → build_active lib env config ≢ none
  unfolding build_active build_found
  build_active_total config e = subst Returns e returned
    where
      by_profile : (id : Text) (o : Option ProfileItem) → Returns (build_found lib env config id o)
      by_profile id none = tt
      by_profile id (some node) = by_result (build lib env config node) (build-Returns config node)
        where
          by_result : (o : Option BuilderResult) → Returns o → Returns (built_if_any o)
          by_result none h = absurd h
          by_result (some built) h = tt

      returned : Returns (build_active lib env config)
      returned = elim (Bool-cases (is_empty (trim config.index_id))) [
        | inl blank ↦ rw blank tt
        | inr named ↦
            rw named (
              by_profile (trim config.index_id)
                (get_profile_by_index_id env (trim config.index_id)))
      ]
