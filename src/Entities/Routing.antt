-- ===== src/Entities/Routing.antt =====
-- crates/voya-core/src/entities.rs and config.rs: routing rules, subscriptions and the settings, as
-- far as contexts and the manager of routings read them.
use voya_vpn.Base.{ℤ, Bool, List, Option, Text}

pub record RulesItem : Type 0 where
  pub id : Text
  pub remarks : Option Text
  pub enabled : Bool
  pub outbound_tag : Option Text

pub record RoutingItem : Type 0 where
  pub id : Text
  pub remarks : Text
  pub rule_set : List RulesItem
  pub domain_strategy : Text
  pub sort : ℤ

pub record SubItem : Type 0 where
  pub id : Text
  pub pre_socks_port : Option ℤ

-- The active profile, the active routing, and whether the tunnel is wanted.
pub record AppConfig : Type 0 where
  pub index_id : Text
  pub routing_index_id : Text
  pub enable_tun : Bool
