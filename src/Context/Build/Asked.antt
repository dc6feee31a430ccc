-- ===== src/Context/Build/Asked.antt =====
-- What the construction of a context leaves as it was asked for.
use voya_vpn.Base.{◌≡◌, refl, some, subst, Gives}
use voya_vpn.Entities.{ProfileItem}
use voya_vpn.Entities.Routing.{AppConfig}
use voya_vpn.Context.Library.{Library}
use voya_vpn.Context.Env.{SnapshotCoreGenEnv, get_default_routing}
use voya_vpn.Context.Register.{CoreConfigContext, registered}
use voya_vpn.Context.Traverse.Keeps.{IsKept}
use voya_vpn.Context.Build.{BuilderResult, initial_context, build}
use voya_vpn.Context.Build.Keeps.{build-Kept}

pub record IsAsked (env : SnapshotCoreGenEnv) (config : AppConfig) (node : ProfileItem)
    (context : CoreConfigContext) : Type 0 where
  pub same_node : context.node ≡ node
  pub same_config : context.app_config ≡ config
  pub same_routing : context.routing_item ≡ get_default_routing env config
  pub same_tun : context.is_tun_enabled ≡ config.enable_tun
  pub same_platform : context.platform ≡ env.platform

module _ (lib : Library) (env : SnapshotCoreGenEnv) (config : AppConfig) (node : ProfileItem) where
  IsAsked-IsKept : IsKept lib (IsAsked env config node)
  unfolding registered
  IsAsked-IsKept = record {
    keeps_registered = λ profile context a. record {
      same_node = a.same_node;
      same_config = a.same_config;
      same_routing = a.same_routing;
      same_tun = a.same_tun;
      same_platform = a.same_platform;
    };
    keeps_put = λ key profile context a. record {
      same_node = a.same_node;
      same_config = a.same_config;
      same_routing = a.same_routing;
      same_tun = a.same_tun;
      same_platform = a.same_platform;
    };
  }

  build-IsAsked_if_any :
      Gives (λ built. IsAsked env config node built.context) (build lib env config node)
  unfolding initial_context
  build-IsAsked_if_any =
      build-Kept lib env (IsAsked env config node) IsAsked-IsKept config node
        (λ context a. record {
          same_node = refl;
          same_config = a.same_config;
          same_routing = a.same_routing;
          same_tun = a.same_tun;
          same_platform = a.same_platform;
        })
        (record {
          same_node = refl;
          same_config = refl;
          same_routing = refl;
          same_tun = refl;
          same_platform = refl;
        })

  -- The node of the context is the profile as it was given, with its own children also where the map
  -- has the group with those that are left; the settings, the routing, the platform and whether
  -- there is a tunnel are those asked for.
  pub build-IsAsked :
      (built : BuilderResult)
      → build lib env config node ≡ some built
      → IsAsked env config node built.context
  build-IsAsked built e =
      subst (Gives λ result. IsAsked env config node result.context) e build-IsAsked_if_any
