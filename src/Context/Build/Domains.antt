-- ===== src/Context/Build/Domains.antt =====
-- The protected domains of a context and of the proxy in front of it.
use voya_vpn.Base.{
  ◌≡◌, refl, sym, ◌∙◌, Bool, true, false, ◌||◌, List, [], ◌∷◌, Option, none, some, Text, subst,
  Bool-cases, inl, inr, Gives,
}
use voya_vpn.Entities.{ProfileItem, TlsSettings, searchable_address}
use voya_vpn.Entities.Routing.{AppConfig}
use voya_vpn.Groups.Profile.{contains}
use voya_vpn.Context.Library.{Library}
use voya_vpn.Context.Messages.{success}
use voya_vpn.Context.Domains.{push_domain_if_needed}
use voya_vpn.Context.Domains.Laws.{
  AreDomains, empty-AreDomains, push-AreDomains, merge-AreDomains, contains-merge_domains,
}
use voya_vpn.Context.Env.{SnapshotCoreGenEnv}
use voya_vpn.Context.Register.{
  CoreConfigContext, ech_query_sni, xhttp_download_settings_address, push_ech_domain,
  push_download_domain, push_node_domains, registered,
}
use voya_vpn.Context.Traverse.Keeps.{IsKept}
use voya_vpn.Context.Build.{
  BuilderResult, BuilderAllResult, initial_context, build, build_front, build_pre_socks_if_needed,
  pre_socks_item, with_pre_socks, build_all,
}
use voya_vpn.Context.Build.Laws.{bind-Gives}
use voya_vpn.Context.Build.Keeps.{build-Kept}

module _ (lib : Library) where
  -- The protected domains of a context are domains, and no one stands twice.
  abbrev pub ProtectsDomains : CoreConfigContext → Type 0
  ProtectsDomains context = AreDomains lib.is_ip context.protect_domain_list

  ech-AreDomains :
      (tls : Option TlsSettings) (domains : List Text)
      → AreDomains lib.is_ip domains
      → AreDomains lib.is_ip (push_ech_domain lib tls domains)
  unfolding push_ech_domain
  ech-AreDomains none domains v = v
  ech-AreDomains (some tls) domains v = by_config tls.ech_config
    where
      by_config :
          (values : List Text)
          → AreDomains lib.is_ip (elim values as (λ _. List Text) [
            | [] ↦ domains
            | _ ∷ _ ↦ push_domain_if_needed lib.is_ip (ech_query_sni tls) domains
          ])
      by_config [] = v
      by_config (x ∷ values) = push-AreDomains lib.is_ip (ech_query_sni tls) domains v

  download-AreDomains :
      (address : Option Text) (domains : List Text)
      → AreDomains lib.is_ip domains
      → AreDomains lib.is_ip (push_download_domain lib address domains)
  unfolding push_download_domain
  download-AreDomains none domains v = v
  download-AreDomains (some address) domains v = push-AreDomains lib.is_ip address domains v

  ProtectsDomains-IsKept : IsKept lib ProtectsDomains
  unfolding registered push_node_domains
  ProtectsDomains-IsKept = record {
    keeps_registered = λ node context v.
        download-AreDomains (xhttp_download_settings_address lib node) _ (
          ech-AreDomains node.tls _
            (push-AreDomains lib.is_ip (searchable_address node.protocol) _ v));
    keeps_put = λ key node context v. v;
  }

  module _ (env : SnapshotCoreGenEnv) where
    abbrev ResultProtects : BuilderResult → Type 0
    ResultProtects built = ProtectsDomains built.context

    build-ProtectsDomains :
        (config : AppConfig) (node : ProfileItem) → Gives ResultProtects (build lib env config node)
    unfolding initial_context
    build-ProtectsDomains config node =
        build-Kept lib env ProtectsDomains ProtectsDomains-IsKept config node (λ context v. v)
          (empty-AreDomains lib.is_ip)

    -- What the proxy in front and the main context protect together.
    pub record AreInStep (main front : BuilderResult) : Type 0 where
      pub main_domains : AreDomains lib.is_ip main.context.protect_domain_list
      pub front_domains : AreDomains lib.is_ip front.context.protect_domain_list
      pub same_domains :
          (d : Text)
          → contains d main.context.protect_domain_list
            ≡ contains d front.context.protect_domain_list
      pub tun_in_front : main.context.is_tun_enabled ≡ false

    abbrev InStepIfAny : BuilderResult → Option BuilderResult → Type 0
    InStepIfAny main none = ProtectsDomains main.context
    InStepIfAny main (some front) = AreInStep main front

    abbrev InStep : BuilderAllResult → Type 0
    InStep built = InStepIfAny built.main_result built.pre_socks_result

    -- What a front is given of the main context's domains.
    abbrev TakesOver : BuilderResult → Option BuilderResult → Type 0
    TakesOver main none = Unit
    TakesOver main (some front) =
        AreDomains lib.is_ip front.context.protect_domain_list
        × ((d : Text)
            → contains d main.context.protect_domain_list ≡ true
            → contains d front.context.protect_domain_list ≡ true)

    front-TakesOver :
        (main : BuilderResult) (o : Option ProfileItem)
        → ProtectsDomains main.context
        → Gives (TakesOver main) (build_front lib env main.context o)
    unfolding build_front
    front-TakesOver main none v = tt
    front-TakesOver main (some item) v =
        bind-Gives ResultProtects (TakesOver main) _ _
          (build-ProtectsDomains main.context.app_config item)
          λ built w. (
            merge-AreDomains lib.is_ip main.context.protect_domain_list
                built.context.protect_domain_list v,
            λ d h.
                rw
                  (
                    contains-merge_domains lib.is_ip d main.context.protect_domain_list
                        built.context.protect_domain_list w,
                    h,
                  )
                  refl,
          )

    joined-InStep :
        (main : BuilderResult) (front : Option BuilderResult)
        → ProtectsDomains main.context
        → TakesOver main front
        → InStep (with_pre_socks lib main front)
    unfolding with_pre_socks
    joined-InStep main none v t = v
    joined-InStep main (some front) v (w, over) = record {
      main_domains =
          merge-AreDomains lib.is_ip main.context.protect_domain_list
            front.context.protect_domain_list v;
      front_domains = w;
      same_domains = λ d.
          let e =
            contains-merge_domains lib.is_ip d main.context.protect_domain_list
              front.context.protect_domain_list w in
          e
          ∙ absorbed (contains d main.context.protect_domain_list)
              (contains d front.context.protect_domain_list) (over d);
      tun_in_front = refl;
    }
      where
        absorbed : (a b : Bool) → (a ≡ true → b ≡ true) → (a || b) ≡ b
        absorbed true b h = sym (h refl)
        absorbed false b h = refl

    build_all-InStep :
        (config : AppConfig) (node : ProfileItem) → Gives InStep (build_all lib env config node)
    unfolding build_all build_pre_socks_if_needed
    build_all-InStep config node =
        bind-Gives ResultProtects InStep _ _ (build-ProtectsDomains config node) λ main v.
          elim (Bool-cases (success main.validator_result)) [
            | inl ok ↦ rw ok (
                bind-Gives (TakesOver main) InStep _ _
                  (front-TakesOver main
                    (pre_socks_item env main.context.app_config main.context.node) v)
                  λ front t. joined-InStep main front v t)
            | inr failed ↦ rw failed v
          ]

    -- Where a proxy in front is built, the tunnel is no matter of the main context any more, both
    -- contexts protect the same domains, and in each list there are only domains, none twice.
    pub build_all-AreInStep :
        (config : AppConfig) (node : ProfileItem) (built : BuilderAllResult) (front : BuilderResult)
        → build_all lib env config node ≡ some built
        → built.pre_socks_result ≡ some front
        → AreInStep built.main_result front
    build_all-AreInStep config node built front e f =
        subst (InStepIfAny built.main_result) f
          (subst (Gives InStep) e (build_all-InStep config node))
