-- ===== src/Groups/Cycle/Genuine.antt =====
-- Each cycle that the search reports is one.
use voya_vpn.Base.{
  for_each, ℕ, zero, suc, ◌≡◌, refl, Bool, true, false, List, [], ◌∷◌, ◌++◌, Option, none, some,
  if◌then◌else◌, Text, text_eq, text_eq_refl, eq_of_text_eq, subst, sym, arith, Bool-cases, inl,
  inr,
}
use voya_vpn.Entities.{is_group_type, ProfileItem, config_type}
use voya_vpn.Groups.Profile.{ProfileMap, get, contains}
use voya_vpn.Groups.Children.{
  GroupValidationResult, GroupError, not_a_group, no_valid_children, child_not_found,
  cycle_dependency, fresh_result, effective_child_ids,
}
use voya_vpn.Groups.Children.Laws.{effective_child_ids-errors, effective_child_ids-ids}
use voya_vpn.Groups.Cycle.{from_first, report_cycle, detect_cycle}
use voya_vpn.Groups.Cycle.Acyclic.{IsChild}

module _ (regex : Text → Option (Text → Bool)) (m : ProfileMap) where
  -- Each id is a child of the one before it.
  abbrev pub IsChain : List Text → Type 0
  IsChain [] = Unit
  IsChain (x ∷ []) = Unit
  IsChain (x ∷ y ∷ path) = IsChild regex m x y × IsChain (y ∷ path)

  -- A chain from an id back to itself.
  abbrev pub IsCycle : List Text → Type 0
  IsCycle path =
      IsChain path × ((id : Text) × (inner : List Text) × (path ≡ id ∷ (inner ++ (id ∷ []))))

  abbrev pub AreGenuine : List GroupError → Type 0
  AreGenuine [] = Unit
  AreGenuine (cycle_dependency path ∷ es) = IsCycle path × AreGenuine es
  AreGenuine (not_a_group ∷ es) = AreGenuine es
  AreGenuine (no_valid_children t ∷ es) = AreGenuine es
  AreGenuine (child_not_found id ∷ es) = AreGenuine es

  AreGenuine-append :
      (es : List GroupError) (path : List Text)
      → AreGenuine es
      → IsCycle path
      → AreGenuine (es ++ (cycle_dependency path ∷ []))
  AreGenuine-append [] path h c = (c, tt)
  AreGenuine-append (cycle_dependency p ∷ es) path (g, h) c = (g, AreGenuine-append es path h c)
  AreGenuine-append (not_a_group ∷ es) path h c = AreGenuine-append es path h c
  AreGenuine-append (no_valid_children t ∷ es) path h c = AreGenuine-append es path h c
  AreGenuine-append (child_not_found id ∷ es) path h c = AreGenuine-append es path h c

  IsChain-append :
      (stack : List Text) (id child : Text)
      → IsChain (stack ++ (id ∷ []))
      → IsChild regex m id child
      → IsChain ((stack ++ (id ∷ [])) ++ (child ∷ []))
  IsChain-append [] id child h c = (c, tt)
  IsChain-append (x ∷ []) id child (h, _) c = (h, (c, tt))
  IsChain-append (x ∷ y ∷ stack) id child (h, rest) c =
      (h, IsChain-append (y ∷ stack) id child rest c)

  IsChain-tail : (x : Text) (path : List Text) → IsChain (x ∷ path) → IsChain path
  IsChain-tail x [] h = tt
  IsChain-tail x (y ∷ path) h = h.1

  -- What is on the stack from the id on, and the id again.
  from_first-IsCycle :
      (id : Text) (stack path : List Text)
      → IsChain (stack ++ (id ∷ []))
      → from_first id stack ≡ some path
      → IsCycle (path ++ (id ∷ []))
  unfolding from_first
  from_first-IsCycle id [] path chain e = absurd (cc)
  from_first-IsCycle id (s ∷ stack) path chain e = elim (Bool-cases (text_eq s id)) [
    | inl same ↦
        let found : some (s ∷ stack) ≡ some path = rw (same, from_first) at e in
        let whole : (s ∷ stack) ≡ path = cc in
        subst (λ p. IsCycle (p ++ (id ∷ []))) whole
          (
            chain,
            (
              id,
              stack,
              subst (λ x. (s ∷ (stack ++ (id ∷ []))) ≡ (x ∷ (stack ++ (id ∷ []))))
                  (eq_of_text_eq s id same) refl,
            ),
          )
    | inr other ↦
        from_first-IsCycle id stack path (IsChain-tail s (stack ++ (id ∷ [])) chain)
          (rw (other, from_first) at e)
  ]

  abbrev GenuineIfAny : Option GroupValidationResult → Type 0
  GenuineIfAny none = Unit
  GenuineIfAny (some r) = AreGenuine r.errors

  report_cycle-AreGenuine :
      (id : Text) (stack : List Text) (r : GroupValidationResult)
      → IsChain (stack ++ (id ∷ []))
      → AreGenuine r.errors
      → AreGenuine (report_cycle id stack r).errors
  unfolding report_cycle
  report_cycle-AreGenuine id stack r chain h = by_place (from_first id stack) refl
    where
      by_place :
          (o : Option (List Text))
          → from_first id stack ≡ o
          → AreGenuine
              (elim o as (λ _. GroupValidationResult) [
                | none ↦ r
                | some path ↦ record r {
                  errors = r.errors ++ (cycle_dependency (path ++ (id ∷ [])) ∷ []);
                }
              ]).errors
      by_place none e = h
      by_place (some path) e =
          AreGenuine-append r.errors (path ++ (id ∷ [])) h
            (from_first-IsCycle id stack path chain e)

  for_each-GenuineIfAny :
      (body : Text → GroupValidationResult → Option GroupValidationResult) (ids : List Text)
      (r : GroupValidationResult)
      → ((c : Text) (s : GroupValidationResult)
          → contains c ids ≡ true
          → AreGenuine s.errors
          → GenuineIfAny (body c s))
      → AreGenuine r.errors
      → GenuineIfAny (for_each body ids r)
  unfolding for_each contains
  for_each-GenuineIfAny body [] r h g = g
  for_each-GenuineIfAny body (id ∷ ids) r h g =
      by_step (body id r) (h id r (rw (text_eq_refl id)) g)
        λ r' g'. for_each-GenuineIfAny body ids r' (λ c s among k. h c s (ground arith) k) g'
    where
      by_step :
          (o : Option GroupValidationResult)
          → GenuineIfAny o
          → ((r' : GroupValidationResult)
              → AreGenuine r'.errors
              → GenuineIfAny (for_each body ids r'))
          → GenuineIfAny (elim o as (λ _. Option GroupValidationResult) [
            | none ↦ none
            | some r' ↦ for_each body ids r'
          ])
      by_step none k rest = tt
      by_step (some r') k rest = rest r' k

  detect_cycle-GenuineIfAny :
      (fuel : ℕ) (visiting stack : List Text) (id : Text) (result : GroupValidationResult)
      → IsChain (stack ++ (id ∷ []))
      → AreGenuine result.errors
      → GenuineIfAny (detect_cycle regex m fuel visiting stack id result)
  unfolding detect_cycle
  detect_cycle-GenuineIfAny zero visiting stack id result chain g = tt
  detect_cycle-GenuineIfAny (suc fuel) visiting stack id result chain g =
      elim (Bool-cases (contains id visiting)) [
        | inl visited ↦ rw visited (report_cycle-AreGenuine id stack result chain g)
        | inr new ↦ rw new (
            by_profile (get id m) refl λ c s child k.
              detect_cycle-GenuineIfAny fuel (id ∷ visiting) (stack ++ (id ∷ [])) c s
                (IsChain-append stack id c chain child) k)
      ]
    where
      by_profile :
          (o : Option ProfileItem)
          → get id m ≡ o
          → ((c : Text) (s : GroupValidationResult)
              → IsChild regex m id c
              → AreGenuine s.errors
              → GenuineIfAny (detect_cycle regex m fuel (id ∷ visiting) (stack ++ (id ∷ [])) c s))
          → GenuineIfAny (elim o as (λ _. Option GroupValidationResult) [
            | none ↦ some result
            | some profile ↦
                if is_group_type (config_type profile.protocol)
                then (let children = effective_child_ids regex profile m false result in
                    for_each
                      (detect_cycle regex m fuel (id ∷ visiting) (stack ++ (id ∷ [])))
                      children.ids
                      children.result)
                else some result
          ])
      by_profile none e inner = g
      by_profile (some profile) e inner =
          let children = effective_child_ids regex profile m false result in
          elim (Bool-cases (is_group_type (config_type profile.protocol))) [
            | inl group ↦ rw group (
                for_each-GenuineIfAny
                  (detect_cycle regex m fuel (id ∷ visiting) (stack ++ (id ∷ []))) children.ids
                  children.result
                  (λ c s among k.
                    inner c s
                      (record {
                        profile = profile;
                        found = e;
                        group = group;
                        listed =
                            rw (effective_child_ids-ids regex profile m fresh_result result) among;
                      })
                      k)
                  (subst AreGenuine (sym (effective_child_ids-errors regex profile m result)) g))
            | inr other ↦ rw other g
          ]

  -- Each cycle that the search adds to the errors is one: its ids are groups, each with the next one
  -- among its children, and the last one is the first one again.
  pub detect_cycle-AreGenuine :
      (fuel : ℕ) (id : Text) (result after : GroupValidationResult)
      → AreGenuine result.errors
      → detect_cycle regex m fuel [] [] id result ≡ some after
      → AreGenuine after.errors
  detect_cycle-AreGenuine fuel id result after g e =
      subst GenuineIfAny e (detect_cycle-GenuineIfAny fuel [] [] id result tt g)
