-- ===== src/Groups/Cycle/Acyclic.antt =====
-- A search without a report means that no group contains itself.
use voya_vpn.Base.{
  for_each, ℕ, zero, suc, ◌≡◌, refl, Bool, true, false, List, [], ◌∷◌, ◌++◌, Option, none, some,
  if◌then◌else◌, Text, text_eq, subst, arith, Bool-cases, inl, inr,
}
use voya_vpn.Entities.{is_group_type, ProfileItem, config_type}
use voya_vpn.Groups.Profile.{ProfileMap, get, contains, IsFresh, contains-append}
use voya_vpn.Groups.Children.{GroupValidationResult, fresh_result, effective_child_ids}
use voya_vpn.Groups.Children.Laws.{effective_child_ids-errors, effective_child_ids-ids}
use voya_vpn.Groups.Cycle.{report_cycle, detect_cycle}
use voya_vpn.Groups.Cycle.Quiet.{
  is_cycle_free, IsQuiet, Began, for_each-began, for_each-round, report_cycle-began,
  report_cycle-loud,
}

-- A group names a child.
pub record IsChild (regex : Text → Option (Text → Bool)) (m : ProfileMap) (parent child : Text)
    : Type 0 where
  pub profile : ProfileItem
  pub found : get parent m ≡ some profile
  pub group : is_group_type (config_type profile.protocol) ≡ true
  pub listed : contains child (effective_child_ids regex profile m false fresh_result).ids ≡ true

-- A walk from a group down to children of children.
abbrev pub Walk : (Text → Option (Text → Bool)) → ProfileMap → Text → List Text → Type 0
Walk regex m id [] = Unit
Walk regex m id (next ∷ path) = IsChild regex m id next × Walk regex m next path

abbrev Within : List Text → List Text → Type 0
Within visiting stack = (x : Text) → contains x visiting ≡ true → contains x stack ≡ true

Within-append :
    (id : Text) (visiting stack : List Text)
    → Within visiting stack
    → Within (id ∷ visiting) (stack ++ (id ∷ []))
unfolding contains
Within-append id visiting stack within x h = elim (Bool-cases (text_eq x id)) [
  | inl same ↦ rw (contains-append x id stack, same) (ground arith)
  | inr other ↦ rw (contains-append x id stack, within x (rw other at h)) refl
]

module _ (regex : Text → Option (Text → Bool)) (m : ProfileMap) where
  -- The search below a group, once it is on the stack.
  abbrev below :
      ℕ → List Text → List Text → Text → Text → GroupValidationResult → Option GroupValidationResult
  below fuel visiting stack id = detect_cycle regex m fuel (id ∷ visiting) (stack ++ (id ∷ []))

  abbrev at_profile :
      ℕ
      → List Text
      → List Text
      → Text
      → GroupValidationResult
      → Option ProfileItem
      → Option GroupValidationResult
  at_profile fuel visiting stack id result o = elim o [
    | none ↦ some result
    | some profile ↦
        if is_group_type (config_type profile.protocol)
        then (let children = effective_child_ids regex profile m false result in
            for_each (below fuel visiting stack id) children.ids children.result)
        else some result
  ]

  at_profile-Began :
      (fuel : ℕ) (visiting stack : List Text) (id : Text) (result : GroupValidationResult)
      (o : Option ProfileItem)
      → Began (below fuel visiting stack id)
      → IsQuiet (at_profile fuel visiting stack id result o)
      → is_cycle_free result.errors ≡ true
  at_profile-Began fuel visiting stack id result none began quiet = quiet
  at_profile-Began fuel visiting stack id result (some profile) began quiet =
      let children = effective_child_ids regex profile m false result in
      elim (Bool-cases (is_group_type (config_type profile.protocol))) [
        | inl group ↦
            subst (λ es. is_cycle_free es ≡ true)
              (effective_child_ids-errors regex profile m result)
              (for_each-began (below fuel visiting stack id) began children.ids children.result
                (rw group at quiet))
        | inr other ↦ rw other at quiet
      ]

  detect_cycle-Began :
      (fuel : ℕ) (visiting stack : List Text) → Began (detect_cycle regex m fuel visiting stack)
  unfolding detect_cycle
  detect_cycle-Began zero visiting stack id result quiet = absurd quiet
  detect_cycle-Began (suc fuel) visiting stack id result quiet =
      elim (Bool-cases (contains id visiting)) [
        | inl visited ↦ report_cycle-began id stack result (rw visited at quiet)
        | inr new ↦
            at_profile-Began fuel visiting stack id result (get id m)
              (detect_cycle-Began fuel (id ∷ visiting) (stack ++ (id ∷ []))) (rw new at quiet)
      ]

  at_profile-child :
      (fuel : ℕ) (visiting stack : List Text) (id next : Text) (result : GroupValidationResult)
      → IsChild regex m id next
      → IsQuiet (at_profile fuel visiting stack id result (get id m))
      → (r : GroupValidationResult) × IsQuiet (below fuel visiting stack id next r)
  at_profile-child fuel visiting stack id next result child quiet =
      let children = effective_child_ids regex child.profile m false result in
      for_each-round (below fuel visiting stack id)
        (detect_cycle-Began fuel (id ∷ visiting) (stack ++ (id ∷ []))) children.ids children.result
        next (rw (child.found, child.group) at quiet)
        (rw (effective_child_ids-ids regex child.profile m result fresh_result) child.listed)

  -- A quiet search from an id: no walk from it comes back to an id that it has passed, or to one that
  -- is being visited.
  pub detect_cycle-IsFresh :
      (fuel : ℕ) (visiting stack : List Text) (id : Text) (result : GroupValidationResult)
      (path : List Text)
      → Within visiting stack
      → IsQuiet (detect_cycle regex m fuel visiting stack id result)
      → Walk regex m id path
      → IsFresh visiting (id ∷ path)
  unfolding detect_cycle
  detect_cycle-IsFresh zero visiting stack id result path within quiet walk = absurd quiet
  detect_cycle-IsFresh (suc fuel) visiting stack id result path within quiet walk =
      elim (Bool-cases (contains id visiting)) [
        | inl visited ↦ absurd (
            let loud = report_cycle-loud id stack result (within id visited) in
            let free : is_cycle_free (report_cycle id stack result).errors ≡ true =
              rw visited at quiet in
            let both : false ≡ true = rw loud at free in cc)
        | inr new ↦ (
          new,
          by_path path walk (rw new at quiet) λ next r rest q w.
              detect_cycle-IsFresh fuel (id ∷ visiting) (stack ++ (id ∷ [])) next r rest
                (Within-append id visiting stack within) q w,
        )
      ]
    where
      by_path :
          (steps : List Text)
          → Walk regex m id steps
          → IsQuiet (at_profile fuel visiting stack id result (get id m))
          → ((next : Text) (r : GroupValidationResult) (rest : List Text)
              → IsQuiet (below fuel visiting stack id next r)
              → Walk regex m next rest
              → IsFresh (id ∷ visiting) (next ∷ rest))
          → IsFresh (id ∷ visiting) steps
      by_path [] w q deeper = tt
      by_path (next ∷ rest) (child, w) q deeper =
          let (r, q') = at_profile-child fuel visiting stack id next result child q in
          deeper next r rest q' w
