-- ===== src/Groups/Children/Laws.antt =====
-- What collecting children leaves alone, and on what it depends.
use voya_vpn.Base.{
  ◌≡◌, refl, ◌∙◌, Bool, false, List, [], ◌∷◌, ◌++◌, Option, none, some, if◌then◌else◌, Text,
  Bool-cases, inl, inr,
}
use voya_vpn.Entities.{
  ProfileProtocol, single, policy_group_of, proxy_chain_of, ProfileItem, child_profile_ids,
}
use voya_vpn.Groups.Profile.{ProfileMap, get, contains}
use voya_vpn.Groups.Children.{
  GroupValidationResult, Collected, has_duplicate, push_unique_child, push_named, push_matching,
  push_subscription, nothing_yet, effective_child_ids, is_candidate, filter_of,
}

push_unique_child-errors :
    (id : Text) (c : Collected) → (push_unique_child id c).result.errors ≡ c.result.errors
unfolding push_unique_child
push_unique_child-errors id c = elim (Bool-cases (contains id c.seen)) [
  | inl seen ↦ elim (Bool-cases (has_duplicate id c.result.warnings)) [
    | inl warned ↦ rw (seen, warned)
    | inr silent ↦ rw (seen, silent)
  ]
  | inr new ↦ rw new
]

push_named-errors :
    (m : ProfileMap) (ids : List Text) (c : Collected)
    → (push_named m false ids c).result.errors ≡ c.result.errors
unfolding push_named
push_named-errors m [] c = refl
push_named-errors m (id ∷ ids) c =
    by_profile (get id m) (push_named-errors m ids c)
      (push_named-errors m ids (push_unique_child id c))
  where
    by_profile :
        (o : Option ProfileItem)
        → (push_named m false ids c).result.errors ≡ c.result.errors
        → (push_named m false ids (push_unique_child id c)).result.errors
          ≡ (push_unique_child id c).result.errors
        → (elim o as (λ _. Collected) [
          | none ↦ push_named m false ids c
          | some profile ↦ push_named m false ids (push_unique_child id c)
        ]).result.errors
          ≡ c.result.errors
    by_profile none h g = h
    by_profile (some profile) h g = g ∙ push_unique_child-errors id c

push_matching-errors :
    (wanted : ProfileItem → Bool) (m : ProfileMap) (c : Collected)
    → (push_matching wanted m c).result.errors ≡ c.result.errors
unfolding push_matching
push_matching-errors wanted [] c = refl
push_matching-errors wanted ((k, child) ∷ m) c = elim (Bool-cases (wanted child)) [
  | inl wants ↦
      rw (wants, push_matching)
        (push_matching-errors wanted m (push_unique_child child.index_id c)
          ∙ push_unique_child-errors child.index_id c)
  | inr passed ↦ rw (passed, push_matching) (push_matching-errors wanted m c)
]

push_subscription-errors :
    (regex : Text → Option (Text → Bool)) (m : ProfileMap) (protocol : ProfileProtocol)
    (c : Collected)
    → (push_subscription regex m protocol c).result.errors ≡ c.result.errors
unfolding push_subscription
push_subscription-errors regex m (single t) c = refl
push_subscription-errors regex m (policy_group_of ids none filter) c = refl
push_subscription-errors regex m (policy_group_of ids (some s) filter) c =
    push_matching-errors (is_candidate s (filter_of regex filter)) m c
push_subscription-errors regex m (proxy_chain_of ids) c = refl

-- Without reports of missing children, collecting adds no error.
pub effective_child_ids-errors :
    (regex : Text → Option (Text → Bool)) (profile : ProfileItem) (m : ProfileMap)
    (result : GroupValidationResult)
    → (effective_child_ids regex profile m false result).result.errors ≡ result.errors
unfolding effective_child_ids
effective_child_ids-errors regex profile m result =
    push_subscription-errors regex m profile.protocol
      (push_named m false (child_profile_ids profile.protocol) (nothing_yet result))
    ∙ push_named-errors m (child_profile_ids profile.protocol) (nothing_yet result)

-- Two states of the collection that differ in the result at most.
abbrev Alike : Collected → Collected → Type 0
Alike c d = (c.ids ≡ d.ids) × (c.seen ≡ d.seen)

pub push_unique_child-ids :
    (id : Text) (c : Collected)
    → (push_unique_child id c).ids ≡ (if contains id c.seen then c.ids else c.ids ++ (id ∷ []))
unfolding push_unique_child
push_unique_child-ids id c = elim (Bool-cases (contains id c.seen)) [
  | inl seen ↦ elim (Bool-cases (has_duplicate id c.result.warnings)) [
    | inl warned ↦ rw (seen, warned)
    | inr silent ↦ rw (seen, silent)
  ]
  | inr new ↦ rw new
]

pub push_unique_child-seen :
    (id : Text) (c : Collected)
    → (push_unique_child id c).seen ≡ (if contains id c.seen then c.seen else id ∷ c.seen)
unfolding push_unique_child
push_unique_child-seen id c = elim (Bool-cases (contains id c.seen)) [
  | inl seen ↦ elim (Bool-cases (has_duplicate id c.result.warnings)) [
    | inl warned ↦ rw (seen, warned)
    | inr silent ↦ rw (seen, silent)
  ]
  | inr new ↦ rw new
]

push_unique_child-Alike :
    (id : Text) (c d : Collected)
    → Alike c d
    → Alike (push_unique_child id c) (push_unique_child id d)
push_unique_child-Alike id c d (ids, seen) = (
  rw (push_unique_child-ids id c, push_unique_child-ids id d, ids, seen),
  rw (push_unique_child-seen id c, push_unique_child-seen id d, seen),
)

push_named-Alike :
    (m : ProfileMap) (ids : List Text) (c d : Collected)
    → Alike c d
    → Alike (push_named m false ids c) (push_named m false ids d)
unfolding push_named
push_named-Alike m [] c d alike = alike
push_named-Alike m (id ∷ ids) c d alike = by_profile (get id m) (push_named-Alike m ids c d alike) (
    push_named-Alike m ids (push_unique_child id c) (push_unique_child id d)
      (push_unique_child-Alike id c d alike))
  where
    by_profile :
        (o : Option ProfileItem)
        → Alike (push_named m false ids c) (push_named m false ids d)
        → Alike
            (push_named m false ids (push_unique_child id c))
            (push_named m false ids (push_unique_child id d))
        → Alike
            (elim o as (λ _. Collected) [
              | none ↦ push_named m false ids c
              | some profile ↦ push_named m false ids (push_unique_child id c)
            ])
            (elim o as (λ _. Collected) [
              | none ↦ push_named m false ids d
              | some profile ↦ push_named m false ids (push_unique_child id d)
            ])
    by_profile none h g = h
    by_profile (some profile) h g = g

push_matching-Alike :
    (wanted : ProfileItem → Bool) (m : ProfileMap) (c d : Collected)
    → Alike c d
    → Alike (push_matching wanted m c) (push_matching wanted m d)
unfolding push_matching
push_matching-Alike wanted [] c d alike = alike
push_matching-Alike wanted ((k, child) ∷ m) c d alike = elim (Bool-cases (wanted child)) [
  | inl wants ↦
      rw (wants, push_matching)
        (push_matching-Alike wanted m (push_unique_child child.index_id c)
          (push_unique_child child.index_id d) (push_unique_child-Alike child.index_id c d alike))
  | inr passed ↦ rw (passed, push_matching) (push_matching-Alike wanted m c d alike)
]

push_subscription-Alike :
    (regex : Text → Option (Text → Bool)) (m : ProfileMap) (protocol : ProfileProtocol)
    (c d : Collected)
    → Alike c d
    → Alike (push_subscription regex m protocol c) (push_subscription regex m protocol d)
unfolding push_subscription
push_subscription-Alike regex m (single t) c d alike = alike
push_subscription-Alike regex m (policy_group_of ids none filter) c d alike = alike
push_subscription-Alike regex m (policy_group_of ids (some s) filter) c d alike =
    push_matching-Alike (is_candidate s (filter_of regex filter)) m c d alike
push_subscription-Alike regex m (proxy_chain_of ids) c d alike = alike

-- The children do not depend on what was reported before.
pub effective_child_ids-ids :
    (regex : Text → Option (Text → Bool)) (profile : ProfileItem) (m : ProfileMap)
    (r s : GroupValidationResult)
    → (effective_child_ids regex profile m false r).ids
      ≡ (effective_child_ids regex profile m false s).ids
unfolding effective_child_ids
effective_child_ids-ids regex profile m r s =
    (push_subscription-Alike regex m profile.protocol _ _ (
      push_named-Alike m (child_profile_ids profile.protocol) (nothing_yet r) (nothing_yet s)
        (refl, refl))).0
