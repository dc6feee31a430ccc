-- ===== src/Groups/Children/Distinct.antt =====
-- The children of a group are different from each other.
use voya_vpn.Base.{
  ◌≡◌, refl, ◌∙◌, Bool, true, false, List, [], ◌∷◌, ◌++◌, Option, none, some, if◌then◌else◌, Text,
  arith, Bool-cases, inl, inr, sym,
}
use voya_vpn.Entities.{
  ProfileProtocol, single, policy_group_of, proxy_chain_of, ProfileItem, child_profile_ids,
}
use voya_vpn.Groups.Profile.{ProfileMap, get, contains, IsFresh, contains-append}
use voya_vpn.Groups.Children.{
  GroupValidationResult, Collected, push_unique_child, push_named, push_matching, push_subscription,
  nothing_yet, effective_child_ids, is_candidate, filter_of, child_not_found, add_error,
}
use voya_vpn.Groups.Children.Laws.{push_unique_child-ids, push_unique_child-seen}

pub IsFresh-append :
    (before ids : List Text) (x : Text)
    → IsFresh before ids
    → contains x before ≡ false
    → contains x ids ≡ false
    → IsFresh before (ids ++ (x ∷ []))
unfolding contains
IsFresh-append before [] x h new other = (new, tt)
IsFresh-append before (y ∷ ids) x (first, rest) new other =
    (first, IsFresh-append (y ∷ before) ids x rest (ground arith) (ground arith))

-- The ids are different, and the set holds just them.
record IsCollected (c : Collected) : Type 0 where
  distinct : IsFresh [] c.ids
  same : (x : Text) → contains x c.seen ≡ contains x c.ids

push_unique_child-IsCollected :
    (id : Text) (c : Collected) → IsCollected c → IsCollected (push_unique_child id c)
push_unique_child-IsCollected id c v = elim (Bool-cases (contains id c.seen)) [
  | inl seen ↦ record {
    distinct = rw (push_unique_child-ids id c, seen) v.distinct;
    same = λ x. rw (push_unique_child-ids id c, push_unique_child-seen id c, seen) (v.same x);
  }
  | inr new ↦ record {
    distinct =
        rw (push_unique_child-ids id c, new)
          (IsFresh-append [] c.ids id v.distinct (unfold contains in refl) (sym (v.same id) ∙ new));
    same = λ x. rw (push_unique_child-ids id c, push_unique_child-seen id c, new) (added x);
  }
]
  where
    added : (x : Text) → contains x (id ∷ c.seen) ≡ contains x (c.ids ++ (id ∷ []))
    added x = rw (contains-append x id c.ids, sym (v.same x)) (unfold contains in (ground arith))

report-IsCollected :
    (id : Text) (c : Collected) (report_missing : Bool)
    → IsCollected c
    → IsCollected (
        if report_missing then record c { result = add_error (child_not_found id) c.result } else c)
report-IsCollected id c true v = record { distinct = v.distinct; same = v.same }
report-IsCollected id c false v = v

push_named-IsCollected :
    (m : ProfileMap) (report_missing : Bool) (ids : List Text) (c : Collected)
    → IsCollected c
    → IsCollected (push_named m report_missing ids c)
unfolding push_named
push_named-IsCollected m report_missing [] c v = v
push_named-IsCollected m report_missing (id ∷ ids) c v =
    by_profile (get id m)
      (push_named-IsCollected m report_missing ids _ (report-IsCollected id c report_missing v))
      (push_named-IsCollected m report_missing ids (push_unique_child id c)
        (push_unique_child-IsCollected id c v))
  where
    by_profile :
        {skipped pushed : Collected} (o : Option ProfileItem)
        → IsCollected skipped
        → IsCollected pushed
        → IsCollected (elim o as (λ _. Collected) [ none ↦ skipped | some profile ↦ pushed ])
    by_profile none h g = h
    by_profile (some profile) h g = g

push_matching-IsCollected :
    (wanted : ProfileItem → Bool) (m : ProfileMap) (c : Collected)
    → IsCollected c
    → IsCollected (push_matching wanted m c)
unfolding push_matching
push_matching-IsCollected wanted [] c v = v
push_matching-IsCollected wanted ((k, child) ∷ m) c v = elim (Bool-cases (wanted child)) [
  | inl wants ↦
      rw (wants, push_matching)
        (push_matching-IsCollected wanted m (push_unique_child child.index_id c)
          (push_unique_child-IsCollected child.index_id c v))
  | inr passed ↦ rw (passed, push_matching) (push_matching-IsCollected wanted m c v)
]

push_subscription-IsCollected :
    (regex : Text → Option (Text → Bool)) (m : ProfileMap) (protocol : ProfileProtocol)
    (c : Collected)
    → IsCollected c
    → IsCollected (push_subscription regex m protocol c)
unfolding push_subscription
push_subscription-IsCollected regex m (single t) c v = v
push_subscription-IsCollected regex m (policy_group_of ids none filter) c v = v
push_subscription-IsCollected regex m (policy_group_of ids (some s) filter) c v =
    push_matching-IsCollected (is_candidate s (filter_of regex filter)) m c v
push_subscription-IsCollected regex m (proxy_chain_of ids) c v = v

-- The children of a group are different from each other, however often the group names one and
-- whether the subscription holds it too.
pub effective_child_ids-IsFresh :
    (regex : Text → Option (Text → Bool)) (profile : ProfileItem) (m : ProfileMap)
    (report_missing : Bool) (result : GroupValidationResult)
    → IsFresh [] (effective_child_ids regex profile m report_missing result).ids
unfolding effective_child_ids
effective_child_ids-IsFresh regex profile m report_missing result =
    (push_subscription-IsCollected regex m profile.protocol _ (
      push_named-IsCollected m report_missing (child_profile_ids profile.protocol)
        (nothing_yet result) (record { distinct = tt; same = λ x. refl }))).distinct
