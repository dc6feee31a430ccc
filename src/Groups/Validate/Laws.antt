-- ===== src/Groups/Validate/Laws.antt =====
-- What the validation of a group guarantees.
use voya_vpn.Base.{
  Returns, suc, ◌≡◌, ◌≢◌, refl, Bool, true, false, List, [], ◌∷◌, Option, none, some, Text, subst,
  sym, arith, length, Bool-cases, inl, inr,
}
use voya_vpn.Entities.{is_group_type, ProfileItem, config_type}
use voya_vpn.Groups.Profile.{IsFresh, effective_profile_id, keys}
use voya_vpn.Groups.Children.{GroupValidationResult, GroupError, fresh_result, effective_child_ids}
use voya_vpn.Groups.Cycle.{detect_cycle}
use voya_vpn.Groups.Cycle.Laws.{unvisited_le, detect_cycle-Returns}
use voya_vpn.Groups.Cycle.Quiet.{is_cycle_free, IsQuiet}
use voya_vpn.Groups.Cycle.Acyclic.{Walk, detect_cycle-IsFresh}
use voya_vpn.Groups.Validate.{
  no_errors, with_root, check_children, finish_validation, validate_group_profile,
}

abbrev IsAccepted : Option GroupValidationResult → Type 0
IsAccepted none = ⊥
IsAccepted (some s) = s.valid ≡ true

is_cycle_free-no_errors : (es : List GroupError) → no_errors es ≡ true → is_cycle_free es ≡ true
is_cycle_free-no_errors [] h = refl
is_cycle_free-no_errors (e ∷ es) h = absurd (cc)

module _ (regex : Text → Option (Text → Bool)) (profile : ProfileItem)
    (profiles : List ProfileItem) where
  abbrev search_of : Option GroupValidationResult
  search_of =
      detect_cycle regex (with_root profile profiles)
        (suc (length (keys (with_root profile profiles)))) [] [] (effective_profile_id profile)
        (check_children profile
          (effective_child_ids regex profile (with_root profile profiles) true fresh_result))

  search-Returns : Returns search_of
  search-Returns =
      let few = unvisited_le (keys (with_root profile profiles)) [] in
      detect_cycle-Returns regex (with_root profile profiles)
        (suc (length (keys (with_root profile profiles)))) [] [] (effective_profile_id profile) _
        (omega (arith, few))

  abbrev finished : List Text → Option GroupValidationResult → Option GroupValidationResult
  finished ids o = elim o [ none ↦ none | some result ↦ some (finish_validation ids result) ]

  -- The validation always gives a result: the search for cycles ends within its fuel, however the
  -- groups refer to each other.
  pub validate_group_profile_total : validate_group_profile regex profile profiles ≢ none
  unfolding validate_group_profile
  validate_group_profile_total e =
      elim (Bool-cases (is_group_type (config_type profile.protocol))) [
        | inl group ↦ by_search search_of search-Returns (rw group at e)
        | inr other ↦ subst Returns (rw other at e) tt
      ]
    where
      ids : List Text
      ids = (effective_child_ids regex profile (with_root profile profiles) true fresh_result).ids

      by_search : (o : Option GroupValidationResult) → Returns o → finished ids o ≡ none → ⊥
      by_search none returned f = returned
      by_search (some r) returned f = subst Returns f tt

  cycle_free_of :
      (o : Option GroupValidationResult) (ids : List Text) (result : GroupValidationResult)
      → finished ids o ≡ some result
      → result.valid ≡ true
      → IsQuiet o
  unfolding finish_validation
  cycle_free_of none ids result e v = absurd (cc)
  cycle_free_of (some r) ids result e v =
      is_cycle_free-no_errors r.errors (subst IsAccepted (sym e) v)

  -- A group that is found valid has no cycle below it: no walk from the group down to children of
  -- children comes twice to the same profile.
  pub validate_group_profile-IsFresh :
      (result : GroupValidationResult) (path : List Text)
      → validate_group_profile regex profile profiles ≡ some result
      → result.valid ≡ true
      → Walk regex (with_root profile profiles) (effective_profile_id profile) path
      → IsFresh [] (effective_profile_id profile ∷ path)
  unfolding validate_group_profile
  validate_group_profile-IsFresh result path e v walk =
      elim (Bool-cases (is_group_type (config_type profile.protocol))) [
        | inl group ↦
            detect_cycle-IsFresh regex (with_root profile profiles)
              (suc (length (keys (with_root profile profiles)))) [] []
              (effective_profile_id profile) _ path (λ x h. h)
              (cycle_free_of search_of
                (effective_child_ids regex profile (with_root profile profiles) true
                  fresh_result).ids
                result (rw group at e) v)
              walk
        | inr other ↦
            absurd (let both : false ≡ true = subst IsAccepted (sym (rw other at e)) v in cc)
      ]
