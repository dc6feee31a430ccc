-- ===== src/Groups/Cycle/Laws.antt =====
-- The search for cycles ends.
use voya_vpn.Base.{
  for_each-Returns, Each-trivial, Returns, for_each, ℕ, zero, suc, ◌<◌, ◌≤◌, ◌≡◌, refl, Bool, true,
  false, List, [], ◌∷◌, ◌++◌, Option, none, some, if◌then◌else◌, Text, text_eq, eq_of_text_eq,
  text_eq_refl, subst, sym, arith, length, Bool-cases, inl, inr,
}
use voya_vpn.Entities.{is_group_type, ProfileItem, config_type}
use voya_vpn.Groups.Profile.{ProfileMap, get, contains, keys}
use voya_vpn.Groups.Children.{GroupValidationResult, effective_child_ids}
use voya_vpn.Groups.Cycle.{detect_cycle}

-- The ids that are not yet being visited.
abbrev pub unvisited : List Text → List Text → ℕ
unvisited [] visiting = 0
unvisited (k ∷ ks) visiting =
    if contains k visiting then unvisited ks visiting else suc (unvisited ks visiting)

pub unvisited_le : (ks visiting : List Text) → unvisited ks visiting ≤ length ks
unvisited_le [] visiting = omega arith
unvisited_le (k ∷ ks) visiting = ground (arith, unvisited_le ks visiting)

unvisited_mono :
    (id : Text) (ks visiting : List Text) → unvisited ks (id ∷ visiting) ≤ unvisited ks visiting
unfolding contains
unvisited_mono id [] visiting = omega arith
unvisited_mono id (k ∷ ks) visiting = ground (arith, unvisited_mono id ks visiting)

unvisited-head :
    (k : Text) (ks visiting : List Text)
    → contains k visiting ≡ false
    → unvisited (k ∷ ks) (k ∷ visiting) < unvisited (k ∷ ks) visiting
unfolding contains
unvisited-head k ks visiting new =
    rw (text_eq_refl k, new)
      (let h = unvisited_mono k ks visiting in unfold contains in omega (arith, h))

-- Visiting one more id of the map leaves fewer.
pub unvisited-lt :
    (id : Text) (ks visiting : List Text)
    → contains id visiting ≡ false
    → contains id ks ≡ true
    → unvisited ks (id ∷ visiting) < unvisited ks visiting
unfolding contains
unvisited-lt id [] visiting new among = cc
unvisited-lt id (k ∷ ks) visiting new among = elim (Bool-cases (text_eq id k)) [
  | inl same ↦
      subst (λ x. unvisited (k ∷ ks) (x ∷ visiting) < unvisited (k ∷ ks) visiting)
        (sym (eq_of_text_eq id k same))
        (unvisited-head k ks visiting
          (subst (λ x. contains x visiting ≡ false) (eq_of_text_eq id k same) new))
  | inr other ↦
      let h = unvisited-lt id ks visiting new (rw other at among) in
      let g = unvisited_mono id ks visiting in ground (arith, h, g)
]

contains-keys :
    (id : Text) (m : ProfileMap) (profile : ProfileItem)
    → get id m ≡ some profile
    → contains id (keys m) ≡ true
unfolding get contains
contains-keys id [] profile e = cc
contains-keys id ((k, p) ∷ m) profile e = elim (Bool-cases (text_eq id k)) [
  | inl same ↦ rw same
  | inr other ↦ rw other (contains-keys id m profile (rw other at e))
]

module _ (regex : Text → Option (Text → Bool)) (m : ProfileMap) where
  -- With more fuel than ids that are not yet visited, a call gives a result.
  pub detect_cycle-Returns :
      (fuel : ℕ) (visiting stack : List Text) (id : Text) (result : GroupValidationResult)
      → unvisited (keys m) visiting < fuel
      → Returns (detect_cycle regex m fuel visiting stack id result)
  unfolding detect_cycle
  detect_cycle-Returns zero visiting stack id result enough = absurd (omega arith)
  detect_cycle-Returns (suc fuel) visiting stack id result enough =
      elim (Bool-cases (contains id visiting)) [
        | inl visited ↦ rw visited tt
        | inr new ↦ rw new (
            by_profile new
              (λ c r h. detect_cycle-Returns fuel (id ∷ visiting) (stack ++ (id ∷ [])) c r h)
              (get id m) refl)
      ]
    where
      by_profile :
          contains id visiting ≡ false
          → ((c : Text) (r : GroupValidationResult)
              → unvisited (keys m) (id ∷ visiting) < fuel
              → Returns (detect_cycle regex m fuel (id ∷ visiting) (stack ++ (id ∷ [])) c r))
          → (o : Option ProfileItem) → get id m ≡ o
          → Returns (elim o [
            | none ↦ some result
            | some profile ↦
                if is_group_type (config_type profile.protocol)
                then (let children = effective_child_ids regex profile m false result in
                    for_each
                      (detect_cycle regex m fuel (id ∷ visiting) (stack ++ (id ∷ [])))
                      children.ids
                      children.result)
                else some result
          ])
      by_profile new inner none e = tt
      by_profile new inner (some profile) e =
          let fewer = unvisited-lt id (keys m) visiting new (contains-keys id m profile e) in
          let children = effective_child_ids regex profile m false result in
          elim (Bool-cases (is_group_type (config_type profile.protocol))) [
            | inl group ↦ rw group (
                for_each-Returns (λ x. Unit)
                  (detect_cycle regex m fuel (id ∷ visiting) (stack ++ (id ∷ []))) children.ids
                  children.result (λ c r q. inner c r (omega (arith, fewer, enough)))
                  (Each-trivial children.ids))
            | inr other ↦ rw other tt
          ]
