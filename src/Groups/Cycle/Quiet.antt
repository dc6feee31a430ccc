-- ===== src/Groups/Cycle/Quiet.antt =====
-- A search that reports no cycle: its loops and its reports.
use voya_vpn.Base.{
  for_each, ◌≡◌, refl, Bool, true, false, List, [], ◌∷◌, ◌++◌, Option, none, some, Text, text_eq,
  eq_of_text_eq, subst, sym, arith, Bool-cases, inl, inr,
}
use voya_vpn.Groups.Profile.{contains}
use voya_vpn.Groups.Children.{
  GroupValidationResult, GroupError, not_a_group, no_valid_children, child_not_found,
  cycle_dependency,
}
use voya_vpn.Groups.Cycle.{from_first, report_cycle}

-- No cycle is reported.
abbrev pub is_cycle_free : List GroupError → Bool
is_cycle_free [] = true
is_cycle_free (cycle_dependency path ∷ es) = false
is_cycle_free (not_a_group ∷ es) = is_cycle_free es
is_cycle_free (no_valid_children t ∷ es) = is_cycle_free es
is_cycle_free (child_not_found id ∷ es) = is_cycle_free es

-- The search ends and reports no cycle.
abbrev pub IsQuiet : Option GroupValidationResult → Type 0
IsQuiet none = ⊥
IsQuiet (some r) = is_cycle_free r.errors ≡ true

append-loud :
    (es : List GroupError) (path : List Text)
    → is_cycle_free (es ++ (cycle_dependency path ∷ [])) ≡ false
append-loud [] path = refl
append-loud (cycle_dependency p ∷ es) path = refl
append-loud (not_a_group ∷ es) path = append-loud es path
append-loud (no_valid_children t ∷ es) path = append-loud es path
append-loud (child_not_found id ∷ es) path = append-loud es path

-- A body that runs quietly began without a report.
abbrev pub Began : (Text → GroupValidationResult → Option GroupValidationResult) → Type 0
Began body =
    (id : Text) (r : GroupValidationResult) → IsQuiet (body id r) → is_cycle_free r.errors ≡ true

module _ (body : Text → GroupValidationResult → Option GroupValidationResult)
    (began : Began body) where
  pub for_each-began :
      (ids : List Text) (r : GroupValidationResult)
      → IsQuiet (for_each body ids r)
      → is_cycle_free r.errors ≡ true
  unfolding for_each
  for_each-began [] r quiet = quiet
  for_each-began (id ∷ ids) r quiet =
      began id r (by_step (body id r) quiet λ r' q. for_each-began ids r' q)
    where
      by_step :
          (o : Option GroupValidationResult)
          → IsQuiet (elim o as (λ _. Option GroupValidationResult) [
            | none ↦ none
            | some r' ↦ for_each body ids r'
          ])
          → ((r' : GroupValidationResult)
              → IsQuiet (for_each body ids r')
              → is_cycle_free r'.errors ≡ true)
          → IsQuiet o
      by_step none q rest = q
      by_step (some r') q rest = rest r' q

  -- Each round of a quiet loop is quiet.
  pub for_each-round :
      (ids : List Text) (r : GroupValidationResult) (b : Text)
      → IsQuiet (for_each body ids r)
      → contains b ids ≡ true
      → (r' : GroupValidationResult) × IsQuiet (body b r')
  unfolding for_each contains
  for_each-round [] r b quiet among = absurd (cc)
  for_each-round (id ∷ ids) r b quiet among =
      by_step (body id r) refl quiet (λ r' q. for_each-began ids r' q)
        λ r' q here. for_each-round ids r' b q here
    where
      by_step :
          (o : Option GroupValidationResult)
          → body id r ≡ o
          → IsQuiet (elim o as (λ _. Option GroupValidationResult) [
            | none ↦ none
            | some r' ↦ for_each body ids r'
          ])
          → ((r' : GroupValidationResult)
              → IsQuiet (for_each body ids r')
              → is_cycle_free r'.errors ≡ true)
          → ((r' : GroupValidationResult)
              → IsQuiet (for_each body ids r')
              → contains b ids ≡ true
              → (r'' : GroupValidationResult) × IsQuiet (body b r''))
          → (r' : GroupValidationResult) × IsQuiet (body b r')
      by_step none e q first rest = absurd q
      by_step (some r') e q first rest = elim (Bool-cases (text_eq b id)) [
        | inl same ↦ (
          r,
          subst (λ x. IsQuiet (body x r)) (sym (eq_of_text_eq b id same))
              (subst IsQuiet (sym e) (first r' q)),
        )
        | inr other ↦ rest r' q (rw other at among)
      ]

pub report_cycle-began :
    (id : Text) (stack : List Text) (r : GroupValidationResult)
    → is_cycle_free (report_cycle id stack r).errors ≡ true
    → is_cycle_free r.errors ≡ true
unfolding report_cycle
report_cycle-began id stack r = by_place (from_first id stack)
  where
    by_place :
        (o : Option (List Text))
        → is_cycle_free
            (elim o as (λ _. GroupValidationResult) [
              | none ↦ r
              | some path ↦ record r {
                errors = r.errors ++ (cycle_dependency (path ++ (id ∷ [])) ∷ []);
              }
            ]).errors
          ≡ true
        → is_cycle_free r.errors ≡ true
    by_place none h = h
    by_place (some path) h =
        absurd (let both : false ≡ true = rw (append-loud r.errors (path ++ (id ∷ []))) at h in cc)

text_eq_comm : (s t : Text) → text_eq s t ≡ text_eq t s
text_eq_comm [] [] = refl
text_eq_comm [] (b ∷ t) = refl
text_eq_comm (a ∷ s) [] = refl
text_eq_comm (a ∷ s) (b ∷ t) = ground (arith, text_eq_comm s t)

from_first-found :
    (id : Text) (stack : List Text)
    → contains id stack ≡ true
    → (path : List Text) × (from_first id stack ≡ some path)
unfolding from_first contains
from_first-found id [] h = absurd (cc)
from_first-found id (s ∷ stack) h = elim (Bool-cases (text_eq s id)) [
  | inl same ↦ (s ∷ stack, rw same)
  | inr other ↦
      let differs : text_eq id s ≡ false = rw⁻¹ (text_eq_comm s id) other in
      let (path, e) = from_first-found id stack (rw differs at h) in (path, rw other e)
]

pub report_cycle-loud :
    (id : Text) (stack : List Text) (r : GroupValidationResult)
    → contains id stack ≡ true
    → is_cycle_free (report_cycle id stack r).errors ≡ false
unfolding report_cycle
report_cycle-loud id stack r h =
    let (path, e) = from_first-found id stack h in by_place (from_first id stack) path e
  where
    by_place :
        (o : Option (List Text)) (path : List Text)
        → o ≡ some path
        → is_cycle_free
            (elim o as (λ _. GroupValidationResult) [
              | none ↦ r
              | some path' ↦ record r {
                errors = r.errors ++ (cycle_dependency (path' ++ (id ∷ [])) ∷ []);
              }
            ]).errors
          ≡ false
    by_place none path e = absurd (cc)
    by_place (some path') path e = append-loud r.errors (path' ++ (id ∷ []))
