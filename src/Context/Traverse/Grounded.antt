-- ===== src/Context/Traverse/Grounded.antt =====
-- No group contains itself: descending through the children of a map ends.
use voya_vpn.Base.{
  ◌≡◌, sym, ◌∙◌, true, false, List, [], some, Text, text_eq, subst, Bool-cases, inl, inr,
}
use voya_vpn.Entities.{ProfileItem, child_profile_ids}
use voya_vpn.Groups.Profile.{ProfileMap, insert, get, contains}
use voya_vpn.Context.Traverse.Closed.{some_inj, get-insert_other, get-insert_same}

abbrev pub children_of : ProfileItem → List Text
children_of p = child_profile_ids p.protocol

-- Every descent from the id through children ends.
pub data IsGrounded (m : ProfileMap) : Text → Type 0 where
  grounded :
      {id : Text}
      → ((p : ProfileItem) (c : Text)
          → get id m ≡ some p
          → contains c (children_of p) ≡ true
          → IsGrounded m c)
      → IsGrounded m id

pub empty-IsGrounded : (id : Text) → IsGrounded [] id
unfolding get
empty-IsGrounded id = grounded λ p c e among. absurd (cc)

-- Ids whose descents stay among themselves and apart from the key are grounded after an insertion
-- as they were before.
pub insert-IsGrounded_apart :
    (k : Text) (q : ProfileItem) (m : ProfileMap) (Among : Text → Type 0)
    → ((id : Text) → Among id → text_eq id k ≡ false)
    → ((id : Text) (p : ProfileItem) (c : Text)
        → Among id
        → get id m ≡ some p
        → contains c (children_of p) ≡ true
        → Among c)
    → (id : Text) → IsGrounded m id
    → Among id
    → IsGrounded (insert k q m) id
insert-IsGrounded_apart k q m Among away stays id (grounded below) here = grounded λ p c e among.
    let e' : get id m ≡ some p = sym (get-insert_other id k q m (away id here)) ∙ e in
    insert-IsGrounded_apart k q m Among away stays c (below p c e' among)
      (stays id p c here e' among)

-- All ids are grounded after the insertion of a profile whose children are.
pub insert-IsGrounded :
    (k : Text) (q : ProfileItem) (m : ProfileMap)
    → ((c : Text) → contains c (children_of q) ≡ true → IsGrounded (insert k q m) c)
    → (id : Text) → IsGrounded m id
    → IsGrounded (insert k q m) id
insert-IsGrounded k q m children id (grounded below) = grounded λ p c e among.
    elim (Bool-cases (text_eq id k)) [
      | inl same ↦
          let p_is : q ≡ p = some_inj (sym (get-insert_same id k q m same) ∙ e) in
          children c (subst (λ x. contains c (children_of x) ≡ true) (sym p_is) among)
      | inr other ↦
          insert-IsGrounded k q m children c
            (below p c (sym (get-insert_other id k q m other) ∙ e) among)
    ]
