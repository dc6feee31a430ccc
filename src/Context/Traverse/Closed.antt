-- ===== src/Context/Traverse/Closed.antt =====
-- No dangling children: the children of the groups in a map are in the map.
use voya_vpn.Base.{
  ◌≡◌, refl, sym, ◌∙◌, true, false, [], none, some, Text, text_eq, eq_of_text_eq, subst, Bool-cases,
  inl, inr, ap,
}
use voya_vpn.Entities.{ProfileItem, child_profile_ids}
use voya_vpn.Groups.Profile.{ProfileMap, insert, get}
use voya_vpn.Context.Maps.{AllKeys, AllKeys-Extends, get-insert, insert-Extends}

pub some_inj {ℓ} : {A : Type ℓ} {x y : A} → some x ≡ some y → x ≡ y
some_inj {x = x} e = ap (λ o. elim o [ none ↦ x | some z ↦ z ]) e

-- What a map has under an id after an insertion, elsewhere than at the key.
pub get-insert_other :
    (id k : Text) (p : ProfileItem) (m : ProfileMap)
    → text_eq id k ≡ false
    → get id (insert k p m) ≡ get id m
get-insert_other id k p m other = rw (get-insert id k p m, other) refl

pub get-insert_same :
    (id k : Text) (p : ProfileItem) (m : ProfileMap)
    → text_eq id k ≡ true
    → get id (insert k p m) ≡ some p
get-insert_same id k p m same = rw (get-insert id k p m, same) refl

-- Profiles under their own ids have their children in the map.
pub record IsClosed (m : ProfileMap) : Type 0 where
  pub closed :
      (id : Text) (p : ProfileItem)
      → get id m ≡ some p
      → text_eq p.index_id id ≡ true
      → AllKeys (child_profile_ids p.protocol) m

pub empty-IsClosed : IsClosed []
unfolding get
empty-IsClosed = record { closed = λ id p e h. absurd (cc) }

pub insert-IsClosed :
    (k : Text) (p : ProfileItem) (m : ProfileMap)
    → IsClosed m
    → (text_eq p.index_id k ≡ true → AllKeys (child_profile_ids p.protocol) m)
    → IsClosed (insert k p m)
insert-IsClosed k p m c h = record { closed = closed_under }
  where
    closed_under :
        (id : Text) (q : ProfileItem)
        → get id (insert k p m) ≡ some q
        → text_eq q.index_id id ≡ true
        → AllKeys (child_profile_ids q.protocol) (insert k p m)
    closed_under id q e own = elim (Bool-cases (text_eq id k)) [
      | inl same ↦
          let q_is : p ≡ q = some_inj (sym (get-insert_same id k p m same) ∙ e) in
          let own_p : text_eq p.index_id k ≡ true =
            subst (λ x. text_eq x.index_id k ≡ true) (sym q_is)
              (subst (λ x. text_eq q.index_id x ≡ true) (eq_of_text_eq id k same) own) in
          subst (λ x. AllKeys (child_profile_ids x.protocol) (insert k p m)) q_is
            (AllKeys-Extends (child_profile_ids p.protocol) m (insert k p m) (insert-Extends k p m)
              (h own_p))
      | inr other ↦
          AllKeys-Extends (child_profile_ids q.protocol) m (insert k p m) (insert-Extends k p m)
            (c.closed id q (sym (get-insert_other id k p m other) ∙ e) own)
    ]
