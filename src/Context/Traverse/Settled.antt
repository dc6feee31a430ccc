-- ===== src/Context/Traverse/Settled.antt =====
-- The invariant of a traversal: what is done with stays among itself, in the map, and apart from the
-- groups that the traversal is in.
use voya_vpn.Base.{
  ◌≡◌, refl, sym, ◌∙◌, Bool, true, false, List, [], ◌∷◌, some, Text, text_eq, eq_of_text_eq,
  text_eq_refl, subst, Bool-cases, inl, inr, codes,
}
use voya_vpn.Entities.{ProfileItem}
use voya_vpn.Groups.Profile.{ProfileMap, insert, get, contains}
use voya_vpn.Context.Domains.{starts_with}
use voya_vpn.Context.Maps.{AllKeys, has_key, insert-Extends, or_true}
use voya_vpn.Context.Traverse.Closed.{
  some_inj, get-insert_same, IsClosed, insert-IsClosed, get-insert_other,
}
use voya_vpn.Context.Traverse.Grounded.{
  children_of, IsGrounded, insert-IsGrounded_apart, insert-IsGrounded,
}

-- The keys under which the outbounds of rules stand.
unfoldable pub is_remark : Text → Bool
is_remark = starts_with (codes "remark:")

-- The id has been visited, and is not the one the traversal began with.
pub record IsDone (root : Text) (visited : List Text) (id : Text) : Type 0 where
  pub is_visited : contains id visited ≡ true
  pub is_other : text_eq id root ≡ false
  pub is_plain : is_remark id ≡ false

-- The children that the map has for the id are done with.
abbrev pub ChildrenDone : Text → List Text → ProfileMap → Text → Type 0
ChildrenDone root visited m id =
    (p : ProfileItem) (c : Text)
    → get id m ≡ some p
    → contains c (children_of p) ≡ true
    → IsDone root visited c

pub record IsSettled (root : Text) (ancestors : List Text) (m : ProfileMap) (visited : List Text)
    : Type 0 where
  pub no_dangling : IsClosed m
  pub all_grounded : (id : Text) → IsGrounded m id
  pub present : (id : Text) → IsDone root visited id → has_key id m ≡ true
  pub inward : (id : Text) → IsDone root visited id → ChildrenDone root visited m id
  pub plain :
      (id : Text) (p : ProfileItem) (c : Text)
      → get id m ≡ some p
      → contains c (children_of p) ≡ true
      → is_remark c ≡ false
  pub apart : (id : Text) → contains id ancestors ≡ true → IsDone root visited id → ⊥

-- The set of visited ids has only grown.
abbrev pub Grows : List Text → List Text → Type 0
Grows visited visited' = (id : Text) → contains id visited ≡ true → contains id visited' ≡ true

pub grow :
    {root id : Text} {visited visited' : List Text}
    → Grows visited visited'
    → IsDone root visited id
    → IsDone root visited' id
grow {id = id} g done = record {
  is_visited = g id done.is_visited;
  is_other = done.is_other;
  is_plain = done.is_plain;
}

pub cons-Grows : (id : Text) (visited : List Text) → Grows visited (id ∷ visited)
unfolding contains
cons-Grows id visited x h = rw h (or_true (text_eq x id))

module _ {root : Text} {ancestors : List Text} {m : ProfileMap} {visited : List Text} where
  AllKeys-done :
      (ids : List Text)
      → IsSettled root ancestors m visited
      → ((c : Text) → contains c ids ≡ true → IsDone root visited c)
      → AllKeys ids m
  unfolding contains
  AllKeys-done [] s done = tt
  AllKeys-done (id ∷ ids) s done = (
    s.present id (done id (rw (text_eq_refl id) refl)),
    AllKeys-done ids s λ c h. done c (rw h (or_true (text_eq c id))),
  )

  -- A profile whose children are done with is inserted under an id that is not.
  pub insert-IsSettled :
      (k : Text) (q : ProfileItem)
      → IsSettled root ancestors m visited
      → (IsDone root visited k → ⊥)
      → ((c : Text) → contains c (children_of q) ≡ true → IsDone root visited c)
      → IsSettled root ancestors (insert k q m) visited
  insert-IsSettled k q s undone children = record {
    no_dangling =
        insert-IsClosed k q m s.no_dangling λ own. AllKeys-done (children_of q) s children;
    all_grounded = λ id.
        insert-IsGrounded k q m
          (λ c among.
            insert-IsGrounded_apart k q m (IsDone root visited) away stays c (s.all_grounded c)
              (children c among))
          id (s.all_grounded id);
    present = λ id done. insert-Extends k q m id (s.present id done);
    inward = λ id done p c e among.
        s.inward id done p c (sym (get-insert_other id k q m (away id done)) ∙ e) among;
    plain = plain_after;
    apart = s.apart;
  }
    where
      plain_after :
          (id : Text) (p : ProfileItem) (c : Text)
          → get id (insert k q m) ≡ some p
          → contains c (children_of p) ≡ true
          → is_remark c ≡ false
      plain_after id p c e among = elim (Bool-cases (text_eq id k)) [
        | inl same ↦
            let done = children c (
              subst (λ x. contains c (children_of x) ≡ true)
                (sym (some_inj (sym (get-insert_same id k q m same) ∙ e))) among) in
            done.is_plain
        | inr other ↦ s.plain id p c (sym (get-insert_other id k q m other) ∙ e) among
      ]

      away : (id : Text) → IsDone root visited id → text_eq id k ≡ false
      away id done = elim (Bool-cases (text_eq id k)) [
        | inl same ↦ absurd (undone (subst (IsDone root visited) (eq_of_text_eq id k same) done))
        | inr other ↦ other
      ]

      stays :
          (id : Text) (p : ProfileItem) (c : Text)
          → IsDone root visited id
          → get id m ≡ some p
          → contains c (children_of p) ≡ true
          → IsDone root visited c
      stays id p c done e among = s.inward id done p c e among

  -- An id that is registered with children that are done with is done with itself.
  pub visit-IsSettled :
      (k : Text)
      → IsSettled root ancestors m visited
      → contains k ancestors ≡ false
      → has_key k m ≡ true
      → ChildrenDone root visited m k
      → IsSettled root ancestors m (k ∷ visited)
  unfolding contains
  visit-IsSettled k s outside key children = record {
    no_dangling = s.no_dangling;
    all_grounded = s.all_grounded;
    plain = s.plain;
    present = λ id done. elim (Bool-cases (text_eq id k)) [
      | inl same ↦ subst (λ x. has_key x m ≡ true) (sym (eq_of_text_eq id k same)) key
      | inr other ↦ s.present id (before id done other)
    ];
    inward = λ id done p c e among. grow (cons-Grows k visited) (elim (Bool-cases (text_eq id k)) [
      | inl same ↦ children p c (subst (λ x. get x m ≡ some p) (eq_of_text_eq id k same) e) among
      | inr other ↦ s.inward id (before id done other) p c e among
    ]);
    apart = λ id among done. elim (Bool-cases (text_eq id k)) [
      | inl same ↦
          let here = subst (λ x. contains x ancestors ≡ true) (eq_of_text_eq id k same) among in
          absurd (cc)
      | inr other ↦ s.apart id among (before id done other)
    ];
  }
    where
      before :
          (id : Text) → IsDone root (k ∷ visited) id → text_eq id k ≡ false → IsDone root visited id
      before id done other = record {
        is_visited = rw other at done.is_visited;
        is_other = done.is_other;
        is_plain = done.is_plain;
      }

  -- One more group to be in, that has not been visited.
  pub enter-IsSettled :
      (k : Text)
      → IsSettled root ancestors m visited
      → contains k visited ≡ false
      → IsSettled root (k ∷ ancestors) m visited
  unfolding contains
  enter-IsSettled k s new = record {
    no_dangling = s.no_dangling;
    all_grounded = s.all_grounded;
    present = s.present;
    inward = s.inward;
    plain = s.plain;
    apart = λ id among done. elim (Bool-cases (text_eq id k)) [
      | inl same ↦
          let here =
            subst (λ x. contains x visited ≡ true) (eq_of_text_eq id k same) done.is_visited in
          absurd (cc)
      | inr other ↦ s.apart id (rw other at among) done
    ];
  }

pub leave-IsSettled :
    {root : Text} {ancestors : List Text} {m : ProfileMap} {visited : List Text} (k : Text)
    → IsSettled root (k ∷ ancestors) m visited
    → IsSettled root ancestors m visited
leave-IsSettled {ancestors = ancestors} k s = record {
  no_dangling = s.no_dangling;
  all_grounded = s.all_grounded;
  present = s.present;
  inward = s.inward;
  plain = s.plain;
  apart = λ id among done. s.apart id (cons-Grows k ancestors id among) done;
}
