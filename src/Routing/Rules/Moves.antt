-- ===== src/Routing/Rules/Moves.antt =====
-- A rule that is moved stands where the action says, and the others keep their order.
use voya_vpn.Base.{
  ℕ, zero, suc, ℤ, pos, negsuc, ◌-◌, ◌≤◌, ◌<◌, ◌≡◌, refl, sym, ◌∙◌, ap, List, [], ◌∷◌, Option, none,
  some, ◌==◌, leb, if◌then◌else◌, length, arith, Bool-cases, inl, inr,
}
use Prim.Native.Nat.{min}
use voya_vpn.Routing.Rules.{
  MoveAction, top, up, down, bottom, position, position_or_zero, moved_index, remove_at, insert_at,
  adjusted, moved,
}

module _ {ℓ} {A : Type ℓ} where
  -- An element in range is taken out.
  record Removed (i : ℕ) (xs : List A) : Type ℓ where
    element : A
    others : List A
    removed : remove_at i xs ≡ some (element, others)
    one_less : suc (length others) ≡ length xs

  remove_at_in_range : (i : ℕ) (xs : List A) → i < length xs → Removed i xs
  unfolding remove_at
  remove_at_in_range i [] h = absurd (omega arith)
  remove_at_in_range zero (x ∷ xs) h = record {
    element = x;
    others = xs;
    removed = refl;
    one_less = refl;
  }
  remove_at_in_range (suc i) (x ∷ xs) h =
      let r = remove_at_in_range i xs (omega arith) in
      record {
        element = r.element;
        others = x ∷ r.others;
        removed = rw r.removed refl;
        one_less = ap suc r.one_less;
      }

  -- An element that is inserted in range is taken out again from its place.
  insert-remove :
      (i : ℕ) (x : A) (xs : List A)
      → i ≤ length xs
      → (ys : List A) × ((insert_at i x xs ≡ some ys) × (remove_at i ys ≡ some (x, xs)))
  unfolding insert_at remove_at
  insert-remove zero x xs h = (x ∷ xs, (refl, refl))
  insert-remove (suc i) x [] h = absurd (omega arith)
  insert-remove (suc i) x (y ∷ xs) h =
      let (ys, (inserted, removed)) = insert-remove i x xs (omega arith) in
      (y ∷ ys, (rw inserted refl, rw removed refl))

-- The place that an action means, among as many elements.
abbrev pub place_of : MoveAction → Option ℤ → ℕ → ℕ → ℕ
place_of top place index count = 0
place_of up place index count = index - 1
place_of down place index count = min (suc index) (count - 1)
place_of bottom place index count = count - 1
place_of position place index count = elim (position_or_zero place) [
  | pos n ↦ if leb n index then n else min n count - 1
  | negsuc n ↦ index
]

abbrev final : ℕ → ℕ → ℕ
final index next = if next == index then index else adjusted index next

final-place_of :
    (action : MoveAction) (place : Option ℤ) (index count next : ℕ)
    → index < count
    → moved_index index count action place ≡ some next
    → (final index next ≡ place_of action place index count) × (next ≤ count)
unfolding moved_index
final-place_of action place index count next h e = by_action action e
  where
    by_action :
        (a : MoveAction)
        → moved_index index count a place ≡ some next
        → (final index next ≡ place_of a place index count) × (next ≤ count)
    by_action top e = (ground arith, ground arith)
    by_action up e = (ground arith, ground arith)
    by_action down e = (ground arith, ground arith)
    by_action bottom e = (ground arith, ground arith)
    by_action position e = by_position (position_or_zero place) e
      where
        by_position :
            (p : ℤ)
            → (elim p as (λ _. Option ℕ) [ pos n ↦ some (min n count) | negsuc n ↦ none ])
              ≡ some next
            → (final index next ≡ (elim p as (λ _. ℕ) [
              | pos n ↦ if leb n index then n else min n count - 1
              | negsuc n ↦ index
            ]))
              × (next ≤ count)
        by_position (pos n) e = (ground arith, ground arith)
        by_position (negsuc n) e = absurd (cc)

module _ {ℓ} {A : Type ℓ} where
  moved-some :
      (index next : ℕ) (xs : List A)
      → index < length xs
      → next ≤ length xs
      → (ys : List A) × ((moved index next xs ≡ some ys)
          × (remove_at (final index next) ys ≡ remove_at index xs))
  unfolding moved
  moved-some index next xs h g = elim (Bool-cases (next == index)) [
    | inl same ↦ (xs, (rw same refl, rw same refl))
    | inr other ↦
        let r = remove_at_in_range index xs h in
        let (ys, (inserted, removed)) =
          insert-remove (adjusted index next) r.element r.others
            (let fewer = r.one_less in ground (arith, other, fewer, h, g)) in
        (ys, (rw (other, r.removed) inserted, rw other (removed ∙ sym r.removed)))
  ]

  -- An element that is moved by an action, which gives a place for it, stands where the action
  -- says: at the front, one further to the front or to the back as far as there is one, at the end,
  -- or in front of what stood at a position that was given. The others keep their order, and no
  -- index is out of range.
  pub moved-place_of :
      (action : MoveAction) (place : Option ℤ) (index next : ℕ) (xs : List A)
      → index < length xs
      → moved_index index (length xs) action place ≡ some next
      → (ys : List A) × ((moved index next xs ≡ some ys)
          × (remove_at (place_of action place index (length xs)) ys ≡ remove_at index xs))
  moved-place_of action place index next xs h e =
      let (at_place, in_range) = final-place_of action place index (length xs) next h e in
      let (ys, (m, r)) = moved-some index next xs h in_range in
      (ys, (m, ap (λ i. remove_at i ys) (sym at_place) ∙ r))
