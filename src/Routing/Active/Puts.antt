-- ===== src/Routing/Active/Puts.antt =====
-- A row that is written keeps the setting in step with the active routing.
use voya_vpn.Base.{
  ◌≡◌, refl, sym, ◌∙◌, ap, Bool, true, false, List, [], ◌∷◌, Option, none, some, if◌then◌else◌,
  Text, text_eq, eq_of_text_eq, subst, Bool-cases, inl, inr,
}
use voya_vpn.Entities.Routing.{RoutingItem}
use voya_vpn.Context.Env.{find}
use voya_vpn.Routing.Table.{ManagerState, get_row, upsert_row, active_row, is_present}
use voya_vpn.Routing.Active.Laws.{Matches, IsInStep, get_row-id}

upsert_row-get_row :
    (item : RoutingItem) (id : Text) (rows : List RoutingItem)
    → is_present (get_row id rows) ≡ true
    → is_present (get_row id (upsert_row item rows)) ≡ true
unfolding get_row find upsert_row
upsert_row-get_row item id [] h = absurd (cc)
upsert_row-get_row item id (row ∷ rows) h = elim (Bool-cases (text_eq row.id item.id)) [
  | inl same ↦ rw same (
      subst
        (λ x.
          is_present (if text_eq x id then some item else find (λ r. text_eq r.id id) rows) ≡ true)
        (eq_of_text_eq row.id item.id same) (by_head (text_eq row.id id) h))
  | inr other ↦ rw other (elim (Bool-cases (text_eq row.id id)) [
    | inl here ↦ rw here refl
    | inr later ↦ rw later (upsert_row-get_row item id rows (rw later at h))
  ])
]
  where
    by_head :
        (b : Bool)
        → is_present (if b then some row else find (λ r. text_eq r.id id) rows) ≡ true
        → is_present (if b then some item else find (λ r. text_eq r.id id) rows) ≡ true
    by_head true k = refl
    by_head false k = k

no_row : (id : Text) (found : RoutingItem) → get_row id [] ≡ some found → ⊥
unfolding get_row find
no_row id found h = absurd (cc)

-- A row is written where there were rows.
pub put-IsInStep :
    (state : ManagerState) (item found : RoutingItem) (id : Text)
    → get_row id state.database.rows ≡ some found
    → IsInStep state
    → IsInStep (record state {
      database = record state.database { rows = upsert_row item state.database.rows };
    })
unfolding active_row
put-IsInStep state item found id e step = by_active state.database.active_routing_id step
  where
    by_row :
        (active : Text) (o o' : Option RoutingItem)
        → get_row active state.database.rows ≡ o
        → get_row active (upsert_row item state.database.rows) ≡ o'
        → Matches o state.database.rows state.routing_index_id
        → Matches o' (upsert_row item state.database.rows) state.routing_index_id
    by_row active none o' f g (empty, blank) =
        absurd (no_row id found (subst (λ x. get_row id x ≡ some found) empty e))
    by_row active (some row) none f g m =
        let h = upsert_row-get_row item active state.database.rows (ap is_present f) in
        absurd (lost (sym (ap is_present g) ∙ h))
      where
        lost : false ≡ true → ⊥
        lost k = absurd (cc)
    by_row active (some row) (some row') f g m =
        get_row-id active (upsert_row item state.database.rows) row' g
        ∙ (sym (get_row-id active state.database.rows row f) ∙ m)

    by_active :
        (a : Option Text)
        → Matches
            (elim a as (λ _. Option RoutingItem) [
              | none ↦ none
              | some active ↦ get_row active state.database.rows
            ])
            state.database.rows
            state.routing_index_id
        → Matches
            (elim a as (λ _. Option RoutingItem) [
              | none ↦ none
              | some active ↦ get_row active (upsert_row item state.database.rows)
            ])
            (upsert_row item state.database.rows)
            state.routing_index_id
    by_active none (empty, blank) =
        absurd (no_row id found (subst (λ x. get_row id x ≡ some found) empty e))
    by_active (some active) m =
        by_row active (get_row active state.database.rows)
          (get_row active (upsert_row item state.database.rows)) refl refl m
