-- ===== src/Routing/Active/Laws.antt =====
-- The setting names the active routing.
use voya_vpn.Base.{
  ◌≡◌, refl, sym, ap, Bool, true, false, List, [], ◌∷◌, Option, none, some, if◌then◌else◌, Text,
  text_eq, text_eq_refl, eq_of_text_eq, is_empty, trim, subst, Bool-cases, inl, inr,
}
use voya_vpn.Entities.Routing.{RoutingItem}
use voya_vpn.Context.Env.{find}
use voya_vpn.Context.Traverse.Closed.{some_inj}
use voya_vpn.Routing.Table.{
  ManagerState, get_row, is_present, row_exists, first_row, least_row, comes_before, active_row,
  set_active,
}
use voya_vpn.Routing.Active.{
  activate, activate_first, activate_configured, configured, keep_active, ensure_active_routing,
}

-- The setting is the id of the active row. There is one if there are rows at all.
abbrev pub Matches : Option RoutingItem → List RoutingItem → Text → Type 0
Matches none rows setting = (rows ≡ []) × (setting ≡ [])
Matches (some row) rows setting = row.id ≡ setting

abbrev pub IsInStep : ManagerState → Type 0
IsInStep state = Matches (active_row state.database) state.database.rows state.routing_index_id

pub get_row-id :
    (id : Text) (rows : List RoutingItem) (row : RoutingItem)
    → get_row id rows ≡ some row
    → row.id ≡ id
unfolding get_row find
get_row-id id [] row e = absurd (cc)
get_row-id id (r ∷ rows) row e = elim (Bool-cases (text_eq r.id id)) [
  | inl here ↦ subst (λ x. x.id ≡ id) (some_inj (rw here at e)) (eq_of_text_eq r.id id here)
  | inr other ↦ get_row-id id rows row (rw other at e)
]

least_row-exists :
    (best : RoutingItem) (rows : List RoutingItem)
    → row_exists (least_row best rows).id (best ∷ rows) ≡ true
unfolding least_row row_exists get_row find
least_row-exists best [] = rw (text_eq_refl best.id) refl
least_row-exists best (row ∷ rows) =
    by_choice (comes_before row best) (least_row-exists row rows) (least_row-exists best rows)
  where
    by_found :
        (o : Option RoutingItem) (r : RoutingItem) (b : Bool)
        → is_present o ≡ true
        → is_present (if b then some r else o) ≡ true
    by_found o r true h = refl
    by_found o r false h = h

    skip_second :
        (o : Option RoutingItem) (r s : RoutingItem) (b c : Bool)
        → is_present (if b then some r else o) ≡ true
        → is_present (if b then some r else if c then some s else o) ≡ true
    skip_second o r s true c h = refl
    skip_second o r s false true h = refl
    skip_second o r s false false h = h

    by_choice :
        (b : Bool)
        → row_exists (least_row row rows).id (row ∷ rows) ≡ true
        → row_exists (least_row best rows).id (best ∷ rows) ≡ true
        → row_exists (least_row (if b then row else best) rows).id (best ∷ row ∷ rows) ≡ true
    by_choice true h k = by_found _ _ (text_eq best.id (least_row row rows).id) h
    by_choice false h k =
        skip_second _ _ _ (text_eq best.id (least_row best rows).id)
          (text_eq row.id (least_row best rows).id) k

-- A row that exists is active once it has been activated.
activate-IsInStep :
    (row : RoutingItem) (state : ManagerState)
    → row_exists row.id state.database.rows ≡ true
    → IsInStep (activate row state)
unfolding activate set_active active_row row_exists
activate-IsInStep row state h = rw h (by_row (get_row row.id state.database.rows) refl h)
  where
    by_row :
        (o : Option RoutingItem)
        → get_row row.id state.database.rows ≡ o
        → is_present o ≡ true
        → Matches o state.database.rows row.id
    by_row none e p = absurd (cc)
    by_row (some r) e p = get_row-id row.id state.database.rows r e

activate_first-IsInStep :
    (state : ManagerState)
    → active_row state.database ≡ none
    → IsInStep (activate_first (first_row state.database.rows) state)
unfolding first_row activate_first
activate_first-IsInStep state none_active = by_rows state.database.rows refl
  where
    by_rows :
        (rows : List RoutingItem)
        → state.database.rows ≡ rows
        → IsInStep (activate_first (first_row rows) state)
    by_rows [] e = rw none_active (e, refl)
    by_rows (row ∷ rows) e = activate-IsInStep (least_row row rows) state (
        subst (λ x. row_exists (least_row row rows).id x ≡ true) (sym e)
          (least_row-exists row rows))

-- After it has been ensured, the setting names the active routing, and there is one unless there is
-- no routing at all.
pub ensure_active_routing-IsInStep : (state : ManagerState) → IsInStep (ensure_active_routing state)
unfolding ensure_active_routing activate_configured row_exists
ensure_active_routing-IsInStep state = by_active (active_row state.database) refl
  where
    by_active :
        (o : Option RoutingItem) → active_row state.database ≡ o → IsInStep (keep_active o state)
    by_active (some row) e = rw e refl
    by_active none e = by_configured (configured state) refl
      where
        by_configured :
            (c : Option RoutingItem) → configured state ≡ c → IsInStep (activate_configured c state)
        by_configured none f = activate_first-IsInStep state e
        by_configured (some item) f = activate-IsInStep item state (found f)
          where
            found : configured state ≡ some item → row_exists item.id state.database.rows ≡ true
            found g = elim (Bool-cases (is_empty (trim state.routing_index_id))) [
              | inl blank ↦ let h = rw blank at g in absurd (cc)
              | inr named ↦
                  let h : get_row (trim state.routing_index_id) state.database.rows ≡ some item =
                    rw named at g in
                  subst (λ x. row_exists x state.database.rows ≡ true)
                    (sym (get_row-id (trim state.routing_index_id) state.database.rows item h))
                    (ap is_present h)
            ]
