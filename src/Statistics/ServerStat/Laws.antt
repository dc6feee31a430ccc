-- ===== src/Statistics/ServerStat/Laws.antt =====
-- What the table holds after traffic is added.
use voya_vpn.Base.{
  ℤ, pos, ◌≡◌, refl, true, false, if◌then◌else◌, [], ◌∷◌, Option, none, some, Text, text_eq,
  eq_of_text_eq, Bool-cases, inl, inr, ◌∙◌, sym, subst,
}
use voya_vpn.Statistics.Integer.{max_zero, saturating_add}
use voya_vpn.Statistics.ServerStat.{
  ServerStatItem, Table, i64_eq, upsert, get_stat, rolled, new_stat, ensure_row, ensure,
  with_traffic, add_traffic,
}

apart_of : (a b c : Text) → text_eq a c ≡ true → text_eq b c ≡ false → text_eq a b ≡ false
apart_of a b c same apart = elim (Bool-cases (text_eq a b)) [
  | inr e ↦ e
  | inl e ↦
      let a_c : a ≡ c = eq_of_text_eq a c same in
      let a_b : a ≡ b = eq_of_text_eq a b e in
      let b_c : text_eq b c ≡ true = subst (λ x. text_eq x c ≡ true) a_b same in absurd (cc)
]

get_stat-upsert :
    (other : Text) (item : ServerStatItem) (t : Table)
    → get_stat other (upsert item t)
      ≡ (if text_eq other item.index_id then some item else get_stat other t)
unfolding get_stat upsert
get_stat-upsert other item [] = refl
get_stat-upsert other item (row ∷ rows) = elim (Bool-cases (text_eq item.index_id row.index_id)) [
  | inl same ↦
      rw (same, upsert, sym (eq_of_text_eq item.index_id row.index_id same))
        (elim (Bool-cases (text_eq other item.index_id)) [ inl e ↦ rw e | inr e ↦ rw e ])
  | inr apart ↦
      rw (apart, upsert)
        (elim (Bool-cases (text_eq other row.index_id)) [
          | inl here ↦
              let away : text_eq other item.index_id ≡ false =
                apart_of other item.index_id row.index_id here apart in
              rw (here, get_stat, away)
          | inr there ↦ rw (there, get_stat) (get_stat-upsert other item rows)
        ])
]

abbrev NamedIfAny : Text → Option ServerStatItem → Type 0
NamedIfAny index_id none = Unit
NamedIfAny index_id (some row) = row.index_id ≡ index_id

get_stat-NamedIfAny : (index_id : Text) (t : Table) → NamedIfAny index_id (get_stat index_id t)
unfolding get_stat
get_stat-NamedIfAny index_id [] = tt
get_stat-NamedIfAny index_id (row ∷ rows) = elim (Bool-cases (text_eq index_id row.index_id)) [
  | inl same ↦ rw (same, get_stat) (sym (eq_of_text_eq index_id row.index_id same))
  | inr other ↦ rw (other, get_stat) (get_stat-NamedIfAny index_id rows)
]

-- The row that traffic is added to.
abbrev start_of : Text → ℤ → Option ServerStatItem → ServerStatItem
start_of index_id date_now none = new_stat index_id date_now
start_of index_id date_now (some row) = rolled date_now row

start_of-index_id :
    (index_id : Text) (date_now : ℤ) (o : Option ServerStatItem)
    → NamedIfAny index_id o
    → (start_of index_id date_now o).index_id ≡ index_id
unfolding new_stat rolled
start_of-index_id index_id date_now none h = refl
start_of-index_id index_id date_now (some row) h =
    elim (Bool-cases (i64_eq row.date_now date_now)) [
      | inl same ↦ rw (same, rolled) h
      | inr other ↦ rw (other, rolled) h
    ]

ensure_row_lem :
    (index_id : Text) (date_now : ℤ) (o : Option ServerStatItem) (t : Table)
    → (ensure_row index_id date_now o t).0 ≡ start_of index_id date_now o
unfolding ensure_row rolled
ensure_row_lem index_id date_now none t = refl
ensure_row_lem index_id date_now (some row) t = elim (Bool-cases (i64_eq row.date_now date_now)) [
  | inl same ↦ rw (same, ensure_row, rolled) refl
  | inr other ↦ rw (other, ensure_row, rolled) refl
]

ensure_lem :
    (index_id : Text) (date_now : ℤ) (t : Table)
    → (ensure index_id date_now t).0 ≡ start_of index_id date_now (get_stat index_id t)
unfolding ensure
ensure_lem index_id date_now t = ensure_row_lem index_id date_now (get_stat index_id t) t

-- What a row had, and 0 where there was none.
abbrev pub so_far : (ServerStatItem → ℤ) → Option ServerStatItem → ℤ
so_far field none = pos 0
so_far field (some row) = field row

-- What a row had on this day, and 0 where there was none or it was of another day.
abbrev pub so_far_on : ℤ → (ServerStatItem → ℤ) → Option ServerStatItem → ℤ
so_far_on date_now field none = pos 0
so_far_on date_now field (some row) = if i64_eq row.date_now date_now then field row else pos 0

-- The row after traffic is added to what there was before, if anything.
pub record Added (index_id : Text) (date_now up down : ℤ) (before : Option ServerStatItem)
    (row : ServerStatItem) : Type 0 where
  pub named : row.index_id ≡ index_id
  pub dated : row.date_now ≡ date_now
  pub all_up : row.total_up ≡ saturating_add (so_far (λ r. r.total_up) before) (max_zero up)
  pub all_down : row.total_down ≡ saturating_add (so_far (λ r. r.total_down) before) (max_zero down)
  pub day_up :
      row.today_up ≡ saturating_add (so_far_on date_now (λ r. r.today_up) before) (max_zero up)
  pub day_down :
      row.today_down
      ≡ saturating_add (so_far_on date_now (λ r. r.today_down) before) (max_zero down)

start_of-Added :
    (index_id : Text) (date_now up down : ℤ) (o : Option ServerStatItem)
    → NamedIfAny index_id o
    → Added index_id date_now up down o
        (with_traffic date_now up down (start_of index_id date_now o))
unfolding new_stat rolled with_traffic
start_of-Added index_id date_now up down none h = record {
  named = refl;
  dated = refl;
  all_up = refl;
  all_down = refl;
  day_up = refl;
  day_down = refl;
}
start_of-Added index_id date_now up down (some row) h =
    elim (Bool-cases (i64_eq row.date_now date_now)) [
      | inl same ↦ record {
        named = rw (same, rolled) h;
        dated = refl;
        all_up = rw (same, rolled) refl;
        all_down = rw (same, rolled) refl;
        day_up = rw (same, rolled) refl;
        day_down = rw (same, rolled) refl;
      }
      | inr other ↦ record {
        named = rw (other, rolled) h;
        dated = refl;
        all_up = rw (other, rolled) refl;
        all_down = rw (other, rolled) refl;
        day_up = rw (other, rolled) refl;
        day_down = rw (other, rolled) refl;
      }
    ]

-- Making sure of a row leaves the others alone.
ensure_row-others :
    (other index_id : Text) (date_now : ℤ) (o : Option ServerStatItem) (t : Table)
    → NamedIfAny index_id o
    → text_eq other index_id ≡ false
    → get_stat other (ensure_row index_id date_now o t).1 ≡ get_stat other t
unfolding ensure_row new_stat
ensure_row-others other index_id date_now none t h apart =
    get_stat-upsert other (new_stat index_id date_now) t ∙ rw apart
ensure_row-others other index_id date_now (some row) t h apart =
    elim (Bool-cases (i64_eq row.date_now date_now)) [
      | inl same ↦ rw (same, ensure_row) refl
      | inr changed ↦
          rw (changed, ensure_row)
            (get_stat-upsert other (rolled date_now row) t
              ∙ rw (start_of-index_id index_id date_now (some row) h, apart))
    ]

-- Adding traffic answers with the row of the profile: the totals are those there were, or 0, and the
-- traffic; today's numbers are those there were on this day, or 0, and the traffic; each sum is cut
-- off at the largest number, and a negative report counts as none. The table then holds that row
-- for the profile, and for every other id what it held.
pub add_traffic-get_stat :
    (index_id : Text) (date_now up down : ℤ) (t : Table) (other : Text)
    → let after = add_traffic index_id date_now up down t in
      Added index_id date_now up down (get_stat index_id t) after.0
      × (get_stat other after.1
          ≡ (if text_eq other index_id then some after.0 else get_stat other t))
unfolding add_traffic
add_traffic-get_stat index_id date_now up down t other = (row_Added, held)
  where
    item : ServerStatItem
    item = with_traffic date_now up down (ensure index_id date_now t).0

    row_Added : Added index_id date_now up down (get_stat index_id t) item
    row_Added =
        subst
          (λ r.
            Added index_id date_now up down (get_stat index_id t) (with_traffic date_now up down r))
          (sym (ensure_lem index_id date_now t))
          (start_of-Added index_id date_now up down (get_stat index_id t)
            (get_stat-NamedIfAny index_id t))

    held :
        get_stat other (upsert item (ensure index_id date_now t).1)
        ≡ (if text_eq other index_id then some item else get_stat other t)
    held =
        get_stat-upsert other item (ensure index_id date_now t).1
        ∙ (elim (Bool-cases (text_eq other index_id)) [
          | inl same ↦ rw (row_Added.named, same)
          | inr apart ↦
              unfold ensure in
              rw (row_Added.named, apart)
                (ensure_row-others other index_id date_now (get_stat index_id t) t
                  (get_stat-NamedIfAny index_id t) apart)
        ])
