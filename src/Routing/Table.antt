-- ===== src/Routing/Table.antt =====
-- crates/voya-db/src/repos/routing.rs: the table of routings and the active one, and the ids that the
-- manager generates.
use voya_vpn.Base.{
  ℕ, suc, ℤ, pos, negsuc, ◌+◌, ◌-◌, ◌^◌, Bool, true, false, not, ◌&&◌, ◌||◌, List, [], ◌∷◌, Option,
  none, some, ◌==◌, ltb, leb, if◌then◌else◌, Text, codes, text_eq, is_empty, trim,
}
use voya_vpn.Entities.Routing.{RulesItem, RoutingItem}
use voya_vpn.Groups.Profile.{text_lt}
use voya_vpn.Context.Env.{find, filter}

-- The rows have different ids, as the primary key demands. The active id is that of a row, or none:
-- `ON DELETE SET NULL`.
pub record Database : Type 0 where
  pub rows : List RoutingItem
  pub active_routing_id : Option Text

-- What `generate_id` gives in its calls, one after another.
pub record Generator : Type 0 where
  pub routing_id : ℕ → Text
  pub rule_id : ℕ → Text

-- The database, the setting `routing_index_id`, and how many ids have been generated.
pub record ManagerState : Type 0 where
  pub database : Database
  pub routing_index_id : Text
  pub routing_count : ℕ
  pub rule_count : ℕ

pub data RoutingManagerError : Type 0 where
  routing_not_found : Text → RoutingManagerError
  missing_routing_id negative_position : RoutingManagerError
  rule_not_found : Text → Text → RoutingManagerError

pub data Outcome : Type 0 where
  done : RoutingItem → ManagerState → Outcome
  failed : RoutingManagerError → Outcome
  -- An index out of range.
  panic : Outcome

abbrev is_row : Text → RoutingItem → Bool
is_row id row = text_eq row.id id

unfoldable pub get_row : Text → List RoutingItem → Option RoutingItem
get_row id rows = find (is_row id) rows

abbrev pub is_present {ℓ} : {A : Type ℓ} → Option A → Bool
is_present none = false
is_present (some a) = true

unfoldable pub row_exists : Text → List RoutingItem → Bool
row_exists id rows = is_present (get_row id rows)

unfoldable pub upsert_row : RoutingItem → List RoutingItem → List RoutingItem
upsert_row item [] = item ∷ []
upsert_row item (row ∷ rows) =
    let rest = upsert_row item rows in if text_eq row.id item.id then item ∷ rows else row ∷ rest

abbrev pub int_lt : ℤ → ℤ → Bool
int_lt (pos a) (pos b) = ltb a b
int_lt (negsuc a) (negsuc b) = ltb b a
int_lt (pos a) (negsuc b) = false
int_lt (negsuc a) (pos b) = true

abbrev pub int_eq : ℤ → ℤ → Bool
int_eq (pos a) (pos b) = a == b
int_eq (negsuc a) (negsuc b) = a == b
int_eq (pos a) (negsuc b) = false
int_eq (negsuc a) (pos b) = false

greatest_sort : ℤ → List RoutingItem → ℤ
greatest_sort best [] = best
greatest_sort best (row ∷ rows) =
    greatest_sort (if int_lt best row.sort then row.sort else best) rows

unfoldable pub max_sort : List RoutingItem → ℤ
unfolding greatest_sort
max_sort [] = pos 0
max_sort (row ∷ rows) = greatest_sort row.sort rows

abbrev pub comes_before : RoutingItem → RoutingItem → Bool
comes_before a b = int_lt a.sort b.sort || (int_eq a.sort b.sort && text_lt a.id b.id)

unfoldable pub least_row : RoutingItem → List RoutingItem → RoutingItem
least_row best [] = best
least_row best (row ∷ rows) = least_row (if comes_before row best then row else best) rows

-- The first row by the sort and the id.
unfoldable pub first_row : List RoutingItem → Option RoutingItem
unfolding least_row
first_row [] = none
first_row (row ∷ rows) = some (least_row row rows)

unfoldable pub active_row : Database → Option RoutingItem
active_row database = elim database.active_routing_id [
  | none ↦ none
  | some id ↦ get_row id database.rows
]

unfoldable pub set_active : Text → Database → Database
set_active id database =
    if row_exists id database.rows
    then record database { active_routing_id = some id }
    else database

abbrev still_active : Text → Option Text → Option Text
still_active id none = none
still_active id (some active) = if text_eq active id then none else some active

unfoldable pub delete_row : Text → Database → Database
delete_row id database = record {
  rows = filter (λ row. not (text_eq row.id id)) database.rows;
  active_routing_id = still_active id database.active_routing_id;
}

unfoldable pub delete_many : List Text → Database → Database
delete_many [] database = database
delete_many (id ∷ ids) database = delete_many ids (delete_row id database)

-- An addition of 32-bit integers, which wraps around.
unfoldable pub add_i32 : ℤ → ℕ → ℤ
add_i32 (pos a) n = if ltb (a + n) (2 ^ 31) then pos (a + n) else negsuc (2 ^ 32 - suc (a + n))
add_i32 (negsuc a) n = if leb n a then negsuc (a - n) else pos (n - suc a)

-- Ids for the rules that have none, and the number of ids generated then.
unfoldable pub normalize_rules : Generator → ℕ → List RulesItem → List RulesItem × ℕ
normalize_rules gen count [] = ([], count)
normalize_rules gen count (rule ∷ rules) =
    let blank = is_empty (trim rule.id) in
    let (later, count') = normalize_rules gen (if blank then suc count else count) rules in
    ((if blank then record rule { id = gen.rule_id count } else rule) ∷ later, count')

abbrev or_default : Text → Text → Text
or_default d s = if is_empty (trim s) then d else s

-- The id, the remarks, the strategy, and the rules.
unfoldable pub normalize_routing_item :
    Generator → RoutingItem → ManagerState → RoutingItem × ManagerState
normalize_routing_item gen item state =
    let blank = is_empty (trim item.id) in
    let (rules, count) = normalize_rules gen state.rule_count item.rule_set in
    (
      record {
        id = if blank then gen.routing_id state.routing_count else item.id;
        remarks = or_default (codes "Routing") item.remarks;
        rule_set = rules;
        domain_strategy = or_default (codes "AsIs") item.domain_strategy;
        sort = item.sort;
      },
      record state {
        routing_count = if blank then suc state.routing_count else state.routing_count;
        rule_count = count;
      },
    )
