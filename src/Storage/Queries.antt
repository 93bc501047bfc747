-- ===== src/Storage/Queries.antt =====
-- backend/storage/database/postgres/queries.py: the helpers that every router reads and writes
-- tables with. A table is the list of its rows, in the order in which the query of one call, which has
-- no ORDER BY, lists them; another call may list them in another order.
pub mod Pages
use osint_platform_core.Base.{
  ℕ, ◌+◌, ◌-◌, ◌*◌, ◌/◌, String, Bool, true, false, Option, none, some, List, [], ◌∷◌, ◌++◌, ◌==◌,
  ltb, str_eq, any, not, max, keep, take, drop, length, if◌then◌else◌, ◌||◌,
}
use osint_platform_core.Base.Rows.{find, update}
use osint_platform_core.Base.Http.{Outcome, ok, unhandled}

-- The envelope of `paginate`.
pub record Page (A : Type 0) : Type 0 where
  pub items : List A
  pub total : ℕ
  pub page : ℕ
  pub page_size : ℕ
  pub pages : ℕ

-- A filter is the conjunction of its equations, as a test.
module _ {A : Type 0} where
  unfoldable pub get_all : (skip limit : ℕ) → (filters : A → Bool) → List A → List A
  get_all skip limit filters rows = take limit (drop skip (keep filters rows))

  unfoldable pub count_records : (filters : A → Bool) → List A → ℕ
  count_records filters rows = length (keep filters rows)

  -- `field` reads the column, and the test compares it with the value.
  unfoldable pub exists_by_field : (field_is_value : A → Bool) → List A → Bool
  exists_by_field field_is_value rows = ltb 0 (count_records field_is_value rows)

  unfoldable pub create_record : A → List A → List A
  create_record instance rows = rows ++ instance ∷ []

  -- `page < 1` is read as 1; `page_size = 0` divides by zero.
  unfoldable pub paginate : (page page_size : ℕ) → (filters : A → Bool) → List A → Outcome (Page A)
  unfolding count_records
  paginate page page_size filters rows =
      let p = if ltb page 1 then 1 else page in
      let total = count_records filters rows in
      if page_size == 0
      then unhandled "ZeroDivisionError"
      else ok (record {
        items = get_all ((p - 1) * page_size) page_size filters rows;
        total = total;
        page = p;
        page_size = page_size;
        pages = max 1 ((total + page_size - 1) / page_size);
      })

  -- `id` reads the primary key.
  module _ (id : A → ℕ) where
    unfoldable pub get_by_id : ℕ → List A → Option A
    get_by_id key rows = find (λ x. id x == key) rows

    -- The row after the update, and the table.
    unfoldable pub update_record : ℕ → (A → A) → List A → Option A × List A
    update_record key values rows =
        let rows' = update (λ x. id x == key) values rows in (find (λ x. id x == key) rows', rows')

    unfoldable pub delete_record : ℕ → List A → Bool × List A
    delete_record key rows =
        (ltb 0 (length (keep (λ x. id x == key) rows)), keep (λ x. not (id x == key)) rows)
