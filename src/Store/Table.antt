-- ===== src/Store/Table.antt =====
-- The rows of one kind in the in-memory store (internal/store/store.go): a map from ids, whose
-- writes first look for the id, and then for a row that the new one clashes with.
pub mod Valid
use kaa_s_demo.Prelude.{
  Bool, not, ◌&&◌, Option, none, some, List, [], ◌∷◌, if◌then◌else◌, Text, text_eq,
}
use kaa_s_demo.Prelude.Dict.{Dict, get, put, remove}
use kaa_s_demo.Prelude.Keys.{is_some}
use kaa_s_demo.Prelude.Any.{any}

-- The errors of a write: "… already exists", ErrNotFound and ErrConflict.
pub data StoreError : Type 0 where
  already_exists not_found conflict : StoreError

module _ {V : Type 0} where
  -- for id, row := range m { if test(id, row) { return … } }
  unfoldable pub some_row : (Text → V → Bool) → Dict V → Bool
  unfolding any
  some_row test d = any (λ e. test e.0 e.1) d.entries

  unfoldable pub select : (V → Bool) → List (Text × V) → List V
  select test [] = []
  select test ((k, v) ∷ l) = let rest = select test l in if test v then v ∷ rest else rest

  -- the rows that pass a test, in the order of the map
  unfoldable pub rows_where : (V → Bool) → Dict V → List V
  unfolding select
  rows_where test d = select test d.entries

  unfoldable pub find : (V → Bool) → List (Text × V) → Option V
  find test [] = none
  find test ((k, v) ∷ l) = let rest = find test l in if test v then some v else rest

  -- the first row that passes a test
  unfoldable pub row_where : (V → Bool) → Dict V → Option V
  unfolding find
  row_where test d = find test d.entries

module _ {V : Type 0} (id_of : V → Text) (clash : V → V → Bool) where
  unfoldable pub create_row : Dict V → V → Dict V × Option StoreError
  create_row d v =
      if is_some (get d (id_of v))
      then (d, some already_exists)
      else if some_row (λ k w. clash w v) d
      then (d, some conflict)
      else (put d (id_of v) v, none)

  unfoldable pub update_row : Dict V → V → Dict V × Option StoreError
  update_row d v =
      if not (is_some (get d (id_of v)))
      then (d, some not_found)
      else if some_row (λ k w. not (text_eq k (id_of v)) && clash w v) d
      then (d, some conflict)
      else (put d (id_of v) v, none)

unfoldable pub delete_row : {V : Type 0} → Dict V → Text → Dict V × Option StoreError
delete_row d k = if is_some (get d k) then (remove d k, none) else (d, some not_found)
