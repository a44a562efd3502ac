-- ===== src/Store/Find.antt =====
-- internal/store/store.go: the loops over the rows of a table, against the rows by their keys.
use kaa_s_demo.Prelude.Any.{All}
use mathlib.Core.Path.{subst}
use kaa_s_demo.Prelude.Keys.{has, IsDistinct}
use kaa_s_demo.Prelude.Dict.{Dict, get, keys, lookup}
use kaa_s_demo.Prelude.{
  Option, map, text_eq, text_eq_iff, arith, some_inj, text_eq_refl, ◌∙◌, refl, sym, Bool-cases, ◌≡◌,
  Text, List, Bool, [], ◌∷◌, none, some, inl, inr, true, false,
}
use kaa_s_demo.Store.Table.{find, select, row_where, rows_where}
use kaa_s_demo.Prelude.Keys.{has-lookup}
use kaa_s_demo.Store.Table.Valid.{IsTable}

module _ {V : Type 0} (test : V → Bool) where
  find-lookup :
      (l : List (Text × V)) (v : V)
      → IsDistinct (keys (record { entries = l }))
      → find test l ≡ some v
      → (k : Text) × (lookup k l ≡ some v) × (test v ≡ true)
  unfolding find lookup keys
  find-lookup [] v h e = cc
  find-lookup ((j, w) ∷ l) v h e = elim (Bool-cases (test w)) [
    | inl pass ↦
        let here_ : some w ≡ some v = sym (rw pass refl) ∙ e in
        (j, rw (text_eq_refl j) here_, subst (λ (u : V). test u ≡ true) (some_inj here_) pass)
    | inr fail ↦
        let (k, at, pass) = find-lookup l v h.1 (sym (rw fail refl) ∙ e) in
        (k, ground (arith, has-lookup l k, text_eq_iff j k, h.0), pass)
  ]

  lookup-find :
      (l : List (Text × V)) (k : Text) (v : V)
      → lookup k l ≡ some v
      → test v ≡ true
      → (w : V) × (find test l ≡ some w)
  unfolding find lookup
  lookup-find [] k v e pass = cc
  lookup-find ((j, w) ∷ l) k v e pass = elim (Bool-cases (test w)) [
    | inl pass' ↦ (w, rw pass' refl)
    | inr fail ↦ elim (Bool-cases (text_eq j k)) [
      | inl same ↦
          let head_ : some w ≡ some v = sym (rw same refl) ∙ e in
          let pass' : test w ≡ true =
            subst (λ (u : V). test u ≡ true) (sym (some_inj head_)) pass in
          (w, rw pass' refl)
      | inr other ↦
          let (u, found) = lookup-find l k v (sym (rw other refl) ∙ e) pass in (u, rw fail found)
    ]
  ]

  -- A row that a search finds is stored under some key, and passes.
  pub row_where-get :
      (d : Dict V) (v : V)
      → IsDistinct (keys d)
      → row_where test d ≡ some v
      → (k : Text) × (get d k ≡ some v) × (test v ≡ true)
  unfolding row_where get
  row_where-get d v h e = find-lookup d.entries v h e

  -- If a stored row passes, a search finds one.
  pub get-row_where :
      (d : Dict V) (k : Text) (v : V)
      → get d k ≡ some v
      → test v ≡ true
      → (w : V) × (row_where test d ≡ some w)
  unfolding row_where get
  get-row_where d k v e pass = lookup-find d.entries k v e pass

abbrev pub passes : {V : Type 0} → (V → Bool) → Option V → Bool
passes test none = false
passes test (some v) = test v

-- The ids of the rows that a scan lists are those under which a row stands that passes.
module _ {V : Type 0} (id_of : V → Text) (test : V → Bool) where
  unfoldable pub ids : List V → List Text
  ids vs = map id_of vs

  has-select :
      (l : List (Text × V)) (k : Text)
      → IsDistinct (keys (record { entries = l }))
      → All (λ e. id_of e.1 ≡ e.0) l
      → has (ids (select test l)) k ≡ passes test (lookup k l)
  unfolding select lookup has keys ids
  has-select [] k h own = refl
  has-select ((j, v) ∷ l) k h own = elim (Bool-cases (test v)) [
    | inl pass ↦
        rw (select, pass)
          (rw own.0
            (ground (arith, has-select l k h.1 own.1, has-lookup l k, text_eq_iff j k, h.0, pass)))
    | inr fail ↦
        rw (select, fail)
          (ground (arith, has-select l k h.1 own.1, has-lookup l k, text_eq_iff j k, h.0, fail))
  ]

  select-IsDistinct :
      (l : List (Text × V))
      → IsDistinct (keys (record { entries = l }))
      → All (λ e. id_of e.1 ≡ e.0) l
      → IsDistinct (ids (select test l))
  unfolding select keys ids
  select-IsDistinct [] h own = tt
  select-IsDistinct ((j, v) ∷ l) h own = elim (Bool-cases (test v)) [
    | inl pass ↦ rw (select, pass) (fresh, select-IsDistinct l h.1 own.1)
    | inr fail ↦ rw (select, fail) (select-IsDistinct l h.1 own.1)
  ]
    where
      fresh : has (ids (select test l)) (id_of v) ≡ false
      fresh = rw own.0 (ground (arith, has-select l j h.1 own.1, has-lookup l j, h.0))

  own-All :
      (l : List (Text × V))
      → IsDistinct (keys (record { entries = l }))
      → ((k : Text) (v : V) → lookup k l ≡ some v → id_of v ≡ k)
      → All (λ e. id_of e.1 ≡ e.0) l
  unfolding lookup keys
  own-All [] h own = tt
  own-All ((j, v) ∷ l) h own =
      (own j v (rw (text_eq_refl j) refl), own-All l h.1 (λ k u e. own k u (later k u e)))
    where
      later : (k : Text) (u : V) → lookup k l ≡ some u → lookup k ((j, v) ∷ l) ≡ some u
      later k u e = ground (arith, has-lookup l k, text_eq_iff j k, h.0)

  module _ (clash : V → V → Bool) (d : Dict V) (t : IsTable id_of clash d) where
    pub has-rows_where : (k : Text) → has (ids (rows_where test d)) k ≡ passes test (get d k)
    unfolding rows_where get
    has-rows_where k =
        has-select d.entries k t.distinct (own-All d.entries t.distinct (unfold get in t.own))

    pub rows_where-IsDistinct : IsDistinct (ids (rows_where test d))
    unfolding rows_where get
    rows_where-IsDistinct =
        select-IsDistinct d.entries t.distinct (own-All d.entries t.distinct (unfold get in t.own))
