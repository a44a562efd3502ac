-- ===== src/Store/Table/Valid.antt =====
-- internal/store/store.go: what the writes of one kind of row keep.
use mathlib.Core.Path.{subst}
use kaa_s_demo.Prelude.Keys.{
  keys-empty-IsDistinct, remove-IsDistinct, is_some, put-IsDistinct, IsDistinct,
}
use kaa_s_demo.Prelude.{
  some_inj, ◌&&◌, not, none, List, [], ◌∷◌, refl, inr, Bool-cases, ◌∙◌, sym, ◌⊎◌, text_eq_iff, ap,
  inl, arith, true, some, false, List, ◌≡◌, Bool, text_eq, Text,
}
use kaa_s_demo.Prelude.Any.{any}
use kaa_s_demo.Prelude.Dict.{
  get-remove, get-empty, empty, remove, get-put, keys, lookup, put, get, Dict,
}
use kaa_s_demo.Store.Table.{some_row, create_row, update_row, delete_row}

-- A test that some row passes, and the rows by their keys.
module _ {V : Type 0} where
  any-lookup :
      (test : Text → V → Bool) (l : List (Text × V)) (k : Text) (v : V)
      → any (λ (e : Text × V). test e.0 e.1) l ≡ false
      → lookup k l ≡ some v
      → test k v ≡ false
  unfolding any lookup
  any-lookup test [] k v never h = cc
  any-lookup test ((j, w) ∷ l) k v never h = elim (Bool-cases (text_eq j k)) [
    | inl same ↦
        let found : some w ≡ some v = sym (rw same refl) ∙ h in
        rw (← (text_eq_iff j k).0 same) (rw (← some_inj found) (ground arith))
    | inr other ↦ any-lookup test l k v (ground arith) (sym (rw other refl) ∙ h)
  ]

  -- If no row passes, none that is found does.
  pub some_row-get :
      (test : Text → V → Bool) (d : Dict V) (k : Text) (v : V)
      → some_row test d ≡ false
      → get d k ≡ some v
      → test k v ≡ false
  unfolding some_row get
  some_row-get test d k v never h = any-lookup test d.entries k v never h

  pub get-put_cases :
      (d : Dict V) (i k : Text) (v w : V)
      → get (put d i v) k ≡ some w
      → ((text_eq i k ≡ true) × (w ≡ v)) ⊎ ((text_eq i k ≡ false) × (get d k ≡ some w))
  get-put_cases d i k v w h = elim (Bool-cases (text_eq i k)) [
    | inl same ↦ inl (same, ground (arith, get-put d i k v))
    | inr other ↦ inr (other, sym (rw (get-put, other) refl) ∙ h)
  ]

pub get-removed :
    {V : Type 0} (d : Dict V) (k j : Text) (v : V) → get (remove d k) j ≡ some v → get d j ≡ some v
get-removed d k j v h = elim (Bool-cases (text_eq k j)) [
  | inl same ↦ let gone : get (remove d k) j ≡ none = rw (get-remove, same) refl in cc
  | inr other ↦ sym (rw (get-remove, other) refl) ∙ h
]

not_key : (i k : Text) → text_eq i k ≡ false → text_eq k i ≡ false
not_key i k h = ground (arith, text_eq_iff i k, text_eq_iff k i)

-- Every row stands under its own id, and no two rows clash.
module _ {V : Type 0} (id_of : V → Text) (clash : V → V → Bool) where
  pub record IsTable (d : Dict V) : Type 0 where
    pub distinct : IsDistinct (keys d)
    pub own : (k : Text) (v : V) → get d k ≡ some v → id_of v ≡ k
    pub alone :
        (j k : Text) (v w : V) → get d j ≡ some v → get d k ≡ some w → clash v w ≡ true → j ≡ k

module _ {V : Type 0} (id_of : V → Text) (clash : V → V → Bool) where
  pub empty-IsTable : IsTable id_of clash empty
  empty-IsTable = record {
    distinct = keys-empty-IsDistinct V;
    own = λ k v h. absurd (never_found k v h);
    alone = λ j k v w hv hw c. absurd (never_found j v hv);
  }
    where
      never_found : (k : Text) (v : V) → get (empty {V = V}) k ≡ some v → ⊥
      never_found k v h = let e = get-empty {V = V} k in cc

module _ {V : Type 0} (id_of : V → Text) (clash : V → V → Bool)
    (clash_sym : (v w : V) → clash v w ≡ clash w v) where
  -- a row that clashes with no other one
  module _ (d : Dict V) (v : V) (t : IsTable id_of clash d)
      (free : (k : Text) (w : V)
        → get d k ≡ some w
        → text_eq k (id_of v) ≡ false
        → clash w v ≡ false) where
    put-alone :
        (j k : Text) (u w : V)
        → get (put d (id_of v) v) j ≡ some u
        → get (put d (id_of v) v) k ≡ some w
        → clash u w ≡ true
        → j ≡ k
    put-alone j k u w hu hw c = elim (get-put_cases d (id_of v) j v u hu) [
      | inl (same, old) ↦ elim (get-put_cases d (id_of v) k v w hw) [
        | inl (same', old') ↦ sym ((text_eq_iff _ _).0 same) ∙ (text_eq_iff _ _).0 same'
        | inr (other', old') ↦
            let differ = free k w old' (not_key _ _ other') in
            let agree : clash v w ≡ true = subst (λ (x : V). clash x w ≡ true) old c in
            cc (clash_sym v w)
      ]
      | inr (other, old) ↦ elim (get-put_cases d (id_of v) k v w hw) [
        | inl (same', old') ↦
            let differ = free j u old (not_key _ _ other) in
            let agree : clash u v ≡ true = subst (λ (x : V). clash u x ≡ true) old' c in cc
        | inr (other', old') ↦ t.alone j k u w old old' c
      ]
    ]

    put-own : (k : Text) (w : V) → get (put d (id_of v) v) k ≡ some w → id_of w ≡ k
    put-own k w h = elim (get-put_cases d (id_of v) k v w h) [
      | inl (same, new) ↦ ap id_of new ∙ (text_eq_iff _ _).0 same
      | inr (other, old) ↦ t.own k w old
    ]

    pub put-IsTable : IsTable id_of clash (put d (id_of v) v)
    put-IsTable = record {
      distinct = put-IsDistinct d (id_of v) v t.distinct;
      own = put-own;
      alone = put-alone;
    }

  pub create_row-IsTable :
      (d : Dict V) (v : V)
      → IsTable id_of clash d
      → IsTable id_of clash (create_row id_of clash d v).0
  unfolding create_row
  create_row-IsTable d v t = elim (Bool-cases (is_some (get d (id_of v)))) [
    | inl old ↦ rw (create_row, old) t
    | inr new ↦ elim (Bool-cases (some_row (λ k w. clash w v) d)) [
      | inl clashes ↦ rw (create_row, new, clashes) t
      | inr free ↦
          rw (create_row, new, free)
            (put-IsTable d v t (λ k w h _. some_row-get (λ k w. clash w v) d k w free h))
    ]
  ]

  pub update_row-IsTable :
      (d : Dict V) (v : V)
      → IsTable id_of clash d
      → IsTable id_of clash (update_row id_of clash d v).0
  unfolding update_row
  update_row-IsTable d v t = elim (Bool-cases (is_some (get d (id_of v)))) [
    | inr missing ↦ rw (update_row, missing) t
    | inl old ↦
        let test = λ (k : Text) (w : V). not (text_eq k (id_of v)) && clash w v in
        elim (Bool-cases (some_row test d)) [
          | inl clashes ↦ rw (update_row, old, clashes) t
          | inr free ↦
              rw (update_row, old, free)
                (put-IsTable d v t
                  (λ k w h other. sym (rw other refl) ∙ some_row-get test d k w free h))
        ]
  ]

  pub delete_row-IsTable :
      (d : Dict V) (k : Text) → IsTable id_of clash d → IsTable id_of clash (delete_row d k).0
  unfolding delete_row
  delete_row-IsTable d k t = elim (Bool-cases (is_some (get d k))) [
    | inr missing ↦ rw (delete_row, missing) t
    | inl old ↦
        rw (delete_row, old)
          (record {
            distinct = remove-IsDistinct d k t.distinct;
            own = λ j v h. t.own j v (get-removed d k j v h);
            alone = λ i j v w hv hw c.
                t.alone i j v w (get-removed d k i v hv) (get-removed d k j w hw) c;
          })
  ]
