-- ===== src/Prelude/Keys.antt =====
-- Lists of keys, and a loop over distinct keys that changes a map one key at a time.
use kaa_s_demo.Prelude.Tests.{if◌then◌else◌, Bool-cases}
use kaa_s_demo.Prelude.Bytes.{Text, text_eq, text_eq_iff}
use kaa_s_demo.Prelude.Dict.{
  Dict, lookup, replace, get, put, keys, empty, lookup-replace, lookup-without, remove, without,
}
use mathlib.Core.Path.{◌≡◌, refl, ◌∙◌}
use mathlib.Core.Logic.{inl, inr}
use mathlib.Core.Bool.{Bool, true, false, ◌||◌}
use mathlib.Core.Option.{Option, none, some}
use mathlib.Core.List.{List, [], ◌∷◌}
use native.Mathlib.Omega.{arith}

pub text_eq_sym : (a b : Text) → text_eq a b ≡ text_eq b a
text_eq_sym a b = ground (arith, text_eq_iff a b, text_eq_iff b a)

-- k is one of the keys
unfoldable pub has : List Text → Text → Bool
has [] k = false
has (j ∷ js) k = text_eq j k || has js k

-- no key stands twice
abbrev pub IsDistinct : List Text → Type 0
IsDistinct [] = Unit
IsDistinct (k ∷ ks) = (has ks k ≡ false) × IsDistinct ks

abbrev pub is_some {ℓ} : {A : Type ℓ} → Option A → Bool
is_some none = false
is_some (some _) = true

module _ {ℓ} {V : Type ℓ} where
  pub has-lookup :
      (l : List (Text × V)) (k : Text)
      → has (keys (record { entries = l })) k ≡ is_some (lookup k l)
  unfolding has keys lookup
  has-lookup [] k = refl
  has-lookup ((j, v) ∷ l) k = ground (arith, has-lookup l k)

  pub has-keys : (d : Dict V) (k : Text) → has (keys d) k ≡ is_some (get d k)
  unfolding get
  has-keys d k = has-lookup d.entries k

  replace-IsDistinct :
      (k : Text) (v : V) (l : List (Text × V))
      → IsDistinct (keys (record { entries = l }))
      → IsDistinct (keys (record { entries = replace k v l }))
  unfolding keys replace
  replace-IsDistinct k v [] h = (unfold has in refl, tt)
  replace-IsDistinct k v ((j, w) ∷ l) h = elim (Bool-cases (text_eq j k)) [
    | inl same ↦ rw (same, replace) (rw (← (text_eq_iff j k).0 same) (h.0, h.1))
    | inr other ↦ rw (other, replace) (fresh other, replace-IsDistinct k v l h.1)
  ]
    where
      fresh : text_eq j k ≡ false → has (keys (record { entries = replace k v l })) j ≡ false
      fresh other = ground (
        arith,
        has-lookup (replace k v l) j,
        has-lookup l j,
        lookup-replace k j v l,
        text_eq_iff j k,
        text_eq_iff k j,
        h.0,
      )

  pub put-IsDistinct :
      (d : Dict V) (k : Text) (v : V) → IsDistinct (keys d) → IsDistinct (keys (put d k v))
  unfolding put
  put-IsDistinct d k v h = replace-IsDistinct k v d.entries h

  without-IsDistinct :
      (k : Text) (l : List (Text × V))
      → IsDistinct (keys (record { entries = l }))
      → IsDistinct (keys (record { entries = without k l }))
  unfolding keys without
  without-IsDistinct k [] h = tt
  without-IsDistinct k ((j, v) ∷ l) h = elim (Bool-cases (text_eq j k)) [
    | inl same ↦ rw (same, without) (without-IsDistinct k l h.1)
    | inr other ↦ rw (other, without) (fresh, without-IsDistinct k l h.1)
  ]
    where
      fresh : has (keys (record { entries = without k l })) j ≡ false
      fresh = ground (arith, has-lookup (without k l) j, has-lookup l j, lookup-without k j l, h.0)

  pub remove-IsDistinct :
      (d : Dict V) (k : Text) → IsDistinct (keys d) → IsDistinct (keys (remove d k))
  unfolding remove
  remove-IsDistinct d k h = without-IsDistinct k d.entries h

  -- A loop over a list of keys.
  unfoldable pub for_keys : (Dict V → Text → Dict V) → List Text → Dict V → Dict V
  for_keys step [] d = d
  for_keys step (k ∷ ks) d = for_keys step ks (step d k)

  -- A loop whose step changes its own key alone, to what it makes of that key's entry.
  pub get-for_keys :
      (step : Dict V → Text → Dict V) (new : Text → Option V → Option V)
      → ((d : Dict V) (k j : Text)
          → get (step d k) j ≡ (if text_eq k j then new k (get d k) else get d j))
      → (ks : List Text) (d : Dict V) (j : Text) → IsDistinct ks
      → get (for_keys step ks d) j ≡ (if has ks j then new j (get d j) else get d j)
  unfolding for_keys has
  get-for_keys step new one [] d j h = refl
  get-for_keys step new one (k ∷ ks) d j h = elim (Bool-cases (text_eq k j)) [
    | inl same ↦
        get-for_keys step new one ks (step d k) j h.1
        ∙ rw (same, one d k j, same, ← (text_eq_iff k j).0 same, h.0) refl
    | inr other ↦ get-for_keys step new one ks (step d k) j h.1 ∙ rw (other, one d k j, other) refl
  ]

pub keys-empty-IsDistinct {ℓ} : (V : Type ℓ) → IsDistinct (keys (empty {V = V}))
unfolding keys empty
keys-empty-IsDistinct V = tt
