-- ===== src/Prelude/Dict.antt =====
-- Go's `map[string]V`: an association list that holds a key at most once. A nil map reads as the
-- empty one. What the program does with a map does not depend on the order of its entries.
use Prim.Native.Nat.{ℕ}
use mathlib.Core.Path.{◌≡◌, refl}
use mathlib.Core.Option.{Option, none, some}
use mathlib.Core.List.{List, [], ◌∷◌, map}
use native.Mathlib.Omega.{arith}
use kaa_s_demo.Prelude.Tests.{if◌then◌else◌}
use kaa_s_demo.Prelude.Lists.{length}
use kaa_s_demo.Prelude.Bytes.{Text, text_eq, text_eq_iff, text_eq_refl}

pub record Dict {ℓ} (V : Type ℓ) : Type ℓ where
  pub entries : List (Text × V)

module _ {ℓ} {V : Type ℓ} where
  unfoldable pub lookup : Text → List (Text × V) → Option V
  lookup k [] = none
  lookup k ((j, v) ∷ l) = if text_eq j k then some v else lookup k l

  unfoldable pub replace : Text → V → List (Text × V) → List (Text × V)
  replace k v [] = (k, v) ∷ []
  replace k v ((j, w) ∷ l) = if text_eq j k then (k, v) ∷ l else (j, w) ∷ replace k v l

  unfoldable pub without : Text → List (Text × V) → List (Text × V)
  without k [] = []
  without k ((j, v) ∷ l) = let rest = without k l in if text_eq j k then rest else (j, v) ∷ rest

  unfoldable pub empty : Dict V
  empty = record { entries = [] }

  -- v, ok := d[k]
  unfoldable pub get : Dict V → Text → Option V
  unfolding lookup
  get d k = lookup k d.entries

  -- d[k] = v
  unfoldable pub put : Dict V → Text → V → Dict V
  unfolding replace
  put d k v = record { entries = replace k v d.entries }

  -- delete(d, k)
  unfoldable pub remove : Dict V → Text → Dict V
  unfolding without
  remove d k = record { entries = without k d.entries }

  -- the keys, in some order: `for k := range d`
  unfoldable pub keys : Dict V → List Text
  keys d = map (λ e. e.0) d.entries

  -- len(d)
  unfoldable pub size : Dict V → ℕ
  size d = length d.entries

  pub lookup-replace :
      (k j : Text) (v : V) (l : List (Text × V))
      → lookup j (replace k v l) ≡ (if text_eq k j then some v else lookup j l)
  unfolding lookup replace
  lookup-replace k j v [] = refl
  lookup-replace k j v ((i, w) ∷ l) =
      ground (arith, lookup-replace k j v l, text_eq_iff i k, text_eq_iff i j, text_eq_iff k j)

  pub lookup-without :
      (k j : Text) (l : List (Text × V))
      → lookup j (without k l) ≡ (if text_eq k j then none else lookup j l)
  unfolding lookup without
  lookup-without k j [] = ground arith
  lookup-without k j ((i, v) ∷ l) =
      ground (arith, lookup-without k j l, text_eq_iff i k, text_eq_iff i j, text_eq_iff k j)

  pub get-put :
      (d : Dict V) (k j : Text) (v : V)
      → get (put d k v) j ≡ (if text_eq k j then some v else get d j)
  unfolding get put
  get-put d k j v = lookup-replace k j v d.entries

  pub get-remove :
      (d : Dict V) (k j : Text) → get (remove d k) j ≡ (if text_eq k j then none else get d j)
  unfolding get remove
  get-remove d k j = lookup-without k j d.entries

  pub get-put_self : (d : Dict V) (k : Text) (v : V) → get (put d k v) k ≡ some v
  get-put_self d k v = rw (get-put, text_eq_refl k) refl

  pub get-remove_self : (d : Dict V) (k : Text) → get (remove d k) k ≡ none
  get-remove_self d k = rw (get-remove, text_eq_refl k) refl

pub get-empty {ℓ} : {V : Type ℓ} (k : Text) → get (empty {V = V}) k ≡ none
unfolding get empty
get-empty k = refl

pub ruleset dict_laws = (get-empty, get-put, get-remove)
