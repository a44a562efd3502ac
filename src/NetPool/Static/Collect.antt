-- ===== src/NetPool/Static/Collect.antt =====
-- internal/netpool/static.go: what the loop of AllocateStatic collects.
use kaa_s_demo.Prelude.Dict.{Dict}
use mathlib.Core.List.{append-nil, append_assoc}
use kaa_s_demo.Prelude.{
  if◌then◌else◌, sym, ap, ◌∙◌, refl, ap, ◌∙◌, Bool-cases, length-append, arith, ◌%◌, some, ◌+◌, ◌-◌,
  ltb, ◌&&◌, ◌≤◌, leb, ◌<◌, false, true, Text, refl, Bool, ◌≡◌, ℕ, List, [], ◌∷◌, ◌++◌, inl, inr,
  zero, suc, take, length,
}
use kaa_s_demo.NetPool.Static.{collect, is_taken}
use kaa_s_demo.NetPool.Allocate.{u32_mod}
use kaa_s_demo.NetPool.Ip.{show_ip}

-- The addresses from `v` on, `k` of them, that are not taken.
unfoldable pub free_hosts : Dict Bool → Text → ℕ → ℕ → List Text
free_hosts used gateway v zero = []
free_hosts used gateway v (suc k) =
    let rest = free_hosts used gateway (suc v) k in
    if is_taken used gateway (show_ip v) then rest else show_ip v ∷ rest

free_hosts-taken :
    (used : Dict Bool) (gateway : Text) (v k : ℕ)
    → is_taken used gateway (show_ip v) ≡ true
    → free_hosts used gateway v (suc k) ≡ free_hosts used gateway (suc v) k
unfolding free_hosts
free_hosts-taken used gateway v k h = simp (h)

free_hosts-free :
    (used : Dict Bool) (gateway : Text) (v k : ℕ)
    → is_taken used gateway (show_ip v) ≡ false
    → free_hosts used gateway v (suc k) ≡ show_ip v ∷ free_hosts used gateway (suc v) k
unfolding free_hosts
free_hosts-free used gateway v k h = simp (h)

take-free_hosts :
    (used : Dict Bool) (gateway : Text) (v n : ℕ) → take n (free_hosts used gateway v 0) ≡ []
unfolding free_hosts
take-free_hosts used gateway v zero = refl
take-free_hosts used gateway v (suc n) = refl

module _ (used : Dict Bool) (gateway : Text) (to n fuel v : ℕ) (out : List Text) where
  collect_ends :
      (leb v to && ltb (length out) n) ≡ false
      → collect used gateway to n (suc fuel) v out ≡ some out
  unfolding collect
  collect_ends h = simp (h)

  collect_passes :
      (leb v to && ltb (length out) n) ≡ true
      → is_taken used gateway (show_ip v) ≡ true
      → collect used gateway to n (suc fuel) v out
        ≡ collect used gateway to n fuel ((v + 1) % u32_mod) out
  unfolding collect
  collect_passes h taken = simp (h, taken)

  collect_takes :
      (leb v to && ltb (length out) n) ≡ true
      → is_taken used gateway (show_ip v) ≡ false
      → collect used gateway to n (suc fuel) v out
        ≡ collect used gateway to n fuel ((v + 1) % u32_mod) (out ++ show_ip v ∷ [])
  unfolding collect
  collect_takes h free = simp (h, free)

-- The loop ends, and it adds the first free addresses until there are `n`.
pub collect-free_hosts :
    (used : Dict Bool) (gateway : Text) (to n fuel v : ℕ) (out : List Text)
    → suc to < u32_mod
    → v ≤ suc to
    → suc to - v < fuel
    → length out ≤ n
    → collect used gateway to n fuel v out
      ≡ some (out ++ take (n - length out) (free_hosts used gateway v (suc to - v)))
collect-free_hosts used gateway to n zero v out ht hv hf hn = absurd (omega arith)
collect-free_hosts used gateway to n (suc fuel) v out ht hv hf hn =
    elim (Bool-cases (leb v to && ltb (length out) n)) [
      | inl more ↦ elim (Bool-cases (is_taken used gateway (show_ip v))) [
        | inl taken ↦
            collect_passes used gateway to n fuel v out more taken
            ∙ ap (λ (a : ℕ). collect used gateway to n fuel a out) (step more)
            ∙ collect-free_hosts used gateway to n fuel (suc v) out ht (ground arith) (ground arith)
                hn
            ∙ ap (λ (l : List Text). some (out ++ take (n - length out) l))
                (sym (
                  ap (free_hosts used gateway v) (left more)
                  ∙ free_hosts-taken used gateway v (suc to - suc v) taken))
        | inr free ↦
            collect_takes used gateway to n fuel v out more free
            ∙ ap (λ (a : ℕ). collect used gateway to n fuel a (out ++ show_ip v ∷ [])) (step more)
            ∙ collect-free_hosts used gateway to n fuel (suc v) (out ++ show_ip v ∷ []) ht
                (ground arith) (ground arith) (ground (arith, length-append out (show_ip v ∷ [])))
            ∙ ap some (
                append_assoc out (show_ip v ∷ []) (
                  take (n - length (out ++ show_ip v ∷ []))
                    (free_hosts used gateway (suc v) (suc to - suc v)))
                ∙ ap (λ (l : List Text). out ++ l) (sym (taken_too more free)))
      ]
      | inr stop ↦ collect_ends used gateway to n fuel v out stop ∙ ap some (sym (nothing stop))
    ]
  where
    step : (leb v to && ltb (length out) n) ≡ true → (v + 1) % u32_mod ≡ suc v
    step h = ground arith

    left : (leb v to && ltb (length out) n) ≡ true → suc to - v ≡ suc (suc to - suc v)
    left h = ground arith

    taken_too :
        (leb v to && ltb (length out) n) ≡ true
        → is_taken used gateway (show_ip v) ≡ false
        → take (n - length out) (free_hosts used gateway v (suc to - v))
          ≡ show_ip v
            ∷ take
                (n - length (out ++ show_ip v ∷ []))
                (free_hosts used gateway (suc v) (suc to - suc v))
    taken_too more free =
        let room : n - length out ≡ suc (n - length (out ++ show_ip v ∷ [])) =
          ground (arith, length-append out (show_ip v ∷ [])) in
        rw (room, left more, free_hosts-free used gateway v (suc to - suc v) free) refl

    nothing :
        (leb v to && ltb (length out) n) ≡ false
        → out ++ take (n - length out) (free_hosts used gateway v (suc to - v)) ≡ out
    nothing h = elim (Bool-cases (leb v to)) [
      | inl below ↦ let full : n - length out ≡ 0 = ground arith in rw full (append-nil out)
      | inr above ↦
          let none_left : suc to - v ≡ 0 = ground arith in
          rw (none_left, take-free_hosts used gateway v (n - length out)) (append-nil out)
    ]
