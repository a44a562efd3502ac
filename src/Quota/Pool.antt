-- ===== src/Quota/Pool.antt =====
-- internal/quota/quota.go: the conserved pool of grants.
use mathlib.Core.Path.{subst}
use kaa_s_demo.Prelude.{
  sym, ◌↔◌, refl, Bool-cases, ap, not, ◌-◌, ◌∙◌, ◌&&◌, arith, ◌+◌, ◌<◌, if◌then◌else◌, ◌≤◌, ℕ,
  text_eq, List, Bool, Text, ◌≡◌, [], ◌∷◌, none, some, inl, inr,
}
use kaa_s_demo.Prelude.Int.{◌+ℤ◌, ◌-ℤ◌, ℤ, pos, negsuc, pos_part, neg_part, ◌≤ℤ◌}
use kaa_s_demo.Go.Int64.{wrap64, add64, sub64, half_range}
use kaa_s_demo.Domain.User.{User, ResourceQuota, no_quota, quota_on}
use kaa_s_demo.Quota.{
  negative, Budget, plus, minus, allocated_from, allocated, without_grant, check_allocation,
  exceeds_budget, has_negative,
}

-- a dimension of capacity: the loops' sums are those of each dimension
pub record IsDim (dim : ResourceQuota → ℤ) : Type 0 where
  pub at_zero : dim no_quota ≡ pos 0
  pub at_plus : (a q : ResourceQuota) → dim (plus a q) ≡ add64 (dim a) (dim q)
  pub at_minus : (a q : ResourceQuota) → dim (minus a q) ≡ sub64 (dim a) (dim q)

add64_pos :
    (a : ℕ) (z : ℤ)
    → neg_part z ≡ 0
    → a + pos_part z < half_range
    → add64 (pos a) z ≡ pos (a + pos_part z)
unfolding add64 wrap64 ◌+ℤ◌
add64_pos a (pos n) h lt = ground arith
add64_pos a (negsuc n) h lt = absurd (ground arith)

sub64_pos :
    (a : ℕ) (z : ℤ)
    → neg_part z ≡ 0
    → pos_part z ≤ a
    → a < half_range
    → sub64 (pos a) z ≡ pos (a - pos_part z)
unfolding sub64 wrap64 ◌-ℤ◌
sub64_pos a (pos n) h le lt = ground arith
sub64_pos a (negsuc n) h le lt = absurd (ground arith)

is_target : User → Text → Bool
is_target u user_id = text_eq u.id user_id && not u.is_admin

module _ (dim : ResourceQuota → ℤ) (provider : Text) where
  -- no grant is negative
  unfoldable pub AllNonneg : List User → Type 0
  AllNonneg [] = Unit
  AllNonneg (u ∷ us) = (neg_part (dim (quota_on u provider)) ≡ 0) × AllNonneg us

  -- the grants of all accounts that are no admin's
  unfoldable pub total : List User → ℕ
  total [] = 0
  total (u ∷ us) =
      let rest = total us in
      if u.is_admin then rest else pos_part (dim (quota_on u provider)) + rest

  -- the grant of the given account
  unfoldable pub own : List User → Text → ℕ
  own [] user_id = 0
  own (u ∷ us) user_id =
      let rest = own us user_id in
      if text_eq u.id user_id && not u.is_admin then pos_part (dim (quota_on u provider)) else rest

  own-le : (us : List User) (user_id : Text) → own us user_id ≤ total us
  unfolding own total
  own-le [] user_id = omega arith
  own-le (u ∷ us) user_id = ground (arith, own-le us user_id)

  module _ (laws : IsDim dim) where
    allocated_exact :
        (us : List User) (a : ResourceQuota) (n : ℕ)
        → dim a ≡ pos n
        → AllNonneg us
        → n + total us < half_range
        → dim (allocated_from a us provider) ≡ pos (n + total us)
    unfolding allocated_from AllNonneg total quota_on
    allocated_exact [] a n e h lt = e ∙ ap pos (omega arith)
    allocated_exact (u ∷ us) a n e (h, hs) lt = elim (Bool-cases u.is_admin) [
      | inl admin ↦ rw admin (allocated_exact us a n e hs (rw admin at lt))
      | inr tenant ↦
          let q : ResourceQuota = quota_on u provider in
          let lt' : n + (pos_part (dim q) + total us) < half_range = rw tenant at lt in
          let next : dim (plus a q) ≡ pos (n + pos_part (dim q)) =
            laws.at_plus a q
            ∙ ap (λ (x : ℤ). add64 x (dim q)) e
            ∙ add64_pos n (dim q) h (omega arith) in
          rw tenant (
            allocated_exact us (plus a q) (n + pos_part (dim q)) next hs (omega arith)
            ∙ ap pos (omega arith))
    ]

    without_exact :
        (us : List User) (a : ResourceQuota) (user_id : Text) (n : ℕ)
        → dim a ≡ pos n
        → AllNonneg us
        → own us user_id ≤ n
        → n < half_range
        → dim (without_grant a us user_id provider) ≡ pos (n - own us user_id)
    unfolding without_grant AllNonneg own
    without_exact [] a user_id n e h le lt = e ∙ ap pos (omega arith)
    without_exact (u ∷ us) a user_id n e (h, hs) le lt =
        elim (Bool-cases (text_eq u.id user_id && not u.is_admin)) [
          | inl found ↦
              let q : ResourceQuota = quota_on u provider in
              let le' : pos_part (dim q) ≤ n = rw found at le in
              rw found (
                laws.at_minus a q
                ∙ ap (λ (x : ℤ). sub64 x (dim q)) e
                ∙ sub64_pos n (dim q) h le' lt)
          | inr other ↦ rw other (without_exact us a user_id n e hs (rw other at le) lt)
        ]

    -- what the other accounts hold, as the code computes it
    pub others_exact :
        (us : List User) (user_id : Text)
        → AllNonneg us
        → total us < half_range
        → dim (without_grant (allocated us provider) us user_id provider)
          ≡ pos (total us - own us user_id)
    unfolding allocated
    others_exact us user_id h lt =
        without_exact us (allocated_from no_quota us provider) user_id (total us)
          (allocated_exact us no_quota 0 laws.at_zero h (omega arith) ∙ ap pos (omega arith)) h
          (own-le us user_id) lt

-- No account's grant is negative, and they add up, with the new one, without passing what an `int`
-- holds.
unfoldable pub FitsInt : (ResourceQuota → ℤ) → List User → Text → ResourceQuota → Type 0
FitsInt dim users provider grant =
    AllNonneg dim provider users × (total dim provider users + pos_part (dim grant) < half_range)

-- The new grant and those of the other accounts are within a total.
abbrev pub Within : (ResourceQuota → ℤ) → ℤ → List User → Text → Text → ResourceQuota → Type 0
Within dim limit users user_id provider grant =
    (neg_part (dim grant) ≡ 0)
    × (pos (total dim provider users - own dim provider users user_id + pos_part (dim grant))
        ≤ℤ limit)

pub vcpu-IsDim : IsDim (λ q. q.vcpu)
vcpu-IsDim = record { at_zero = refl; at_plus = λ a q. refl; at_minus = λ a q. refl }

pub mem-IsDim : IsDim (λ q. q.mem_mb)
mem-IsDim = record { at_zero = refl; at_plus = λ a q. refl; at_minus = λ a q. refl }

pub disk-IsDim : IsDim (λ q. q.disk_gb)
disk-IsDim = record { at_zero = refl; at_plus = λ a q. refl; at_minus = λ a q. refl }

-- the sum that a check compares
sum_exact :
    (dim : ResourceQuota → ℤ)
    → IsDim dim
    → (users : List User) (user_id provider : Text) (grant : ResourceQuota)
    → FitsInt dim users provider grant
    → neg_part (dim grant) ≡ 0
    → add64 (dim (without_grant (allocated users provider) users user_id provider)) (dim grant)
      ≡ pos (total dim provider users - own dim provider users user_id + pos_part (dim grant))
unfolding FitsInt
sum_exact dim laws users user_id provider grant (h, lt) nonneg =
    ap (λ (x : ℤ). add64 x (dim grant))
      (others_exact dim provider laws users user_id h (omega arith))
    ∙ add64_pos (total dim provider users - own dim provider users user_id) (dim grant) nonneg
        (omega arith)

le_cong : {x y : ℤ} (limit : ℤ) → x ≡ y → (x ≤ℤ limit) ↔ (y ≤ℤ limit)
le_cong limit e = (subst (λ (z : ℤ). z ≤ℤ limit) e, subst (λ (z : ℤ). z ≤ℤ limit) (sym e))

pub exceeds_budget_iff :
    (b : Budget) (have want : ResourceQuota)
    → (exceeds_budget b have want ≡ none) ↔ (
        (add64 have.vcpu want.vcpu ≤ℤ b.total_vcpu)
        × (add64 have.mem_mb want.mem_mb ≤ℤ b.total_mem_mb)
        × (add64 have.disk_gb want.disk_gb ≤ℤ b.total_disk_gb))
unfolding exceeds_budget
exceeds_budget_iff b have want = (λ h. ground arith, λ h. ground arith)

-- As long as the sums fit in an `int` and no account's grant is negative, CheckAllocation passes
-- exactly if the new grant is not negative and, in each dimension, it is within the budget together
-- with the grants on that infrastructure of all other accounts that are no admin's.
pub check_allocation_iff :
    (b : Budget) (users : List User) (user_id provider : Text) (grant : ResourceQuota)
    → FitsInt (λ q. q.vcpu) users provider grant
    → FitsInt (λ q. q.mem_mb) users provider grant
    → FitsInt (λ q. q.disk_gb) users provider grant
    → (check_allocation b users user_id provider grant ≡ none) ↔ (
        Within (λ q. q.vcpu) b.total_vcpu users user_id provider grant
        × Within (λ q. q.mem_mb) b.total_mem_mb users user_id provider grant
        × Within (λ q. q.disk_gb) b.total_disk_gb users user_id provider grant)
unfolding check_allocation
check_allocation_iff b users user_id provider grant fv fm fd =
    elim (Bool-cases (has_negative grant)) [
      | inl bad ↦ (
        λ h. let no : some negative ≡ none = sym (simp (check_allocation, bad)) ∙ h in cc,
        λ (v, m, d). absurd (ground arith),
      )
      | inr nonneg ↦
          let left : ResourceQuota =
            without_grant (allocated users provider) users user_id provider in
          let checks : check_allocation b users user_id provider grant
              ≡ exceeds_budget b left grant =
            simp (check_allocation, nonneg) in
          let v : neg_part grant.vcpu ≡ 0 = ground arith in
          let m : neg_part grant.mem_mb ≡ 0 = ground arith in
          let d : neg_part grant.disk_gb ≡ 0 = ground arith in
          let ev = sum_exact (λ q. q.vcpu) vcpu-IsDim users user_id provider grant fv v in
          let em = sum_exact (λ q. q.mem_mb) mem-IsDim users user_id provider grant fm m in
          let ed = sum_exact (λ q. q.disk_gb) disk-IsDim users user_id provider grant fd d in
          (
            λ h.
                let (wv, wm, wd) = (exceeds_budget_iff b left grant).0 (sym checks ∙ h) in
                (
                  (v, (le_cong b.total_vcpu ev).0 wv),
                  (m, (le_cong b.total_mem_mb em).0 wm),
                  (d, (le_cong b.total_disk_gb ed).0 wd),
                ),
            λ ((_, wv), (_, wm), (_, wd)).
                checks
                ∙ (exceeds_budget_iff b left grant).1 (
                  (le_cong b.total_vcpu ev).1 wv,
                  (le_cong b.total_mem_mb em).1 wm,
                  (le_cong b.total_disk_gb ed).1 wd,
                ),
          )
    ]
