-- ===== src/Quota/Wrap.antt =====
-- internal/quota/quota.go: the sum that CheckAllocation compares can pass what an `int` holds.
use kaa_s_demo.Prelude.{◌<◌, Text, List}
use kaa_s_demo.Prelude.Int.{ℤ}
use kaa_s_demo.Go.Int64.{max_int64, half_range}
use kaa_s_demo.Domain.User.{User, ResourceQuota}
use kaa_s_demo.Quota.Pool.{AllNonneg, total, own}

-- a grant of all that an `int` holds
abbrev pub huge : ResourceQuota
huge = record { vcpu = max_int64; mem_mb = max_int64; disk_gb = max_int64 }

-- No grant is negative, all of them sum to less than 2^63, and the other accounts hold something.
abbrev pub OthersHold : (ResourceQuota → ℤ) → List User → Text → Text → Type 0
OthersHold dim users user_id provider =
    AllNonneg dim provider users
    × (total dim provider users < half_range)
    × (own dim provider users user_id < total dim provider users)
