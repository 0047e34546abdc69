-- ===== src/Authoring/Runner/Clock.antt =====
-- The reading of the system clock.
use nautilus_agents.Base.{ℕ, ◌≤◌, ◌<◌, ◌≡◌, refl, arith, Option, none, some, list_eq, nat_eq}
use nautilus_agents.Value.Timestamp.{u64_end}
use nautilus_agents.Authoring.Runner.{system_time}

-- The first time is not after the second one; `none` is any time before the epoch.
abbrev pub IsNotAfter : Option ℕ → Option ℕ → Type 0
IsNotAfter none t = Unit
IsNotAfter (some m) none = ⊥
IsNotAfter (some m) (some n) = m ≤ n

-- The nanoseconds that a time is past the epoch, none for the times before it.
abbrev pub elapsed : Option ℕ → ℕ
elapsed none = 0
elapsed (some n) = n

-- The reading of the system clock is a `u64`, before the epoch and after it. It is exact where the time
-- past the epoch is in the range and the greatest value where it is not, and later times give no
-- smaller readings.
pub system_time_bounds :
    (s t : Option ℕ)
    → IsNotAfter s t
    → ((system_time s).nanos < u64_end)
      × ((system_time s).nanos ≤ (system_time t).nanos)
      × (elapsed s < u64_end → (system_time s).nanos ≡ elapsed s)
      × (u64_end ≤ elapsed s → (system_time s).nanos ≡ 18_446_744_073_709_551_615)
unfolding system_time
system_time_bounds none none h = (omega arith, omega arith, λ l. refl, λ l. absurd (omega arith))
system_time_bounds none (some n) h =
    (omega arith, omega arith, λ l. refl, λ l. absurd (omega arith))
system_time_bounds (some m) none h = absurd h
system_time_bounds (some m) (some n) h =
    (ground arith, ground arith, λ l. ground arith, λ l. ground arith)
