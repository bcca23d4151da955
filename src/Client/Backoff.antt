-- ===== src/Client/Backoff.antt =====
-- The waits between two attempts to connect: `Backoff` of crates/omniagent-cli/src/client/conn.rs, in
-- milliseconds. The nanoseconds of the clock are an argument of each call.
use native.Mathlib.Nat.{pow-suc, mod-lt}
use omniagent.Prelude.{ℕ, zero, suc, ◌+◌, ◌*◌, ◌/◌, ◌%◌, ◌^◌, ◌≤◌, ◌<◌, ◌≡◌, refl, arith, max, min}

pub record Backoff : Type 0 where
  pub current : ℕ

abbrev pub backoff_base : ℕ
backoff_base = 500

abbrev pub backoff_cap : ℕ
backoff_cap = 30 * 1000

abbrev pub new_backoff : Backoff
new_backoff = record { current = backoff_base }

unfoldable pub next_wait : ℕ → Backoff → Backoff × ℕ
next_wait nanos self =
    let ceiling_ms = max self.current 2 in
    let half = ceiling_ms / 2 in
    (record { current = min (self.current * 2) backoff_cap }, half + nanos % max half 1)

-- The state after so many attempts, at the times of a clock.
unfoldable pub after_attempts : (ℕ → ℕ) → ℕ → Backoff
unfolding next_wait
after_attempts clock zero = new_backoff
after_attempts clock (suc k) = (next_wait (clock k) (after_attempts clock k)).0

ceiling_doubles :
    (clock : ℕ → ℕ) (k : ℕ) → (after_attempts clock k).current ≡ min (500 * 2 ^ k) 30000
unfolding after_attempts next_wait
ceiling_doubles clock zero = refl
ceiling_doubles clock (suc k) =
    let h = ceiling_doubles clock k in
    let e : 2 ^ suc k ≡ 2 ^ k * 2 = pow-suc 2 k in ground (arith, h, e)

pow_pos : (k : ℕ) → 1 ≤ 2 ^ k
pow_pos zero = omega arith
pow_pos (suc k) = omega (arith, pow_pos k, pow-suc 2 k)

wait_in_ceiling :
    (nanos current : ℕ)
    → 500 ≤ current
    → (current ≤ 2 * (current / 2 + nanos % max (current / 2) 1) + 1)
      × (current / 2 + nanos % max (current / 2) 1 < current)
wait_in_ceiling nanos current h =
    let m : max (current / 2) 1 ≡ current / 2 = ground arith in
    let l : nanos % (current / 2) < current / 2 = mod-lt nanos (omega arith) in
    rw (m) (omega (arith, l), omega (arith, l))

-- After k attempts, at whatever times, the ceiling is 500 ms doubled k times and at most 30 s; the
-- wait that follows is at least half of it, rounded down, and less than it.
pub next_wait_bounds :
    (clock : ℕ → ℕ) (k nanos : ℕ)
    → ((after_attempts clock k).current ≡ min (500 * 2 ^ k) 30000)
      × ((after_attempts clock k).current ≤ 2 * (next_wait nanos (after_attempts clock k)).1 + 1)
      × ((next_wait nanos (after_attempts clock k)).1 < (after_attempts clock k).current)
unfolding next_wait
next_wait_bounds clock k nanos =
    let e = ceiling_doubles clock k in
    let current = (after_attempts clock k).current in
    let low : 500 ≤ current = ground (arith, e, pow_pos k) in
    let same : max current 2 ≡ current = ground (arith, low) in
    let w = wait_in_ceiling nanos current low in (e, rw (same) w.0, rw (same) w.1)
