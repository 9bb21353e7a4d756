-- ===== src/Pool/Backoff.antt =====
-- numtoy-core/src/pool.rs: what an idle worker does.
use num_toy.Prelude.{
  ℕ, ◌+◌, ◌-◌, ◌^◌, ◌≤◌, ◌<◌, ◌≡◌, Bool, true, false, ◌||◌, arith, min, ltb, if◌then◌else◌,
}
use native.Mathlib.Nat.{pow-le-pow_right}

pub data Idle : Type 0 where
  spin_loop : Idle
  yield_now : Idle
  -- in milliseconds
  sleep : ℕ → Idle

abbrev pub spin_limit : ℕ
spin_limit = 200

abbrev pub yield_count : ℕ
yield_count = 200

abbrev pub yield_limit : ℕ
yield_limit = spin_limit + yield_count

abbrev pub max_sleep_shift : ℕ
max_sleep_shift = 4

unfoldable pub idle_backoff : ℕ → Bool → Bool → Idle
idle_backoff idle_count is_hyper is_xtreme =
    if is_xtreme
    then sleep 1
    else if ltb idle_count spin_limit
    then spin_loop
    else if is_hyper || ltb idle_count yield_limit
    then yield_now
    else sleep (2 ^ min (idle_count - yield_limit) max_sleep_shift)

-- how long a worker is away, in milliseconds
abbrev pub away : Idle → ℕ
away spin_loop = 0
away yield_now = 0
away (sleep ms) = ms

-- An idle worker is never away for more than 16 ms, the longer it has been idle the longer it is
-- away, and in hyper mode it does not sleep at all.
pub idle_backoff-away :
    (n m : ℕ) (is_hyper is_xtreme : Bool)
    → n ≤ m
    → (away (idle_backoff n is_hyper is_xtreme) ≤ 16)
      × (away (idle_backoff n is_hyper is_xtreme) ≤ away (idle_backoff m is_hyper is_xtreme))
      × (away (idle_backoff n true false) ≡ 0)
unfolding idle_backoff
idle_backoff-away n m is_hyper is_xtreme h =
    let two : 0 < 2 = omega arith in
    let small : min (n - yield_limit) max_sleep_shift ≤ 4 = omega arith in
    let top : 2 ^ min (n - yield_limit) max_sleep_shift ≤ 16 = pow-le-pow_right two small in
    let more : min (n - yield_limit) max_sleep_shift ≤ min (m - yield_limit) max_sleep_shift =
      omega (arith, h) in
    let grows : 2 ^ min (n - yield_limit) max_sleep_shift
        ≤ 2 ^ min (m - yield_limit) max_sleep_shift =
      pow-le-pow_right two more in
    (ground arith, ground arith, ground arith)
