-- ===== src/Env/Limits.antt =====
-- The interval at which the hook flushes its metrics, whatever the environment holds.
use native.Mathlib.Nat.{mul-mod_left, div-add-mod', mod-lt, suc-mul}
use tile_mem.Common.{
  ◌==◌, ==_iff, Bool-cases, ℤ, pos, pos_part, ◌≤ℤ◌, Dict, ℕ, suc, ◌+◌, ◌*◌, ◌/◌, ◌%◌, ◌≤◌, ◌<◌,
  String, ◌≡◌, refl, ◌≢◌, inl, inr, Bool, true, false, ◌||◌, some, arith,
}
use tile_mem.Env.{setting, at_least, int_or, get_int, hook_flush_interval, should_flush}

at_least-le : (least n : ℤ) → least ≤ℤ at_least (some least) n
at_least-le least n = ground arith

-- The interval is a positive number.
interval-positive : (environ : Dict String) → 0 < pos_part (hook_flush_interval environ)
unfolding hook_flush_interval get_int
interval-positive environ =
    let n = int_or (pos 128) (setting "TILEPO_HOOK_FLUSH_INTERVAL" environ) in
    omega (arith, at_least-le (pos 1) n)

next_multiple : (n k : ℕ) → 0 < k → (m : ℕ) × (n ≤ m) × (m < n + k) × (m % k ≡ 0)
next_multiple n k h = elim (Bool-cases ((n % k) == 0)) [
  | inl e ↦ (n, omega arith, omega arith, (==_iff (n % k) 0).0 e)
  | inr e ↦
      let split = div-add-mod' n k in
      let part = mod-lt n h in
      let left : n % k ≢ 0 = λ z. absurd (ground (arith, e, z)) in
      (
        suc (n / k) * k,
        omega (arith, split, part, suc-mul (n / k) k),
        omega (arith, split, part, left, suc-mul (n / k) k),
        mul-mod_left (suc (n / k)) k,
      )
]

either : (a b : Bool) → b ≡ true → (a || b) ≡ true
either true b h = refl
either false b h = h

-- Whatever the environment holds, from any count of invocations on, the hook flushes its metrics
-- before as many further invocations as the interval have passed.
pub should_flush-recurs :
    (environ : Dict String) (n : ℕ)
    → (m : ℕ) × (n ≤ m)
      × (m < n + pos_part (hook_flush_interval environ))
      × (should_flush m environ ≡ true)
unfolding should_flush
should_flush-recurs environ n =
    let k = pos_part (hook_flush_interval environ) in
    let (m, low, high, multiple) = next_multiple n k (interval-positive environ) in
    (m, low, high, either (m == 1) ((m % k) == 0) ((==_iff (m % k) 0).1 multiple))
