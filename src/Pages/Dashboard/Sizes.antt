-- ===== src/Pages/Dashboard/Sizes.antt =====
-- app/dashboard/page.tsx: the sizes that are shown.
use optiflow.Prelude.{ℕ, ◌+◌, ◌*◌, ◌/◌, ◌^◌, zero, suc, ◌≤◌, ◌<◌, arith, if_lem, ltb}
use native.Mathlib.Nat.{mul-div-le, lt-div-mul-add, div-lt_iff_lt-mul, le-div_iff_mul-le}
use optiflow.Pages.Files.Cards.{magnitude}
use optiflow.Pages.Dashboard.{hundredths}

magnitude_bounds :
    (fuel n : ℕ)
    → 0 < n
    → n < 1024 ^ fuel
    → (1024 ^ magnitude fuel n ≤ n) × (n < 1024 * 1024 ^ magnitude fuel n)
unfolding magnitude
magnitude_bounds zero n a b = ground arith
magnitude_bounds (suc fuel) n a b =
    if_lem (λ m. (1024 ^ m ≤ n) × (n < 1024 * 1024 ^ m)) (ltb n 1024) 0
      (suc (magnitude fuel (n / 1024))) (λ small. ground arith)
      (λ large.
        let big : 1024 ≤ n = ground arith in
        let (l, r) = magnitude_bounds fuel (n / 1024) (omega arith) (omega arith) in
        (omega arith, omega arith))

quotient_bounds :
    (bytes p : ℕ)
    → 0 < p
    → p ≤ bytes
    → bytes < 1024 * p
    → let q = (200 * bytes + p) / (2 * p) in
      (2 * (q * p) ≤ 200 * bytes + p) × (200 * bytes < 2 * (q * p) + p) × (100 ≤ q) × (q ≤ 102400)
quotient_bounds bytes p a b c =
    let below = mul-div-le (200 * bytes + p) (2 * p) in
    let above = lt-div-mul-add {a = 200 * bytes + p} {b = 2 * p} (omega arith) in
    (
      omega arith,
      omega arith,
      (le-div_iff_mul-le {k = 2 * p} {x = 100} {y = 200 * bytes + p} (omega arith)).1 (omega arith),
      omega (
        arith,
        (div-lt_iff_lt-mul {k = 2 * p} {x = 200 * bytes + p} {y = 102401} (omega arith)).1
            (omega arith),
      ),
    )

-- For a number of bytes that is not zero and less than 2^53, with i as the page chooses it: 1024^i
-- is the largest power of 1024 that is not more than the number; the hundredths that are shown lie
-- within half a hundredth of the exact quotient, and between 1 and 1024.
pub hundredths_bounds :
    (bytes : ℕ)
    → 0 < bytes
    → bytes < 2 ^ 53
    → let i = magnitude 6 bytes in
      (1024 ^ i ≤ bytes)
      × (bytes < 1024 * 1024 ^ i)
      × (2 * (hundredths bytes i * 1024 ^ i) ≤ 200 * bytes + 1024 ^ i)
      × (200 * bytes < 2 * (hundredths bytes i * 1024 ^ i) + 1024 ^ i)
      × (100 ≤ hundredths bytes i)
      × (hundredths bytes i ≤ 102400)
unfolding hundredths
hundredths_bounds bytes a b =
    let (l, r) = magnitude_bounds 6 bytes a (omega arith) in
    let p = quotient_bounds bytes (1024 ^ magnitude 6 bytes) (omega arith) l r in
    (l, r, p.0, p.1, p.2, p.3)
