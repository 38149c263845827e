-- ===== src/MyUtility/Bits.antt =====
-- The bit operations of generateUniqueId as arithmetic.
use Prim.Native.Nat.{bit_and, bit_or, max, digits, bit_or-bitwise}
use native.Mathlib.Nat.{pow-suc, le_refl}
use cxx.Common.{
  ℕ, zero, suc, ◌+◌, ◌*◌, ◌/◌, ◌%◌, ◌^◌, ◌≤◌, ◌<◌, ◌≡◌, ◌∙◌, refl, ap, Bool, true, ◌&&◌, arith,
  ◌==◌, ==_iff,
}

-- What `bit_or a b` stands for, with fuel for the digits of `a`.
abbrev or_digits : ℕ → ℕ → ℕ → ℕ
or_digits fuel a b = digits (λ t. t) max fuel a b

double : (q k a : ℕ) → a ≡ q * 2 ^ suc k → a ≡ 2 * (q * 2 ^ k)
double q k a h = omega (arith, h, ap (λ (t : ℕ). q * t) (pow-suc 2 k))

-- High digits and low digits that do not meet
or_apart : (n k q a r : ℕ) → a ≡ q * 2 ^ k → r < 2 ^ k → a ≤ n → or_digits n a r ≡ a + r
or_apart zero k q zero r e l h = omega arith
or_apart zero k q (suc a) r e l h = absurd (omega arith)
or_apart (suc n) k q zero r e l h = omega arith
or_apart (suc n) zero q (suc a) r e l h = ground (
  arith,
  or_apart n zero (suc a / 2) (suc a / 2) (r / 2) (omega arith) (omega arith) (omega arith),
)
or_apart (suc n) (suc k) q (suc a) r e l h =
    let half : suc a ≡ 2 * (q * 2 ^ k) = double q k (suc a) e in
    ground (
      arith,
      half,
      or_apart n k q (suc a / 2) (r / 2) (omega (arith, half)) (omega (arith, l, pow-suc 2 k))
          (omega (arith, h)),
    )

-- `q << k | r` is a sum when `r` has at most `k` digits.
pub bit_or_shifted : (k q r : ℕ) → r < 2 ^ k → bit_or (q * 2 ^ k) r ≡ q * 2 ^ k + r
bit_or_shifted k q r l =
    bit_or-bitwise (q * 2 ^ k) r ∙ or_apart (q * 2 ^ k) k q (q * 2 ^ k) r refl l (le_refl _)

-- Every number below `n` has the property.
all_below : ℕ → (ℕ → Bool) → Bool
all_below zero p = true
all_below (suc n) p = p n && all_below n p

all_below_lem : (n : ℕ) (p : ℕ → Bool) (x : ℕ) → all_below n p ≡ true → x < n → p x ≡ true
unfolding all_below
all_below_lem zero p x h l = absurd (omega arith)
all_below_lem (suc n) p x h l = ground (arith, all_below_lem n p x)

masked : all_below 4097 (λ x. bit_and x 4095 == x % 4096) ≡ true
unfolding all_below
masked = refl

-- The next sequence number
pub bit_and_mask : (s : ℕ) → s < 4096 → bit_and (s + 1) 4095 ≡ (s + 1) % 4096
bit_and_mask s h =
    (==_iff _ _).0
      (all_below_lem 4097 (λ x. bit_and x 4095 == x % 4096) (s + 1) masked (omega (arith, h)))
