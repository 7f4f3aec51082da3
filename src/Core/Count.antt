-- ===== src/Core/Count.antt =====
-- Sums over bits, and `hweight32` (xhci.c).
use fl.Base.{ℕ, zero, suc, ◌+◌, ◌/◌, ◌<◌, ◌≤◌, ◌≡◌, refl, arith}
use Prim.Native.Nat.{bit_and}
use fl.Base.Bits.{bit_at, bit_at-bit_and}
use fl.Core.{weight}

-- The sum of a function over the numbers below a bound.
unfoldable pub sum_below : ℕ → (ℕ → ℕ) → ℕ
sum_below zero f = 0
sum_below (suc n) f = f 0 + sum_below n (λ k. f (suc k))

pub weight-sum_below : (n w : ℕ) → weight n w ≡ sum_below n (λ k. bit_at k w)
unfolding weight sum_below bit_at
weight-sum_below zero w = refl
weight-sum_below (suc n) w = omega (arith, weight-sum_below n (w / 2))

pub sum_below-le :
    (n : ℕ) (f g : ℕ → ℕ) → ((k : ℕ) → k < n → f k ≤ g k) → sum_below n f ≤ sum_below n g
unfolding sum_below
sum_below-le zero f g h = omega arith
sum_below-le (suc n) f g h =
    let rest = sum_below-le n (λ k. f (suc k)) (λ k. g (suc k)) (λ k lt. h (suc k) (omega arith)) in
    let first = h 0 (omega arith) in omega (arith, rest, first)

-- Two pairs of functions with the same sum at every number have the same sums.
pub sum_below-add :
    (n : ℕ) (f g f' g' : ℕ → ℕ)
    → ((k : ℕ) → k < n → f k + g k ≡ f' k + g' k)
    → sum_below n f + sum_below n g ≡ sum_below n f' + sum_below n g'
unfolding sum_below
sum_below-add zero f g f' g' h = refl
sum_below-add (suc n) f g f' g' h =
    let rest =
      sum_below-add n (λ k. f (suc k)) (λ k. g (suc k)) (λ k. f' (suc k)) (λ k. g' (suc k))
        (λ k lt. h (suc k) (omega arith)) in
    let first = h 0 (omega arith) in omega (arith, rest, first)

pub sum_below-bound : (n : ℕ) (f : ℕ → ℕ) → ((k : ℕ) → f k ≤ 1) → sum_below n f ≤ n
unfolding sum_below
sum_below-bound zero f h = omega arith
sum_below-bound (suc n) f h =
    let rest = sum_below-bound n (λ k. f (suc k)) (λ k. h (suc k)) in
    let first = h 0 in omega (arith, rest, first)

-- The common ones of two words are no more than the ones of either.
pub weight-bit_and :
    (n a b : ℕ) → (weight n (bit_and a b) ≤ weight n a) × (weight n (bit_and a b) ≤ weight n b)
weight-bit_and n a b =
    let both = weight-sum_below n (bit_and a b) in
    let left =
      sum_below-le n (λ k. bit_at k (bit_and a b)) (λ k. bit_at k a)
        (λ k lt. omega (arith, bit_at-bit_and k a b)) in
    let right =
      sum_below-le n (λ k. bit_at k (bit_and a b)) (λ k. bit_at k b)
        (λ k lt. omega (arith, bit_at-bit_and k a b)) in
    (
      omega (arith, both, left, weight-sum_below n a),
      omega (arith, both, right, weight-sum_below n b),
    )
