-- ===== src/Base/Bits.antt =====
-- Masks of 32-bit words, and single bits of `bit_and` and `bit_or`.
use fl.Base.{true, ◌&&◌, ◌^◌}
use Prim.Native.Nat.{
  ℕ, zero, suc, ◌+◌, ◌-◌, ◌*◌, ◌/◌, ◌%◌, ◌≤◌, ◌<◌, min, max, bit_and, bit_or, digits,
  bit_and-bitwise, bit_or-bitwise,
}
use mathlib.Core.Path.{◌≡◌, refl, ap, sym, ◌∙◌}
use mathlib.Core.Bool.{Bool, not}
use native.Mathlib.Omega.{arith}
use fl.Base.Tests.{◌==◌, if◌then◌else◌}
use fl.Base.Bytes.{u32_max}

-- `word & mask` as a test.
abbrev pub has : ℕ → ℕ → Bool
has mask word = not (bit_and word mask == 0)

-- `word & ~mask` of 32-bit words.
abbrev pub without : ℕ → ℕ → ℕ
without mask word = bit_and word (u32_max - mask)

-- Bit `k` of a word, counted from the low end.
unfoldable pub bit_at : ℕ → ℕ → ℕ
bit_at zero w = w % 2
bit_at (suc k) w = bit_at k (w / 2)

-- `bit_and` and `bit_or` both go digit by digit, on fuel. More fuel than the first number changes
-- nothing.
module _ (rest : ℕ → ℕ) (op : ℕ → ℕ → ℕ) where
  abbrev with_fuel : ℕ → ℕ → ℕ → ℕ
  with_fuel fuel a b = digits rest op fuel a b

  one_more : (fuel a b : ℕ) → a ≤ fuel → with_fuel (suc fuel) a b ≡ with_fuel fuel a b
  one_more zero zero b h = refl
  one_more zero (suc a) b h = absurd (omega arith)
  one_more (suc fuel) zero b h = refl
  one_more (suc fuel) (suc a) b h =
      ap (λ high. high * 2 + op (suc a % 2) (b % 2))
        (one_more fuel (suc a / 2) (b / 2) (omega arith))

  enough :
      (more fuel total a b : ℕ)
      → total ≡ more + fuel
      → a ≤ fuel
      → with_fuel total a b ≡ with_fuel fuel a b
  enough zero fuel total a b e h = ap (λ n. with_fuel n a b) (omega arith)
  enough (suc more) fuel total a b e h =
      let same : total ≡ suc (more + fuel) = omega arith in
      ap (λ n. with_fuel n a b) same
      ∙ one_more (more + fuel) a b (omega arith)
      ∙ enough more fuel (more + fuel) a b refl h

  module _ (f : ℕ → ℕ → ℕ) (is : (a b : ℕ) → f a b ≡ with_fuel a a b)
      (tail : (b : ℕ) → rest b ≡ rest (b / 2) * 2 + op 0 (b % 2))
      (digit : (x y : ℕ) → x < 2 → y < 2 → op x y < 2) where
    -- The lowest digit, and the number without it.
    halves : (a b : ℕ) → f a b ≡ f (a / 2) (b / 2) * 2 + op (a % 2) (b % 2)
    halves zero b = omega (arith, is 0 b, is 0 (b / 2), tail b)
    halves (suc a) b =
        let half = suc a / 2 in
        let fewer = enough (a - half) half a half (b / 2) (omega arith) (omega arith) in
        is (suc a) b
        ∙ ap (λ high. high * 2 + op (suc a % 2) (b % 2)) (fewer ∙ sym (is half (b / 2)))

    -- Each bit of the result is that of the operands' bits.
    each_bit : (k a b : ℕ) → bit_at k (f a b) ≡ op (bit_at k a) (bit_at k b)
    unfolding bit_at
    each_bit zero a b =
        let small = digit (a % 2) (b % 2) (omega arith) (omega arith) in
        omega (arith, halves a b, small)
    each_bit (suc k) a b =
        let small = digit (a % 2) (b % 2) (omega arith) (omega arith) in
        let high : f a b / 2 ≡ f (a / 2) (b / 2) = omega (arith, halves a b, small) in
        ap (bit_at k) high ∙ each_bit k (a / 2) (b / 2)

pub bit_at-bit_and : (k a b : ℕ) → bit_at k (bit_and a b) ≡ min (bit_at k a) (bit_at k b)
bit_at-bit_and =
    each_bit (λ b. zero) min bit_and (λ a b. bit_and-bitwise a b) (λ b. omega arith)
      (λ x y p q. omega arith)

pub bit_at-bit_or : (k a b : ℕ) → bit_at k (bit_or a b) ≡ max (bit_at k a) (bit_at k b)
bit_at-bit_or =
    each_bit (λ b. b) max bit_or (λ a b. bit_or-bitwise a b) (λ b. omega arith)
      (λ x y p q. omega arith)

pub bit_at-lt : (k w : ℕ) → bit_at k w < 2
unfolding bit_at
bit_at-lt zero w = omega arith
bit_at-lt (suc k) w = bit_at-lt k (w / 2)

-- A test of all numbers below a bound.
unfoldable pub every : ℕ → (ℕ → Bool) → Bool
every zero test = true
every (suc bound) test = every bound test && test bound

pub every-at : (test : ℕ → Bool) (n bound : ℕ) → n < bound → every bound test ≡ true → test n ≡ true
unfolding every
every-at test n zero small all = absurd (omega arith)
every-at test n (suc bound) small all = ground (arith, every-at test n bound)

-- The words with one bit, and with all others, bit by bit.
abbrev pub is_power : ℕ → ℕ → Bool
is_power bit k =
    (bit_at k (2 ^ bit) == (if k == bit then 1 else 0))
    && (bit_at k (u32_max - 2 ^ bit) == (if k == bit then 0 else 1))

powers_table : every 32 (λ bit. every 32 (is_power bit)) ≡ true
unfolding every bit_at
powers_table = refl

pub power_bits : (bit k : ℕ) → bit < 32 → k < 32 → is_power bit k ≡ true
power_bits bit k small inner =
    every-at (is_power bit) k 32 inner
      (every-at (λ b. every 32 (is_power b)) bit 32 small powers_table)
