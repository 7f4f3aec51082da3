-- ===== src/Base/Bytes.antt =====
-- Buffers of bytes, and 32-bit words in them, low byte first.
use Prim.Native.Nat.{ℕ, zero, suc, ◌+◌, ◌*◌, ◌/◌, ◌%◌, ◌^◌, ◌<◌, ◌≤◌}
use mathlib.Core.Path.{◌≡◌, refl, ap}
use mathlib.Core.List.{List, [], ◌∷◌, ◌++◌}
use native.Mathlib.Omega.{arith}
use fl.Base.Lists.{length, drop, take}

abbrev pub u32_max : ℕ
u32_max = 0xffff_ffff

-- The four bytes of a word.
abbrev pub le32 : ℕ → List ℕ
le32 w = w % 256 ∷ (w / 256) % 256 ∷ (w / 65536) % 256 ∷ (w / 16777216) % 256 ∷ []

-- The word that a buffer begins with. Of a shorter buffer it is 0; its reader checks the length.
abbrev pub u32_at : List ℕ → ℕ
u32_at (a ∷ b ∷ c ∷ d ∷ _) = a + 256 * b + 65536 * c + 16777216 * d
u32_at _ = 0

pub u32_at-le32 : (w : ℕ) (rest : List ℕ) → w < 2 ^ 32 → u32_at (le32 w ++ rest) ≡ w
u32_at-le32 w rest h = omega arith

-- `memcpy` into a buffer, from an offset on. What would go past the end is not written; the
-- caller records the fault.
unfoldable pub overwrite : ℕ → List ℕ → List ℕ → List ℕ
overwrite off bs [] = []
overwrite zero [] (y ∷ ys) = y ∷ ys
overwrite zero (b ∷ bs) (y ∷ ys) = b ∷ overwrite zero bs ys
overwrite (suc off) bs (y ∷ ys) = y ∷ overwrite off bs ys

pub length-overwrite : (off : ℕ) (bs ys : List ℕ) → length (overwrite off bs ys) ≡ length ys
unfolding overwrite
length-overwrite off bs [] = refl
length-overwrite zero [] (y ∷ ys) = refl
length-overwrite zero (b ∷ bs) (y ∷ ys) = ap suc (length-overwrite zero bs ys)
length-overwrite (suc off) bs (y ∷ ys) = ap suc (length-overwrite off bs ys)

-- What fits is written whole, and the rest of the buffer stays.
pub overwrite_zero :
    (bs ys : List ℕ) → length bs ≤ length ys → overwrite 0 bs ys ≡ bs ++ drop (length bs) ys
unfolding overwrite
overwrite_zero [] [] h = refl
overwrite_zero [] (y ∷ ys) h = refl
overwrite_zero (b ∷ bs) [] h = absurd (omega arith)
overwrite_zero (b ∷ bs) (y ∷ ys) h = ap (◌∷◌ b) (overwrite_zero bs ys (omega arith))

-- The bytes from `off` on, in a buffer that is long enough.
pub drop-overwrite :
    (off : ℕ) (bs ys : List ℕ)
    → off + length bs ≤ length ys
    → drop off (overwrite off bs ys) ≡ bs ++ drop (length bs) (drop off ys)
unfolding overwrite
drop-overwrite zero bs ys h = overwrite_zero bs ys (omega arith)
drop-overwrite (suc off) bs [] h = absurd (omega arith)
drop-overwrite (suc off) bs (y ∷ ys) h = drop-overwrite off bs ys (omega arith)

pub take-overwrite : (off : ℕ) (bs ys : List ℕ) → take off (overwrite off bs ys) ≡ take off ys
unfolding overwrite
take-overwrite zero bs ys = refl
take-overwrite (suc off) bs [] = refl
take-overwrite (suc off) bs (y ∷ ys) = ap (◌∷◌ y) (take-overwrite off bs ys)

-- A piece of the buffer's own length replaces it.
pub overwrite_whole : (ys buf : List ℕ) → length ys ≡ length buf → overwrite 0 ys buf ≡ ys
unfolding overwrite
overwrite_whole [] [] h = refl
overwrite_whole [] (b ∷ buf) h = absurd (omega arith)
overwrite_whole (y ∷ ys) [] h = absurd (omega arith)
overwrite_whole (y ∷ ys) (b ∷ buf) h = ap (◌∷◌ y) (overwrite_whole ys buf (omega arith))

-- Two pieces, one behind the other, fill a buffer of their length.
pub overwrite_all :
    (xs ys buf : List ℕ)
    → length xs + length ys ≡ length buf
    → overwrite (length xs) ys (overwrite 0 xs buf) ≡ xs ++ ys
unfolding overwrite
overwrite_all [] ys [] h = overwrite_whole ys [] (omega arith)
overwrite_all [] ys (b ∷ buf) h = overwrite_whole ys (b ∷ buf) (omega arith)
overwrite_all (x ∷ xs) ys [] h = absurd (omega arith)
overwrite_all (x ∷ xs) ys (b ∷ buf) h = ap (◌∷◌ x) (overwrite_all xs ys buf (omega arith))
