-- ===== src/Base/Chain.antt =====
-- The kernel's intrusive lists, as lists of node numbers. A node stands on one list at most, so
-- `list_del` takes it from whichever list has it.
use Prim.Native.Nat.{ℕ, ◌+◌, ◌-◌, ◌<◌}
use mathlib.Core.Path.{◌≡◌, refl}
use mathlib.Core.List.{List, [], ◌∷◌, ◌++◌}
use native.Mathlib.Omega.{arith}
use fl.Base.Tests.{◌==◌, if◌then◌else◌}
use fl.Base.Lists.{length, length-append}

abbrev pub count : ℕ → List ℕ → ℕ
count a [] = 0
count a (x ∷ xs) = (if a == x then 1 else 0) + count a xs

-- `list_del`: the node leaves the list.
unfoldable pub remove : ℕ → List ℕ → List ℕ
remove a [] = []
remove a (x ∷ xs) = if a == x then xs else x ∷ remove a xs

pub count-append :
    (node : ℕ) (front back : List ℕ)
    → count node (front ++ back) ≡ count node front + count node back
count-append node [] back = omega arith
count-append node (first ∷ rest) back = omega (arith, count-append node rest back)

pub count-append_one :
    (a b : ℕ) (xs : List ℕ) → count a (xs ++ b ∷ []) ≡ count a xs + (if a == b then 1 else 0)
count-append_one a b xs = omega (arith, count-append a xs (b ∷ []))

pub count-remove :
    (a b : ℕ) (xs : List ℕ) → count a (remove b xs) ≡ count a xs - (if a == b then 1 else 0)
unfolding remove
count-remove a b [] = omega arith
count-remove a b (x ∷ xs) = ground (arith, count-remove a b xs)

pub remove-absent : (a : ℕ) (xs : List ℕ) → count a xs ≡ 0 → remove a xs ≡ xs
unfolding remove
remove-absent a [] h = refl
remove-absent a (x ∷ xs) h = ground (arith, remove-absent a xs)

pub length-remove : (a : ℕ) (xs : List ℕ) → 0 < count a xs → length (remove a xs) + 1 ≡ length xs
unfolding remove
length-remove a [] h = absurd (omega arith)
length-remove a (x ∷ xs) h = ground (arith, length-remove a xs)

pub length-append_one : (xs : List ℕ) (a : ℕ) → length (xs ++ a ∷ []) ≡ length xs + 1
length-append_one xs a = omega (arith, length-append {0} xs (a ∷ []))

pub count_head : (a : ℕ) (xs : List ℕ) → 0 < count a (a ∷ xs)
count_head a xs = ground arith

pub remove_head : (a : ℕ) (xs : List ℕ) → remove a (a ∷ xs) ≡ xs
unfolding remove
remove_head a xs = ground arith

pub remove-append_one : (a : ℕ) (xs : List ℕ) → count a xs ≡ 0 → remove a (xs ++ a ∷ []) ≡ xs
unfolding remove
remove-append_one a [] h = remove_head a []
remove-append_one a (x ∷ xs) h = ground (arith, remove-append_one a xs)

-- Taking the first of the last blocks off the used list.
pub remove-append_middle :
    (b : ℕ) (xs ys : List ℕ) → count b xs ≡ 0 → remove b (xs ++ b ∷ ys) ≡ xs ++ ys
unfolding remove
remove-append_middle b [] ys h = remove_head b ys
remove-append_middle b (x ∷ xs) ys h = ground (arith, remove-append_middle b xs ys)

pub count_middle : (b : ℕ) (xs ys : List ℕ) → 0 < count b (xs ++ b ∷ ys)
count_middle b xs ys = ground (arith, count-append b xs (b ∷ ys))
