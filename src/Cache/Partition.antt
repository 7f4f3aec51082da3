-- ===== src/Cache/Partition.antt =====
-- The invariant of the cache blocks: each block is on exactly one of the two lists, once, and the
-- counters count the lists. It is about the operations of xhci-ehub.c on blocks.
use fl.Base.{
  ℕ, ◌+◌, ◌<◌, ◌≡◌, arith, ltb, if◌then◌else◌, length, Option, List, [], none, ◌⊎◌, ◌∷◌, inl, ◌++◌,
  some, inr, refl, ◌∙◌,
}
use fl.Base.Chain.{
  count, remove, count-append_one, count-remove, length-remove, length-append_one, remove-absent,
  count_head, remove_head,
}
use fl.Xhci.{Xhci, spin_lock, spin_unlock}
use fl.Xhci.Frame.{SameBlocks, IsUnlocked, spin_lock-SameBlocks}
use fl.Cache.{move_to_used, move_to_free, block_allocate, set_block_urb, block_free}

-- Blocks 0 to `n - 1` are shared out between the two lists.
pub record IsPartition (n : ℕ) (x : Xhci) : Type 0 where
  pub once :
      (b : ℕ) → count b x.cache_list_free + count b x.cache_list_used ≡ (if ltb b n then 1 else 0)
  pub free_count : x.number_of_caches_free ≡ length x.cache_list_free
  pub used_count : x.number_of_caches_used ≡ length x.cache_list_used

pub SameBlocks-IsPartition :
    (n : ℕ) {x y : Xhci} → SameBlocks x y → IsPartition n x → IsPartition n y
SameBlocks-IsPartition n s v = record {
  once = λ b. ground (arith, v.once b);
  free_count = ground arith;
  used_count = ground arith;
}

pub move_to_used-IsPartition :
    (n b : ℕ) (x : Xhci)
    → 0 < count b x.cache_list_free
    → IsPartition n x
    → IsPartition n (move_to_used b x)
unfolding move_to_used
move_to_used-IsPartition n b x h v = record {
  once = λ a. ground (
    arith,
    v.once a,
    v.once b,
    count-remove a b x.cache_list_free,
    count-remove a b x.cache_list_used,
    count-append_one a b (remove b x.cache_list_used),
  );
  free_count = ground (arith, length-remove b x.cache_list_free);
  used_count =
      ground
        (arith, v.once b, remove-absent b x.cache_list_used, length-append_one x.cache_list_used b);
}

pub move_to_free-IsPartition :
    (n b : ℕ) (x : Xhci)
    → 0 < count b x.cache_list_used
    → IsPartition n x
    → IsPartition n (move_to_free b x)
unfolding move_to_free
move_to_free-IsPartition n b x h v = record {
  once = λ a. ground (
    arith,
    v.once a,
    v.once b,
    count-remove a b x.cache_list_free,
    count-remove a b x.cache_list_used,
    count-append_one a b (remove b x.cache_list_free),
  );
  free_count =
      ground
        (arith, v.once b, remove-absent b x.cache_list_free, length-append_one x.cache_list_free b);
  used_count = ground (arith, length-remove b x.cache_list_used);
}

pub List-cases : (l : List ℕ) → (l ≡ []) ⊎ ((b : ℕ) × (r : List ℕ) × (l ≡ b ∷ r))
List-cases [] = inl refl
List-cases (b ∷ r) = inr (b, r, refl)

-- What a block allocation has done: nothing, where no block is free; or the first free block is
-- now the last used one.
pub data Allocates (x y : Xhci) : Option ℕ → Type 0 where
  full : x.cache_list_free ≡ [] → SameBlocks x y → Allocates x y none
  takes :
      (b : ℕ)
      → x.cache_list_free ≡ b ∷ y.cache_list_free
      → y.cache_list_used ≡ x.cache_list_used ++ b ∷ []
      → Allocates x y (some b)

pub not_used :
    (n b : ℕ) (r : List ℕ) (x : Xhci)
    → IsPartition n x
    → x.cache_list_free ≡ b ∷ r
    → count b x.cache_list_used ≡ 0
not_used n b r x v e = ground (arith, v.once b, count_head b r)

pub is_free :
    (n b : ℕ) (r : List ℕ) (x : Xhci) → x.cache_list_free ≡ b ∷ r → 0 < count b x.cache_list_free
is_free n b r x e = ground (arith, count_head b r)

block_allocate_full :
    (x : Xhci) → IsUnlocked x → x.cache_list_free ≡ [] → block_allocate x ≡ (spin_unlock x, none)
unfolding block_allocate spin_lock
block_allocate_full x h e = ground arith

block_allocate_takes :
    (x : Xhci) (b : ℕ) (r : List ℕ)
    → IsUnlocked x
    → x.cache_list_free ≡ b ∷ r
    → block_allocate x ≡ (spin_unlock (move_to_used b (set_block_urb b none x)), some b)
unfolding block_allocate spin_lock move_to_used
block_allocate_takes x b r h e = ground arith

pub unlock-SameBlocks : (x : Xhci) → SameBlocks x (spin_unlock x)
unlock-SameBlocks x = ground arith

pub claimed-IsPartition :
    (n b : ℕ) (r : List ℕ) (x y : Xhci)
    → IsPartition n x
    → x.cache_list_free ≡ b ∷ r
    → SameBlocks x y
    → IsPartition n (spin_unlock (move_to_used b y))
claimed-IsPartition n b r x y v e s =
    SameBlocks-IsPartition n (unlock-SameBlocks (move_to_used b y)) (
      move_to_used-IsPartition n b y (is_free n b r y (s.same_free ∙ e))
        (SameBlocks-IsPartition n s v))

pub claimed-Allocates :
    (n b : ℕ) (r : List ℕ) (x y : Xhci)
    → IsPartition n x
    → x.cache_list_free ≡ b ∷ r
    → SameBlocks x y
    → Allocates x (spin_unlock (move_to_used b y)) (some b)
unfolding move_to_used
claimed-Allocates n b r x y v e s =
    takes b (ground (arith, remove_head b r))
      (ground (arith, not_used n b r x v e, remove-absent b x.cache_list_used))

-- `ehub_xhci_cache_block_allocate` keeps the blocks shared out, gives the lock back, and takes the
-- first free block if there is one.
pub block_allocate_lem :
    (n : ℕ) (x : Xhci)
    → IsUnlocked x
    → IsPartition n x
    → IsPartition n (block_allocate x).0
      × IsUnlocked (block_allocate x).0
      × Allocates x (block_allocate x).0 (block_allocate x).1
block_allocate_lem n x h v = elim (List-cases x.cache_list_free) [
  | inl e ↦
      rw (block_allocate_full x h e)
        (SameBlocks-IsPartition n (unlock-SameBlocks x) v, refl, full e (unlock-SameBlocks x))
  | inr (b, r, e) ↦ rw (block_allocate_takes x b r h e) (
    claimed-IsPartition n b r x _ v e (ground arith),
    refl,
    claimed-Allocates n b r x _ v e (ground arith),
  )
]

-- `ehub_xhci_cache_block_free` on a block that is in use keeps the blocks shared out: the block
-- leaves the used list for the end of the free list, and the lock is given back.
pub block_free_lem :
    (n b : ℕ) (x : Xhci)
    → IsUnlocked x
    → IsPartition n x
    → 0 < count b x.cache_list_used
    → IsPartition n (block_free b x)
      × IsUnlocked (block_free b x)
      × ((block_free b x).cache_list_free ≡ x.cache_list_free ++ b ∷ [])
      × ((block_free b x).cache_list_used ≡ remove b x.cache_list_used)
unfolding block_free spin_lock move_to_free
block_free_lem n b x h v u = (
  SameBlocks-IsPartition n (unlock-SameBlocks (move_to_free b (spin_lock x))) (
      move_to_free-IsPartition n b (spin_lock x) (ground arith)
        (SameBlocks-IsPartition n (spin_lock-SameBlocks x) v)),
  ground arith,
  ground (arith, v.once b, remove-absent b x.cache_list_free),
  ground arith,
)
