-- ===== src/Xhci/Frame.antt =====
-- What the queue of cache writes (xhci-ehub.c) leaves alone: the cache blocks; and it gives the
-- lock back.
use fl.Base.{ℕ, zero, suc, ◌≡◌, refl, ◌∙◌, inl, inr, false, arith, Option-cases}
use fl.Kernel.{Kernel}
use fl.Xhci.{
  Xhci, CacheWork, spin_lock, cache_work_add, cache_work_expand, take_work, get_work_locked,
  get_cache_work_context, write_work, queue_cache_write,
}

-- The lists of blocks and their counters are the same.
pub record SameBlocks (x y : Xhci) : Type 0 where
  pub same_free : y.cache_list_free ≡ x.cache_list_free
  pub same_used : y.cache_list_used ≡ x.cache_list_used
  pub same_free_count : y.number_of_caches_free ≡ x.number_of_caches_free
  pub same_used_count : y.number_of_caches_used ≡ x.number_of_caches_used

pub SameBlocks-refl : (x : Xhci) → SameBlocks x x
SameBlocks-refl x = record {
  same_free = refl;
  same_used = refl;
  same_free_count = refl;
  same_used_count = refl;
}

pub SameBlocks-trans : {x y z : Xhci} → SameBlocks x y → SameBlocks y z → SameBlocks x z
SameBlocks-trans a b = record {
  same_free = b.same_free ∙ a.same_free;
  same_used = b.same_used ∙ a.same_used;
  same_free_count = b.same_free_count ∙ a.same_free_count;
  same_used_count = b.same_used_count ∙ a.same_used_count;
}

pub spin_lock-SameBlocks : (x : Xhci) → SameBlocks x (spin_lock x)
unfolding spin_lock
spin_lock-SameBlocks x = ground arith

pub cache_work_add-SameBlocks : (k : Kernel) (x : Xhci) → SameBlocks x (cache_work_add k x).0
unfolding cache_work_add
cache_work_add-SameBlocks k x = ground arith

pub cache_work_expand-SameBlocks :
    (k : Kernel) (n : ℕ) (x : Xhci) → SameBlocks x (cache_work_expand k n x).0
unfolding cache_work_expand
cache_work_expand-SameBlocks k zero x = SameBlocks-refl x
cache_work_expand-SameBlocks k (suc n) x =
    ground (
      arith,
      cache_work_add-SameBlocks k x,
      cache_work_expand-SameBlocks k n (cache_work_add k x).0,
    )

take_work-SameBlocks : (x : Xhci) → SameBlocks x (take_work x).0
unfolding take_work
take_work-SameBlocks x = ground arith

get_work_locked-SameBlocks : (k : Kernel) (x : Xhci) → SameBlocks x (get_work_locked k x).0
unfolding get_work_locked
get_work_locked-SameBlocks k x = ground (
  arith,
  cache_work_expand-SameBlocks k 4 x,
  take_work-SameBlocks (cache_work_expand k 4 x).0,
  take_work-SameBlocks x,
)

get_cache_work_context-SameBlocks :
    (k : Kernel) (x : Xhci) → SameBlocks x (get_cache_work_context k x).0
unfolding get_cache_work_context
get_cache_work_context-SameBlocks k x =
    ground (arith, spin_lock-SameBlocks x, get_work_locked-SameBlocks k (spin_lock x))

write_work-SameBlocks :
    (k : Kernel) (id : ℕ) (r : ℕ → CacheWork) (x : Xhci) → SameBlocks x (write_work k id r x).0
unfolding write_work
write_work-SameBlocks k id r x = ground arith

-- A queued cache write touches no block.
pub queue_cache_write-SameBlocks :
    (k : Kernel) (r : ℕ → CacheWork) (x : Xhci) → SameBlocks x (queue_cache_write k r x).0
unfolding queue_cache_write
queue_cache_write-SameBlocks k r x = elim (Option-cases (get_cache_work_context k x).1) [
  | inl e ↦ ground (arith, get_cache_work_context-SameBlocks k x)
  | inr (id, e) ↦ ground (
    arith,
    get_cache_work_context-SameBlocks k x,
    write_work-SameBlocks k id r (get_cache_work_context k x).0,
  )
]

abbrev pub IsUnlocked : Xhci → Type 0
IsUnlocked x = x.cache_list_lock ≡ false

cache_work_add-lock :
    (k : Kernel) (x : Xhci) → (cache_work_add k x).0.cache_list_lock ≡ x.cache_list_lock
unfolding cache_work_add
cache_work_add-lock k x = ground arith

pub cache_work_expand-lock :
    (k : Kernel) (n : ℕ) (x : Xhci)
    → (cache_work_expand k n x).0.cache_list_lock ≡ x.cache_list_lock
unfolding cache_work_expand
cache_work_expand-lock k zero x = refl
cache_work_expand-lock k (suc n) x =
    ground (arith, cache_work_add-lock k x, cache_work_expand-lock k n (cache_work_add k x).0)

take_work-IsUnlocked : (x : Xhci) → IsUnlocked (take_work x).0
unfolding take_work
take_work-IsUnlocked x = ground arith

get_work_locked-IsUnlocked : (k : Kernel) (x : Xhci) → IsUnlocked (get_work_locked k x).0
unfolding get_work_locked
get_work_locked-IsUnlocked k x =
    ground (arith, take_work-IsUnlocked (cache_work_expand k 4 x).0, take_work-IsUnlocked x)

get_cache_work_context-IsUnlocked :
    (k : Kernel) (x : Xhci) → IsUnlocked x → IsUnlocked (get_cache_work_context k x).0
unfolding get_cache_work_context
get_cache_work_context-IsUnlocked k x h = ground (arith, get_work_locked-IsUnlocked k (spin_lock x))

write_work-lock :
    (k : Kernel) (id : ℕ) (r : ℕ → CacheWork) (x : Xhci)
    → (write_work k id r x).0.cache_list_lock ≡ x.cache_list_lock
unfolding write_work
write_work-lock k id r x = ground arith

pub queue_cache_write-IsUnlocked :
    (k : Kernel) (r : ℕ → CacheWork) (x : Xhci)
    → IsUnlocked x
    → IsUnlocked (queue_cache_write k r x).0
unfolding queue_cache_write
queue_cache_write-IsUnlocked k r x h = elim (Option-cases (get_cache_work_context k x).1) [
  | inl e ↦ ground (arith, get_cache_work_context-IsUnlocked k x h)
  | inr (id, e) ↦ ground (
    arith,
    get_cache_work_context-IsUnlocked k x h,
    write_work-lock k id r (get_cache_work_context k x).0,
  )
]
