-- ===== src/Cache/UrbData.antt =====
-- `ehub_xhci_cache_block_allocate_urb`: cache blocks for the data of a URB, all of them or none;
-- and the path that leaves with the lock held.
use fl.Base.Chain.{count}
use fl.Cache.UrbFree.{free_by_urb_lem}
use fl.Device.{add_fault, out_of_bounds, null_pointer, deadlock}
use fl.Cache.UrbBlocks.{Holds, on_device-SameBlocks, Claimed, claim_loop-Claimed, Holds-none}
use fl.Cache.Partition.{IsPartition, SameBlocks-IsPartition}
use fl.Xhci.Frame.{
  IsUnlocked, SameBlocks, queue_cache_write-IsUnlocked, queue_cache_write-SameBlocks,
  spin_lock-SameBlocks,
}
use fl.Base.Int.{ℤ, pos, is_neg, enomem}
use fl.Kernel.{Kernel}
use fl.Xhci.{Xhci, spin_lock}
use fl.Cache.{
  write_block, write_loop, UrbPriv, cache_block_size, block_allocate_urb, blocks_needed,
  max_data_blocks, new_urb_priv, claim_loop,
}
use fl.Base.{
  ℕ, replicate, List, length, Option-cases, get_elem?, ◌≡◌, ◌∙◌, ap, inl, inr, suc, ◌++◌, ◌⊎◌, sym,
  min, true, Bool-cases, drop, ◌-◌, zero, refl, ◌≤◌, ◌<◌, [], ◌∷◌, arith, ltb, false, none,
}

write_block-SameBlocks :
    (k : Kernel) (i : ℕ) (start : List ℕ) (len : ℕ) (p : UrbPriv) (x : Xhci)
    → SameBlocks x (write_block k i start len p x).0
unfolding write_block
write_block-SameBlocks k i start len p x =
    elim (Option-cases (get_elem? p.ehub_data_cache_block i)) [
      | inl e ↦ rw (e, write_block) (on_device-SameBlocks (add_fault out_of_bounds) x)
      | inr (entry, e) ↦ elim (Option-cases entry) [
        | inl f ↦ rw (e, f, write_block) (on_device-SameBlocks (add_fault null_pointer) x)
        | inr (b, f) ↦ rw (e, f, write_block) (queue_cache_write-SameBlocks k _ x)
      ]
    ]

write_block-IsUnlocked :
    (k : Kernel) (i : ℕ) (start : List ℕ) (len : ℕ) (p : UrbPriv) (x : Xhci)
    → IsUnlocked x
    → IsUnlocked (write_block k i start len p x).0
unfolding write_block
write_block-IsUnlocked k i start len p x u =
    elim (Option-cases (get_elem? p.ehub_data_cache_block i)) [
      | inl e ↦ rw (e, write_block) u
      | inr (entry, e) ↦ elim (Option-cases entry) [
        | inl f ↦ rw (e, f, write_block) u
        | inr (b, f) ↦ rw (e, f, write_block) (queue_cache_write-IsUnlocked k _ x u)
      ]
    ]

-- What the allocation for a URB leaves: all blocks shared out, the lock free, and either the
-- blocks that were claimed with a status of zero, or the lists of before, the free one up to order,
-- no block for the URB, and the error.
pub record AllOrNothing (n needed : ℕ) (x₀ : Xhci) (r : Xhci × UrbPriv × ℤ) : Type 0 where
  pub shared : IsPartition n r.0
  pub unlocked : IsUnlocked r.0
  pub outcome :
      ((bs : List ℕ) × Holds x₀ r.0 bs r.1 × (length bs ≡ needed) × (r.2 ≡ pos 0))
      ⊎ ((r.0.cache_list_used ≡ x₀.cache_list_used)
          × ((b : ℕ) → count b r.0.cache_list_free ≡ count b x₀.cache_list_free)
          × (r.1.cache_block_cnt ≡ 0)
          × (r.1.ehub_data_cache_block ≡ replicate 6 none)
          × (is_neg r.2 ≡ true))

SameBlocks-Holds :
    {x₀ x y : Xhci} {bs : List ℕ} {p : UrbPriv} → SameBlocks x y → Holds x₀ x bs p → Holds x₀ y bs p
SameBlocks-Holds {bs = bs} s h = record {
  from_free = h.from_free ∙ ap (◌++◌ bs) (sym s.same_free);
  to_used = s.same_used ∙ h.to_used;
  held = h.held;
  held_count = h.held_count;
}

-- Blocks that are shared out, of which the same are used, are free as before.
free_as_before :
    (n : ℕ) {x y : Xhci}
    → IsPartition n x
    → IsPartition n y
    → y.cache_list_used ≡ x.cache_list_used
    → (b : ℕ) → count b y.cache_list_free ≡ count b x.cache_list_free
free_as_before n v w same b = omega (arith, v.once b, w.once b, ap (count b) same)

write_loop-AllOrNothing :
    (n : ℕ) (k : Kernel) (rounds i : ℕ) (start : List ℕ) (len needed : ℕ) (bs : List ℕ)
    (x₀ x : Xhci) (p : UrbPriv)
    → IsPartition n x₀
    → IsPartition n x
    → IsUnlocked x
    → length bs ≡ needed
    → length bs < max_data_blocks
    → Holds x₀ x bs p
    → AllOrNothing n needed x₀ (write_loop k rounds i start len p x)
unfolding write_loop
write_loop-AllOrNothing n k zero i start len needed bs x₀ x p v₀ v u e six h = record {
  shared = v;
  unlocked = u;
  outcome = inl (bs, h, e, refl);
}
write_loop-AllOrNothing n k (suc rounds) i start len needed bs x₀ x p v₀ v u e six h =
    let w = write_block k i start (min len cache_block_size) p x in
    let s = write_block-SameBlocks k i start (min len cache_block_size) p x in
    let v' = SameBlocks-IsPartition n s v in
    let u' = write_block-IsUnlocked k i start (min len cache_block_size) p x u in
    let h' = SameBlocks-Holds s h in
    elim (Bool-cases (is_neg w.1)) [
      | inl bad ↦
          let f = free_by_urb_lem n x₀ w.0 bs p v' u' (omega arith) h' in
          rw (bad, write_loop)
            (record {
              shared = f.0;
              unlocked = f.1;
              outcome = inr (f.2, free_as_before n v₀ f.0 f.2, f.3, f.4, bad);
            })
      | inr good ↦
          rw (good, write_loop)
            (write_loop-AllOrNothing n k rounds (suc i) (drop (min len cache_block_size) start)
              (len - min len cache_block_size) needed bs x₀ w.0 p v₀ v' u' e six h')
    ]

-- `ehub_xhci_cache_block_allocate_urb` with enough free blocks, for a URB that holds none and needs
-- fewer than six: it gets all the blocks that it needs, from the head of the free list, and status 0; or
-- it fails, holds none, and the used list is that of before and the free one holds the same blocks, up
-- to order. The lock is given back and the blocks stay shared out.
pub block_allocate_urb_lem :
    (n : ℕ) (k : Kernel) (urb : ℕ) (start : List ℕ) (len : ℕ) (x : Xhci)
    → IsUnlocked x
    → IsPartition n x
    → blocks_needed len ≤ x.number_of_caches_free
    → blocks_needed len < max_data_blocks
    → AllOrNothing n (blocks_needed len) x (block_allocate_urb k urb start len new_urb_priv x)
unfolding block_allocate_urb
block_allocate_urb_lem n k urb start len x u v enough few_blocks =
    let needed = blocks_needed len in
    let s = spin_lock-SameBlocks x in
    let w = SameBlocks-IsPartition n s v in
    let r = claim_loop needed 0 urb new_urb_priv (spin_lock x) in
    let c : Claimed n needed x r =
      claim_loop-Claimed n needed urb needed [] x (spin_lock x) new_urb_priv w
        (omega (arith, w.free_count, s.same_free_count)) (omega arith) (omega arith)
        (SameBlocks-Holds s (Holds-none x)) in
    let few : ltb (spin_lock x).number_of_caches_free needed ≡ false =
      ground (arith, s.same_free_count) in
    rw (few, c.5)
      (write_loop-AllOrNothing n k needed 0 start len needed c.0 x r.0 r.1 v c.3 c.4 c.2
        (omega (arith, c.2)) c.1)

-- Where the free blocks do not suffice, `ehub_xhci_cache_block_allocate_urb` returns -ENOMEM with
-- the lock held and every block as it was: the next call that takes the lock waits for ever.
pub block_allocate_urb_keeps_lock :
    (k : Kernel) (urb : ℕ) (start : List ℕ) (len : ℕ) (p : UrbPriv) (x : Xhci)
    → IsUnlocked x
    → x.number_of_caches_free < blocks_needed len
    → let (y, q, status) = block_allocate_urb k urb start len p x in
      (status ≡ enomem)
      × (y.cache_list_lock ≡ true)
      × SameBlocks x y
      × ((spin_lock y).device.faults ≡ deadlock ∷ x.device.faults)
unfolding block_allocate_urb spin_lock
block_allocate_urb_keeps_lock k urb start len p x u few =
    let short : ltb x.number_of_caches_free (blocks_needed len) ≡ true = ground arith in
    rw (u, short)
      (
        refl,
        refl,
        record {
          same_free = refl;
          same_used = refl;
          same_free_count = refl;
          same_used_count = refl;
        },
        refl,
      )
