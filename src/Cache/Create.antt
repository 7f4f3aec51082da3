-- ===== src/Cache/Create.antt =====
-- `ehub_xhci_cache_create` establishes the invariant of the blocks.
use fl.Base.Chain.{count-append_one, length-append_one}
use fl.Register.{ehub_xhci_writel}
use fl.Base.Int.{pos}
use fl.Xhci.Frame.{IsUnlocked, cache_work_expand-SameBlocks, cache_work_expand-lock}
use fl.Device.{Device, record_call}
use fl.Cache.{
  cache_create, create_blocks, number_of_blocks, create_lists, cache_initialization_register,
  devhost_cache_bar_reg_address, create_block,
}
use fl.Kernel.{Kernel, Call, kzalloc}
use fl.Xhci.{Xhci, cache_work_expand}
use fl.Base.{ℕ, ◌≡◌, List, suc, ◌+◌, subst, arith, true, [], ◌∷◌, zero, refl, ◌∙◌}
use fl.Cache.Partition.{IsPartition}

-- Every allocation succeeds: the source does not check that of a block.
abbrev pub NeverFails : Kernel → Type 0
NeverFails k = (calls : List Call) → k.allocates calls ≡ true

-- One round of the loop adds the next block.
create_block-IsPartition :
    (k : Kernel) (n : ℕ) (x : Xhci)
    → NeverFails k
    → IsPartition n x
    → IsPartition (suc n) (create_block k n x)
unfolding create_block
create_block-IsPartition k n x h v = record {
  once = λ b.
      ground
        (arith, h (kzalloc ∷ x.device.history), v.once b, count-append_one b n x.cache_list_free);
  free_count =
      ground (arith, h (kzalloc ∷ x.device.history), length-append_one x.cache_list_free n);
  used_count = ground (arith, h (kzalloc ∷ x.device.history));
}

create_blocks-IsPartition :
    (k : Kernel) (rounds n m : ℕ) (x : Xhci)
    → NeverFails k
    → n + rounds ≡ m
    → IsPartition n x
    → IsPartition m (create_blocks k rounds n x)
unfolding create_blocks
create_blocks-IsPartition k zero n m x h e v = subst (λ t. IsPartition t x) (omega arith) v
create_blocks-IsPartition k (suc rounds) n m x h e v =
    create_blocks-IsPartition k rounds (suc n) m (create_block k n x) h (omega arith)
      (create_block-IsPartition k n x h v)

create_block-others :
    (k : Kernel) (n : ℕ) (x : Xhci)
    → ((create_block k n x).cache_list_lock ≡ x.cache_list_lock)
      × ((create_block k n x).cache_list_used ≡ x.cache_list_used)
unfolding create_block
create_block-others k n x = ground arith

create_blocks-others :
    (k : Kernel) (rounds n : ℕ) (x : Xhci)
    → ((create_blocks k rounds n x).cache_list_lock ≡ x.cache_list_lock)
      × ((create_blocks k rounds n x).cache_list_used ≡ x.cache_list_used)
unfolding create_blocks
create_blocks-others k zero n x = (refl, refl)
create_blocks-others k (suc rounds) n x =
    let ih = create_blocks-others k rounds (suc n) (create_block k n x) in
    let b = create_block-others k n x in (ih.0 ∙ b.0, ih.1 ∙ b.1)

empty-IsPartition :
    {y : Xhci}
    → y.cache_list_free ≡ []
    → y.cache_list_used ≡ []
    → y.number_of_caches_free ≡ 0
    → y.number_of_caches_used ≡ 0
    → IsPartition 0 y
empty-IsPartition f u nf nu = record {
  once = λ b. ground arith;
  free_count = ground arith;
  used_count = ground arith;
}

-- `ehub_xhci_cache_create` succeeds where memory does not run out: then all 128 blocks are on the
-- free list once, no block is used, and the lock is free.
pub cache_create_lem :
    (k : Kernel) (meanwhile : Device → Device) (x : Xhci)
    → NeverFails k
    → let (y, status) = cache_create k meanwhile x in
      IsPartition number_of_blocks y × IsUnlocked y × (y.cache_list_used ≡ []) × (status ≡ pos 0)
unfolding cache_create
cache_create_lem k meanwhile x h = rw (h (kzalloc ∷ x.device.history)) (
    let y = record (create_lists x) {
      device =
          ehub_xhci_writel k meanwhile cache_initialization_register devhost_cache_bar_reg_address
            (record_call kzalloc x.device);
    } in
    let s = cache_work_expand-SameBlocks k 32 y in
    let z = (cache_work_expand k 32 y).0 in
    let o = create_blocks-others k number_of_blocks 0 z in
    (
      create_blocks-IsPartition k number_of_blocks 0 number_of_blocks z h (omega arith)
          (empty-IsPartition s.same_free s.same_used s.same_free_count s.same_used_count),
      o.0 ∙ cache_work_expand-lock k 32 y,
      o.1 ∙ s.same_used,
      refl,
    ))
