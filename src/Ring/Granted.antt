-- ===== src/Ring/Granted.antt =====
-- `xhci_ring_alloc` and `xhci_alloc_segments_for_ring` (xhci-mem.c) where the kernel has memory.
use fl.Base.Int.{pos}
use fl.Cache.Segment.{segment_full}
use fl.Xhci.Frame.{IsUnlocked}
use fl.Ring.NewRing.{NewRing, IsNew, new, ring_alloc-NewRing}
use fl.Device.{record_call}
use fl.Ring.{Quirks, RingType, Ring, Segment, ehub_cache_ring, is_event}
use fl.Xhci.{Xhci, on_device, spin_unlock}
use fl.Kernel.{Kernel, Call, dma_pool_alloc, kzalloc}
use fl.Ring.Build.{
  segment_block, alloc_segments, segment_alloc, ring_alloc, link_segments, alloc_more, all_bytes,
}
use fl.Base.{
  ℕ, List, Bool, ◌≡◌, some, true, false, ◌∷◌, refl, ◌-◌, ◌<◌, Bool-cases, arith, suc, [], none,
  length, ◌∙◌, ◌*◌, ◌==◌, ◌++◌, inl, ◌^◌, subst, inr, zero,
}

new_is_new : {kind : RingType} {n : ℕ} {r : Ring} → NewRing kind n (some r) → IsNew kind n r
new_is_new (new r v) = v

-- A kernel that has memory for everything.
abbrev pub Grants : Kernel → Type 0
Grants k =
    ((calls : List Call) → k.allocates calls ≡ true)
    × ((calls : List Call) → (address : ℕ) × (k.pools calls ≡ some address))

-- Whether a cache write has failed.
abbrev pub write_failed : Xhci → Bool
write_failed x = x.device.error_flags.embedded_cache_write_error

module _ (k : Kernel) (q : Quirks) (kind : RingType) (cycle : ℕ) (g : Grants k)
    (c : ehub_cache_ring kind ≡ false) where
  segment_alloc-some :
      (x : Xhci)
      → (s : Segment) × ((segment_alloc k cycle x).1 ≡ some s)
        × (write_failed (segment_alloc k cycle x).0 ≡ write_failed x)
  unfolding segment_alloc
  segment_alloc-some x =
      let (address, e) = g.1 (dma_pool_alloc ∷ kzalloc ∷ x.device.history) in
      rw (segment_alloc, g.0 (kzalloc ∷ x.device.history), e) (_, refl, refl)

  segment_block_eq : (s : Segment) (x : Xhci) → segment_block k kind cycle s x ≡ (x, some s)
  unfolding segment_block
  segment_block_eq s x = rw c refl

  link_segments-write_failed :
      (prev address : ℕ) (segs : List Segment) (x : Xhci)
      → write_failed (link_segments k q kind prev address segs x).0 ≡ write_failed x
  unfolding link_segments
  link_segments-write_failed prev address segs x = ground (arith, c)

  alloc_more-some :
      (more : ℕ) (segs : List Segment) (x : Xhci)
      → write_failed x ≡ false
      → (segs' : List Segment) × ((alloc_more k q kind cycle more segs x).1 ≡ some segs')
  unfolding alloc_more
  alloc_more-some zero segs x w = (segs, refl)
  alloc_more-some (suc more) segs x w =
      let (s, e, same) = segment_alloc-some x in
      let x₁ = (segment_alloc k cycle x).0 in
      let step = link_segments k q kind (length segs - 1) s.dma segs x₁ in
      let fine : write_failed step.0 ≡ false =
        link_segments-write_failed (length segs - 1) s.dma segs x₁ ∙ same ∙ w in
      rw (alloc_more, e, segment_block_eq s x₁, segment_block_eq s x₁, fine)
        (alloc_more-some more (step.1 ++ s ∷ []) step.0 fine)

  alloc_segments-some :
      (num_segs : ℕ) (x : Xhci)
      → write_failed x ≡ false
      → (segs : List Segment) × ((alloc_segments k q kind cycle num_segs x).1 ≡ some segs)
  unfolding alloc_segments
  alloc_segments-some num_segs x w =
      let (s, e, same) = segment_alloc-some x in
      let x₁ = (segment_alloc k cycle x).0 in
      let (segs, f) = alloc_more-some (num_segs - 1) (s ∷ []) x₁ (same ∙ w) in
      rw (alloc_segments, e, segment_block_eq s x₁, segment_block_eq s x₁, f) (_, refl)

  ring_alloc-some :
      (num_segs : ℕ) (x : Xhci)
      → write_failed x ≡ false
      → (r : Ring) × ((ring_alloc k q kind cycle num_segs x).1 ≡ some r)
  unfolding ring_alloc
  ring_alloc-some num_segs x w =
      let x₁ = on_device (record_call kzalloc) x in
      let (segs, e) = alloc_segments-some num_segs x₁ w in
      elim (Bool-cases (num_segs == 0)) [
        | inl z ↦ rw (ring_alloc, g.0 (kzalloc ∷ x.device.history), z) (_, refl)
        | inr z ↦ rw (ring_alloc, g.0 (kzalloc ∷ x.device.history), z, e) (_, refl)
      ]

-- `xhci_ring_alloc` of a command or stream ring, of `n` segments, at least one and not so many
-- that their TRBs overflow the count, while no cache write has failed and the kernel has memory:
-- a ring of that kind is returned, in use, with 63 * n - 1 TRBs free and all pointers at its start.
pub ring_alloc_lem :
    (k : Kernel) (q : Quirks) (kind : RingType) (cycle n : ℕ) (x : Xhci)
    → Grants k
    → ehub_cache_ring kind ≡ false
    → is_event kind ≡ false
    → 0 < n
    → 63 * n < 2 ^ 32
    → write_failed x ≡ false
    → (r : Ring) × ((ring_alloc k q kind cycle n x).1 ≡ some r) × IsNew kind n r
ring_alloc_lem k q kind cycle n x g c h l fits w =
    let (r, e) = ring_alloc-some k q kind cycle g c n x w in
    (r, e, new_is_new (subst (NewRing kind n) e (ring_alloc-NewRing k q kind cycle n x h l fits)))

-- The two pieces of memory of a segment.
abbrev pub with_memory : Xhci → Xhci
with_memory x = on_device (λ d. record_call dma_pool_alloc (record_call kzalloc d)) x

segment_alloc_eq :
    (k : Kernel) (cycle : ℕ) (x : Xhci)
    → Grants k
    → (s : Segment) × (segment_alloc k cycle x ≡ (with_memory x, some s))
unfolding segment_alloc
segment_alloc_eq k cycle x g =
    let (address, e) = g.1 (dma_pool_alloc ∷ kzalloc ∷ x.device.history) in
    rw (segment_alloc, g.0 (kzalloc ∷ x.device.history), e) (_, refl)

segment_block_full :
    (k : Kernel) (kind : RingType) (cycle : ℕ) (s : Segment) (x : Xhci)
    → ehub_cache_ring kind ≡ true
    → IsUnlocked x
    → x.cache_list_free ≡ []
    → segment_block k kind cycle s x ≡ (spin_unlock x, none)
unfolding segment_block
segment_block_full k kind cycle s x c u full =
    let refused = segment_full k (pos cycle) (some (all_bytes s.trbs)) x u full in
    rw (segment_block, refused, refused, c) refl

-- `xhci_alloc_segments_for_ring` of a mirrored ring, where the kernel has memory, the lock is free
-- and no cache block is: it returns -ENOMEM, and of the two pieces of memory that it got for the
-- first segment it gives none back.
pub alloc_segments_leak :
    (k : Kernel) (q : Quirks) (kind : RingType) (cycle n : ℕ) (x : Xhci)
    → Grants k
    → ehub_cache_ring kind ≡ true
    → IsUnlocked x
    → x.cache_list_free ≡ []
    → ((alloc_segments k q kind cycle n x).1 ≡ none)
      × ((alloc_segments k q kind cycle n x).0.device.history
          ≡ dma_pool_alloc ∷ kzalloc ∷ x.device.history)
unfolding alloc_segments
alloc_segments_leak k q kind cycle n x g c u none_free =
    let (s, e) = segment_alloc_eq k cycle x g in
    let full = segment_block_full k kind cycle s (with_memory x) c u none_free in
    rw (alloc_segments, e, e, full, e, full) (refl, refl)
