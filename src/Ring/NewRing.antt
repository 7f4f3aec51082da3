-- ===== src/Ring/NewRing.antt =====
-- `xhci_ring_alloc` (xhci-mem.c), whatever the kernel answers.
use fl.Device.{record_call}
use fl.Xhci.{Xhci, on_device}
use fl.Ring.InUse.{IsRing}
use fl.Kernel.{Kernel, kzalloc}
use fl.Ring.Alloc.{alloc_segments-IsCircle, circle_cases}
use fl.Ring.Build.{set_toggle, ring_alloc, new_ring}
use fl.Ring.Trbs.{
  IsLinked, length-put_trb, control_at_eq, put_control_eq, present-put_trb, control_at-put_trb,
}
use fl.Ring.Fresh.{IsPart}
use fl.Ring.{has_toggle, Segment, is_link, put_control, Ring, is_event, Quirks, RingType}
use fl.Ring.Move.{initialize_ring_info}
use fl.Base.{
  ℕ, List, ◌+◌, ◌≡◌, ◌-◌, ◌<◌, true, ◌*◌, length, arith, ◌%◌, ◌∙◌, Option, none, false, some, inl,
  ◌^◌, inr, refl, ◌==◌, Bool-cases,
}

set_toggle_lem : (c : ℕ) → (has_toggle (set_toggle c) ≡ true) × (is_link (set_toggle c) ≡ is_link c)
set_toggle_lem c = ground arith

toggled-IsLinked :
    (n : ℕ) (segs : List Segment)
    → 0 < n
    → length segs ≡ n
    → IsPart n segs
    → IsLinked (put_control segs (length segs - 1) 63 set_toggle)
      × (length (put_control segs (length segs - 1) 63 set_toggle) ≡ n)
toggled-IsLinked n segs l long v =
    let last = length segs - 1 in
    let (t, there) = v.present last 63 (omega arith) (ground arith) in
    let new = record t { field3 = set_toggle t.field3 } in
    let same = length-put_trb segs last 63 new in
    let fact = set_toggle_lem t.field3 in
    let was = control_at_eq segs last 63 t there in
    rw (put_control_eq segs last 63 set_toggle t there) (
      record {
        some_segs = omega (arith, same);
        present = λ s i in_ring in_seg.
            let (old, e) = v.present s i (omega (arith, same)) in_seg in
            present-put_trb segs last 63 s i t new old there e;
        links = λ s i in_ring. ground (
          arith,
          control_at-put_trb segs last 63 s i t new there,
          same,
          v.links s i,
          fact.1,
          was,
        );
        toggles = λ s in_ring.
            ground
              (arith, control_at-put_trb segs last 63 s 63 t new there, same, v.plain s, fact.0);
      },
      same ∙ long,
    )

-- A new ring of a kind and of `n` segments: it is in use, with all TRBs free but one, and all pointers at its start.
pub record IsNew (kind : RingType) (n : ℕ) (r : Ring) : Type 0 where
  pub same_kind : r.ring_type ≡ kind
  pub valid : IsRing r
  pub all_free : r.num_trbs_free + 1 ≡ 63 * n
  pub segments : length r.segs ≡ n
  pub enq_start : (r.enq_seg ≡ 0) × (r.enqueue ≡ 0)
  pub deq_start : (r.deq_seg ≡ 0) × (r.dequeue ≡ 0)
  pub cache_start : (r.cache_enq_seg ≡ 0) × (r.cache_enqueue ≡ 0)

initialize-IsNew :
    (n cycle : ℕ) (r : Ring)
    → is_event r.ring_type ≡ false
    → IsLinked r.segs
    → length r.segs ≡ n
    → 63 * n < 2 ^ 32
    → IsNew r.ring_type n (initialize_ring_info cycle r)
unfolding initialize_ring_info
initialize-IsNew n cycle r k v long fits =
    let free : (length r.segs * 63 + (2 ^ 32 - 1)) % 2 ^ 32 + 1 ≡ 63 * n =
      omega (arith, v.some_segs) in
    record {
      same_kind = refl;
      valid = record {
        kind = k;
        linked = v;
        enq_in = v.some_segs;
        enq_at = omega arith;
        deq_in = v.some_segs;
        deq_at = omega arith;
        counted = inr (inl (omega (arith, free)));
        below = omega (arith, free);
        fits = omega arith;
      };
      all_free = free;
      segments = long;
      enq_start = (refl, refl);
      deq_start = (refl, refl);
      cache_start = (refl, refl);
    }

-- What comes of a ring's allocation: nothing, or a new ring.
pub data NewRing (kind : RingType) (n : ℕ) : Option Ring → Type 0 where
  no_ring : NewRing kind n none
  new : (r : Ring) → IsNew kind n r → NewRing kind n (some r)

-- `xhci_ring_alloc` of a ring with link TRBs, of `n` segments, at least one and not so many that their
-- TRBs overflow the count: whatever the kernel answers, what is returned is nothing or a ring of
-- that kind in use, with 63 * n - 1 TRBs free and all pointers at its start.
pub ring_alloc-NewRing :
    (k : Kernel) (q : Quirks) (kind : RingType) (cycle n : ℕ) (x : Xhci)
    → is_event kind ≡ false
    → 0 < n
    → 63 * n < 2 ^ 32
    → NewRing kind n (ring_alloc k q kind cycle n x).1
unfolding ring_alloc
ring_alloc-NewRing k q kind cycle n x h l fits =
    let x₁ = on_device (record_call kzalloc) x in
    let some_segs : (n == 0) ≡ false = ground arith in
    elim (Bool-cases (k.allocates x₁.device.history)) [
      | inr a ↦ rw (ring_alloc, a) no_ring
      | inl a ↦ elim (circle_cases (alloc_segments-IsCircle k q kind cycle n x₁ h l)) [
        | inl e ↦ rw (ring_alloc, a, some_segs, e) no_ring
        | inr (segs, e, long, part) ↦
            let (linked, same) = toggled-IsLinked n segs l long part in
            let ends = put_control segs (length segs - 1) 63 set_toggle in
            let r = record (new_ring kind) { segs = ends } in
            rw (ring_alloc, a, some_segs, e, h)
              (new (initialize_ring_info cycle r) (initialize-IsNew n cycle r h linked same fits))
      ]
    ]
