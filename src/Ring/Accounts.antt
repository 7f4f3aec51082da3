-- ===== src/Ring/Accounts.antt =====
-- `queue_trb` and `inc_deq` (xhci-ring.c): the producer and the consumer of a ring.
use fl.Ring.Trbs.{length-put_trb, put_trb-IsLinked, trb_at-put_trb}
use fl.Ring.Enqueue.{inc_enq-Enqueues}
use fl.Ring.InUse.{IsRing, last_trb-link}
use fl.Ring.{Trb, Ring, Quirks, is_event, last_trb, is_link, next_seg, trb_at, put_trb}
use fl.Ring.Move.{deq_loop, inc_deq, queue_trb, deq_step}
use fl.Base.{
  ℕ, ◌+◌, ◌<◌, ◌≡◌, Bool, ◌%◌, length, false, true, suc, ◌^◌, ◌≢◌, some, refl, ◌∙◌, arith,
  if◌then◌else◌, ◌==◌, inl, ◌&&◌, ◌*◌, ◌-◌, ap, Bool-cases, inr, ◌⊎◌,
}

-- What `queue_trb` does to a ring: the TRB stands where the enqueue pointer was, all others that
-- are no links stay, one less is free, and the consumer's side is as before.
pub record Queues (more : Bool) (t : Trb) (r r' : Ring) : Type 0 where
  pub valid : IsRing r'
  pub rests : (r'.enqueue < 63) ⊎ (more ≡ false)
  pub one_less : r'.num_trbs_free + 1 ≡ r.num_trbs_free
  pub same_deq : (r'.deq_seg ≡ r.deq_seg) × (r'.dequeue ≡ r.dequeue)
  pub same_cache : (r'.cache_enq_seg ≡ r.cache_enq_seg) × (r'.cache_enqueue ≡ r.cache_enqueue)
  pub same_length : length r'.segs ≡ length r.segs
  pub written :
      (s i : ℕ)
      → i ≢ 63
      → trb_at r'.segs s i
        ≡ (if (s == r.enq_seg) && (i == r.enqueue) then some t else trb_at r.segs s i)

-- `queue_trb` of a TRB that is no link, on a ring in use with a TRB free and the pointer not on a
-- link, comes to an end: the TRB is written where the enqueue pointer was, no other TRB but a link
-- changes, one TRB is free less, the pointer is not on a link where more TRBs are to come, and
-- the ring is in use as before.
pub queue_trb_lem :
    (q : Quirks) (more : Bool) (t : Trb) (r : Ring)
    → IsRing r
    → r.enqueue < 63
    → 0 < r.num_trbs_free
    → is_link t.field3 ≡ false
    → (r' : Ring) × (queue_trb q more t r ≡ some r') × Queues more t r r'
unfolding queue_trb
queue_trb_lem q more t r v at room normal =
    let (old, there) = v.linked.present r.enq_seg r.enqueue v.enq_in (omega arith) in
    let same = length-put_trb r.segs r.enq_seg r.enqueue t in
    let linked =
      put_trb-IsLinked r.segs r.enq_seg r.enqueue old t v.linked v.enq_in there
        (normal ∙ ground arith) (inl (omega arith)) in
    let r₁ = record r { segs = put_trb r.segs r.enq_seg r.enqueue t } in
    let v₁ : IsRing r₁ = record {
      kind = v.kind;
      linked = linked;
      enq_in = omega (arith, same, v.enq_in);
      enq_at = v.enq_at;
      deq_in = omega (arith, same, v.deq_in);
      deq_at = v.deq_at;
      counted = ground (arith, same, v.counted);
      below = omega (arith, same, v.below);
      fits = omega (arith, same, v.fits);
    } in
    let (r', ends, e, rests) = inc_enq-Enqueues q more r₁ v₁ at room in
    (
      r',
      ends,
      record {
        valid = e.valid;
        rests = rests;
        one_less = e.one_less;
        same_deq = e.same_deq;
        same_cache = e.same_cache;
        same_length = e.same_length ∙ same;
        written = λ s i inner.
            e.same_trbs s i inner ∙ trb_at-put_trb r.segs r.enq_seg r.enqueue s i old t there;
      },
    )

-- What `inc_deq` does to a ring: one TRB more is free, the pointer is not on a link, and the
-- producer's side and all TRBs are as before.
pub record Dequeues (r r' : Ring) : Type 0 where
  pub valid : IsRing r'
  pub one_more : r'.num_trbs_free ≡ r.num_trbs_free + 1
  pub not_link : r'.dequeue < 63
  pub same_enq : (r'.enq_seg ≡ r.enq_seg) × (r'.enqueue ≡ r.enqueue)
  pub same_segs : r'.segs ≡ r.segs

-- The first part of `inc_deq`, and its pointer's first step, at a TRB that is no link.
abbrev pub deq_first : Ring → Ring
deq_first r = record r {
  deq_updates = (r.deq_updates + 1) % 2 ^ 32;
  num_trbs_free = r.num_trbs_free + 1;
}

inc_deq_eq :
    (r : Ring)
    → IsRing r
    → r.dequeue < 63
    → inc_deq r ≡ deq_loop (suc (length r.segs)) (deq_first r)
unfolding inc_deq
inc_deq_eq r v at =
    let inner : last_trb r r.deq_seg r.dequeue ≡ false =
      last_trb-link r r.deq_seg r.dequeue v.kind v.linked v.deq_in ∙ ground arith in
    let free : (r.num_trbs_free + 1) % 2 ^ 32 ≡ r.num_trbs_free + 1 =
      omega (arith, v.below, v.fits) in
    rw (inner, v.kind, free) refl

deq_loop_ends :
    (fuel : ℕ) (r : Ring)
    → last_trb (deq_step r) (deq_step r).deq_seg (deq_step r).dequeue ≡ false
    → deq_loop (suc fuel) r ≡ some (deq_step r)
unfolding deq_loop
deq_loop_ends fuel r h = rw h refl

deq_loop_goes :
    (fuel : ℕ) (r : Ring)
    → last_trb (deq_step r) (deq_step r).deq_seg (deq_step r).dequeue ≡ true
    → deq_loop (suc fuel) r ≡ deq_loop fuel (deq_step r)
unfolding deq_loop
deq_loop_goes fuel r h = rw h refl

deq_step_inner :
    (r : Ring)
    → last_trb r r.deq_seg r.dequeue ≡ false
    → deq_step r ≡ record r { dequeue = suc r.dequeue }
deq_step_inner r h = rw h refl

deq_step_link :
    (r : Ring)
    → is_event r.ring_type ≡ false
    → last_trb r r.deq_seg r.dequeue ≡ true
    → deq_step r ≡ record r { deq_seg = next_seg r.segs r.deq_seg; dequeue = 0 }
deq_step_link r k h = rw (h, k) refl

deq_next-Dequeues :
    (r : Ring)
    → IsRing r
    → r.dequeue < 62
    → r.num_trbs_free + 1 < 63 * length r.segs
    → Dequeues r (record (deq_first r) { dequeue = suc r.dequeue })
deq_next-Dequeues r v at used = record {
  valid = record {
    kind = v.kind;
    linked = v.linked;
    enq_in = v.enq_in;
    enq_at = v.enq_at;
    deq_in = v.deq_in;
    deq_at = omega arith;
    counted = ground (arith, v.counted);
    below = used;
    fits = v.fits;
  };
  one_more = refl;
  not_link = omega arith;
  same_enq = (refl, refl);
  same_segs = refl;
}

deq_wrap-Dequeues :
    (r : Ring)
    → IsRing r
    → r.dequeue ≡ 62
    → r.num_trbs_free + 1 < 63 * length r.segs
    → Dequeues r (record (deq_first r) { deq_seg = next_seg r.segs r.deq_seg; dequeue = 0 })
deq_wrap-Dequeues r v at used = record {
  valid = record {
    kind = v.kind;
    linked = v.linked;
    enq_in = v.enq_in;
    enq_at = v.enq_at;
    deq_in = ground (arith, v.deq_in);
    deq_at = omega arith;
    counted = ground (arith, v.counted, v.deq_in);
    below = used;
    fits = v.fits;
  };
  one_more = refl;
  not_link = omega arith;
  same_enq = (refl, refl);
  same_segs = refl;
}

off_link : {r : Ring} (r' : Ring) → Dequeues r r' → last_trb r' r'.deq_seg r'.dequeue ≡ false
off_link r' d =
    last_trb-link r' r'.deq_seg r'.dequeue d.valid.kind d.valid.linked d.valid.deq_in
    ∙ ground (arith, d.not_link)

-- `inc_deq`, on a ring in use that is not empty and whose dequeue pointer is not on a link, comes
-- to an end: one TRB more is free, the pointer is not on a link, the producer's side and all TRBs are
-- as before, and the ring is in use as before.
pub inc_deq_lem :
    (r : Ring)
    → IsRing r
    → r.dequeue < 63
    → r.num_trbs_free + 1 < 63 * length r.segs
    → (r' : Ring) × (inc_deq r ≡ some r') × Dequeues r r'
inc_deq_lem r v at used =
    let fuel : suc (length r.segs) ≡ suc (suc (length r.segs - 1)) =
      omega (arith, v.linked.some_segs) in
    let start = inc_deq_eq r v at ∙ ap (λ n. deq_loop n (deq_first r)) fuel in
    let inner =
      deq_step_inner (deq_first r)
        (last_trb-link r r.deq_seg r.dequeue v.kind v.linked v.deq_in ∙ ground arith) in
    let n = length r.segs - 1 in
    elim (Bool-cases (r.dequeue == 62)) [
      | inr before ↦
          let d = deq_next-Dequeues r v (ground arith) used in
          let r' = record (deq_first r) { dequeue = suc r.dequeue } in
          (
            r',
            start
                ∙ deq_loop_ends (suc n) (deq_first r)
                    (ap (λ x. last_trb x x.deq_seg x.dequeue) inner ∙ off_link r' d)
                ∙ ap some inner,
            d,
          )
      | inl at_end ↦
          let d = deq_wrap-Dequeues r v (ground arith) used in
          let r₁ = record (deq_first r) { dequeue = suc r.dequeue } in
          let r' = record (deq_first r) { deq_seg = next_seg r.segs r.deq_seg; dequeue = 0 } in
          let link : last_trb r₁ r₁.deq_seg r₁.dequeue ≡ true =
            last_trb-link r₁ r.deq_seg (suc r.dequeue) v.kind v.linked v.deq_in ∙ ground arith in
          let hop = deq_step_link r₁ v.kind link in
          (
            r',
            start
                ∙ deq_loop_goes (suc n) (deq_first r)
                    (ap (λ x. last_trb x x.deq_seg x.dequeue) inner ∙ link)
                ∙ ap (deq_loop (suc n)) inner
                ∙ deq_loop_ends n r₁ (ap (λ x. last_trb x x.deq_seg x.dequeue) hop ∙ off_link r' d)
                ∙ ap some hop,
            d,
          )
    ]
