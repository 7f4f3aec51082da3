-- ===== src/Ring/Enqueue.antt =====
-- `inc_enq` (xhci-ring.c): the enqueue pointer of a ring in use.
use fl.Ring.InUse.{last_trb-link, IsRing}
use fl.Ring.Trbs.{control_at_eq, put_control_eq, put_trb-IsLinked, length-put_trb, trb_at-put_trb}
use fl.Ring.{
  Ring, Quirks, is_event, RingType, last_trb, is_link, flip_cycle, has_toggle, trb_at, chain_bit,
  control_at,
}
use fl.Ring.Move.{enq_loop, to_next_seg, give_link, enq_hop, link_change, inc_enq}
use fl.Base.{
  ℕ, ◌+◌, ◌≡◌, Bool, ◌⊎◌, false, suc, true, some, ◌<◌, ◌==◌, length, refl, ◌&&◌, not, ◌≤◌, ◌^◌,
  arith, ◌∙◌, sym, ap, inr, ◌≢◌, ◌-◌, ◌%◌, Bool-cases, inl,
}

enq_loop_stays :
    (fuel : ℕ) (q : Quirks) (more : Bool) (chain : ℕ) (r : Ring)
    → last_trb r r.enq_seg r.enqueue ≡ false
    → enq_loop (suc fuel) q more chain r ≡ some r
unfolding enq_loop
enq_loop_stays fuel q more chain r h = rw h refl

enq_loop_waits :
    (fuel : ℕ) (q : Quirks) (more : Bool) (chain : ℕ) (r : Ring)
    → is_event r.ring_type ≡ false
    → last_trb r r.enq_seg r.enqueue ≡ true
    → (chain == 0) && not more ≡ true
    → enq_loop (suc fuel) q more chain r ≡ some r
unfolding enq_loop
enq_loop_waits fuel q more chain r k h w = rw (h, k, w) refl

enq_loop_hops :
    (fuel : ℕ) (q : Quirks) (more : Bool) (chain : ℕ) (r : Ring)
    → last_trb r r.enq_seg r.enqueue ≡ true
    → (chain == 0) && not more ≡ false
    → enq_loop (suc fuel) q more chain r ≡ enq_loop fuel q more chain (enq_hop q chain r)
unfolding enq_loop
enq_loop_hops fuel q more chain r h w = rw (h, w) ground arith

-- Both changes of a link's control word leave its type and its toggle bit.
link_change_keeps :
    (q : Quirks) (kind : RingType) (chain c : ℕ)
    → chain ≤ 1
    → (is_link (flip_cycle (link_change q kind chain c)) ≡ is_link c)
      × (has_toggle (flip_cycle (link_change q kind chain c)) ≡ has_toggle c)
link_change_keeps q kind chain c h = ground arith

enq_hop_eq :
    (q : Quirks) (chain : ℕ) (r : Ring)
    → is_event r.ring_type ≡ false
    → enq_hop q chain r ≡ to_next_seg (give_link (link_change q r.ring_type chain) r)
unfolding enq_hop
enq_hop_eq q chain r k = rw k refl

enq_hop-IsRing :
    (q : Quirks) (chain : ℕ) (r : Ring)
    → chain ≤ 1
    → r.enqueue ≡ 63
    → IsRing r
    → IsRing (enq_hop q chain r)
enq_hop-IsRing q chain r h at v =
    let (t, there) = v.linked.present r.enq_seg r.enqueue v.enq_in (omega arith) in
    let change = λ (c : ℕ). flip_cycle (link_change q r.ring_type chain c) in
    let t' = record t { field3 = change t.field3 } in
    let keeps = link_change_keeps q r.ring_type chain t.field3 h in
    let was = control_at_eq r.segs r.enq_seg r.enqueue t there in
    let put = put_control_eq r.segs r.enq_seg r.enqueue change t there in
    let linked =
      put_trb-IsLinked r.segs r.enq_seg r.enqueue t t' v.linked v.enq_in there
        (keeps.0 ∙ sym (ap is_link was) ∙ v.linked.links r.enq_seg r.enqueue v.enq_in)
        (inr keeps.1) in
    let same = length-put_trb r.segs r.enq_seg r.enqueue t' in
    rw (enq_hop_eq q chain r v.kind, put)
      (record {
        kind = v.kind;
        linked = linked;
        enq_in = ground (arith, same, v.enq_in);
        enq_at = omega arith;
        deq_in = omega (arith, same, v.deq_in);
        deq_at = v.deq_at;
        counted = ground (arith, same, v.counted, v.enq_in, at);
        below = omega (arith, same, v.below);
        fits = omega (arith, same, v.fits);
      })

-- The first part of `inc_enq`, at a TRB that is no link.
abbrev pub enq_first : Ring → Ring
enq_first r = record r {
  num_trbs_free = r.num_trbs_free - 1;
  enqueue = suc r.enqueue;
  enq_updates = (r.enq_updates + 1) % 2 ^ 32;
}

enq_first-IsRing :
    (r : Ring) → IsRing r → r.enqueue < 63 → 0 < r.num_trbs_free → IsRing (enq_first r)
enq_first-IsRing r v at room = record {
  kind = v.kind;
  linked = v.linked;
  enq_in = v.enq_in;
  enq_at = omega arith;
  deq_in = v.deq_in;
  deq_at = v.deq_at;
  counted = ground (arith, v.counted);
  below = omega (arith, v.below);
  fits = v.fits;
}

inc_enq_eq :
    (q : Quirks) (more : Bool) (r : Ring)
    → IsRing r
    → r.enqueue < 63
    → 0 < r.num_trbs_free
    → inc_enq q more r
      ≡ enq_loop
          (suc (length r.segs))
          q
          more
          (chain_bit (control_at r.segs r.enq_seg r.enqueue))
          (enq_first r)
unfolding inc_enq
inc_enq_eq q more r v at room =
    let inner : last_trb r r.enq_seg r.enqueue ≡ false =
      last_trb-link r r.enq_seg r.enqueue v.kind v.linked v.enq_in ∙ ground arith in
    let free : (r.num_trbs_free + (2 ^ 32 - 1)) % 2 ^ 32 ≡ r.num_trbs_free - 1 =
      omega (arith, v.below, v.fits) in
    rw (inner, v.kind, free) refl

-- What an enqueue does to a ring: the invariant holds, one TRB is free less, the consumer's side
-- is as before, and so are all TRBs that are no links.
pub record Enqueues (r r' : Ring) : Type 0 where
  pub valid : IsRing r'
  pub one_less : r'.num_trbs_free + 1 ≡ r.num_trbs_free
  pub same_deq : (r'.deq_seg ≡ r.deq_seg) × (r'.dequeue ≡ r.dequeue)
  pub same_cache : (r'.cache_enq_seg ≡ r.cache_enq_seg) × (r'.cache_enqueue ≡ r.cache_enqueue)
  pub same_length : length r'.segs ≡ length r.segs
  pub same_trbs : (s i : ℕ) → i ≢ 63 → trb_at r'.segs s i ≡ trb_at r.segs s i

enq_hop-Enqueues :
    (q : Quirks) (chain : ℕ) (r r₁ : Ring)
    → chain ≤ 1
    → r₁.enqueue ≡ 63
    → Enqueues r r₁
    → Enqueues r (enq_hop q chain r₁)
enq_hop-Enqueues q chain r r₁ h at e =
    let v = e.valid in
    let (t, there) = v.linked.present r₁.enq_seg r₁.enqueue v.enq_in (omega arith) in
    let change = λ (c : ℕ). flip_cycle (link_change q r₁.ring_type chain c) in
    let t' = record t { field3 = change t.field3 } in
    let put = put_control_eq r₁.segs r₁.enq_seg r₁.enqueue change t there in
    let kept = enq_hop-IsRing q chain r₁ h at v in
    let same = length-put_trb r₁.segs r₁.enq_seg r₁.enqueue t' in
    let eq = enq_hop_eq q chain r₁ v.kind in
    record {
      valid = kept;
      one_less = rw eq e.one_less;
      same_deq = rw eq e.same_deq;
      same_cache = rw eq e.same_cache;
      same_length = rw (eq, put) (same ∙ e.same_length);
      same_trbs = λ s i inner.
          rw (eq, put)
            (trb_at-put_trb r₁.segs r₁.enq_seg r₁.enqueue s i t t' there
              ∙ ground (arith, e.same_trbs s i inner));
    }

enq_first-Enqueues :
    (r : Ring) → IsRing r → r.enqueue < 63 → 0 < r.num_trbs_free → Enqueues r (enq_first r)
enq_first-Enqueues r v at room = record {
  valid = enq_first-IsRing r v at room;
  one_less = omega arith;
  same_deq = (refl, refl);
  same_cache = (refl, refl);
  same_length = refl;
  same_trbs = λ s i inner. refl;
}

no_more : (chain : ℕ) (more : Bool) → (chain == 0) && not more ≡ true → more ≡ false
no_more chain true h = ground arith
no_more chain false h = refl

-- The loop comes to its end, at once or after one link.
enq_loop-Enqueues :
    (fuel : ℕ) (q : Quirks) (more : Bool) (chain : ℕ) (r r₁ : Ring)
    → chain ≤ 1
    → Enqueues r r₁
    → (r' : Ring) × (enq_loop (suc (suc fuel)) q more chain r₁ ≡ some r')
      × Enqueues r r'
      × ((r'.enqueue < 63) ⊎ (more ≡ false))
enq_loop-Enqueues fuel q more chain r r₁ h e =
    let v = e.valid in
    let end = last_trb-link r₁ r₁.enq_seg r₁.enqueue v.kind v.linked v.enq_in in
    let hopped = enq_hop q chain r₁ in
    elim (Bool-cases (r₁.enqueue == 63)) [
      | inr inner ↦ (
        r₁,
        enq_loop_stays (suc fuel) q more chain r₁ (end ∙ inner),
        e,
        inl (ground (arith, v.enq_at)),
      )
      | inl link ↦ elim (Bool-cases ((chain == 0) && not more)) [
        | inl waits ↦ (
          r₁,
          enq_loop_waits (suc fuel) q more chain r₁ v.kind (end ∙ link) waits,
          e,
          inr (no_more chain more waits),
        )
        | inr goes ↦
            let e' = enq_hop-Enqueues q chain r r₁ h (ground arith) e in
            let v' = e'.valid in
            let at : hopped.enqueue ≡ 0 =
              ap (λ (x : Ring). x.enqueue) (enq_hop_eq q chain r₁ v.kind) in
            let start : last_trb hopped hopped.enq_seg hopped.enqueue ≡ false =
              last_trb-link hopped hopped.enq_seg hopped.enqueue v'.kind v'.linked v'.enq_in
              ∙ ground arith in
            (
              hopped,
              enq_loop_hops (suc fuel) q more chain r₁ (end ∙ link) goes
                  ∙ enq_loop_stays fuel q more chain hopped start,
              e',
              inl (omega (arith, at)),
            )
      ]
    ]

-- `inc_enq`, on a ring in use with a TRB free and the pointer not on a link, comes to an end.
pub inc_enq-Enqueues :
    (q : Quirks) (more : Bool) (r : Ring)
    → IsRing r
    → r.enqueue < 63
    → 0 < r.num_trbs_free
    → (r' : Ring) × (inc_enq q more r ≡ some r')
      × Enqueues r r'
      × ((r'.enqueue < 63) ⊎ (more ≡ false))
inc_enq-Enqueues q more r v at room =
    let chain = chain_bit (control_at r.segs r.enq_seg r.enqueue) in
    let (r', ends, e, rests) =
      enq_loop-Enqueues (length r.segs - 1) q more chain r (enq_first r) (omega arith)
        (enq_first-Enqueues r v at room) in
    let fuel : suc (suc (length r.segs - 1)) ≡ suc (length r.segs) =
      omega (arith, v.linked.some_segs) in
    (
      r',
      inc_enq_eq q more r v at room
          ∙ ap (λ n. enq_loop n q more chain (enq_first r)) (sym fuel)
          ∙ ends,
      e,
      rests,
    )
