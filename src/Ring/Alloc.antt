-- ===== src/Ring/Alloc.antt =====
-- `xhci_alloc_segments_for_ring` (xhci-mem.c): the segments that it makes.
use fl.Base.Int.{pos}
use fl.Cache.{block_allocate_segment}
use fl.Device.{record_call}
use fl.Ring.Trbs.{trb_at_inv, length-put_trb}
use fl.Ring.Fresh.{IsBlank, IsPart, put_link-IsPart, append-IsPart}
use fl.Xhci.{Xhci}
use fl.Ring.{Segment, Quirks, RingType, Trb, is_event, trb_at, put_trb, ehub_cache_ring}
use fl.Kernel.{Kernel, dma_pool_alloc, kzalloc}
use fl.Ring.Build.{
  segment_alloc, segment_block, link_segments, link_to, alloc_more, all_bytes, alloc_segments,
}
use fl.Base.{
  Option, ℕ, none, List, ◌≡◌, some, false, ◌<◌, length, suc, Bool-cases, inl, inr, Option-cases,
  refl, ◌-◌, ◌+◌, arith, ◌∷◌, zero, ◌⊎◌, subst, ◌++◌, [], length-append,
}

link_segments_eq :
    (k : Kernel) (q : Quirks) (kind : RingType) (prev address : ℕ) (segs : List Segment) (x : Xhci)
    (t : Trb)
    → is_event kind ≡ false
    → trb_at segs prev 63 ≡ some t
    → (link_segments k q kind prev address segs x).1
      ≡ put_trb segs prev 63 (link_to q kind address t)
unfolding link_segments
link_segments_eq k q kind prev address segs x t h e =
    let (s, at, there) = trb_at_inv segs prev 63 t e in
    elim (Bool-cases (ehub_cache_ring kind)) [
      | inl c ↦ rw (link_segments, at, there, h, c) refl
      | inr c ↦ rw (link_segments, at, there, h, c) refl
    ]

link_segments-IsPart :
    (k : Kernel) (q : Quirks) (kind : RingType) (m address : ℕ) (segs : List Segment) (x : Xhci)
    → is_event kind ≡ false
    → IsPart m segs
    → m < length segs
    → IsPart (suc m) (link_segments k q kind m address segs x).1
      × (length (link_segments k q kind m address segs x).1 ≡ length segs)
link_segments-IsPart k q kind m address segs x h v below =
    let (t, there, linked) = put_link-IsPart m segs q kind address v below in
    rw (link_segments_eq k q kind m address segs x t h there)
      (linked, length-put_trb segs m 63 (link_to q kind address t))

-- A segment that comes out is blank.
data IsBlankOption : Option Segment → Type 0 where
  no_segment : IsBlankOption none
  blank : (s : Segment) → IsBlank s → IsBlankOption (some s)

segment_alloc-Blank :
    (k : Kernel) (cycle : ℕ) (x : Xhci) → IsBlankOption (segment_alloc k cycle x).1
unfolding segment_alloc
segment_alloc-Blank k cycle x =
    let d₂ = record_call dma_pool_alloc (record_call kzalloc x.device) in
    elim (Bool-cases (k.allocates (kzalloc ∷ x.device.history))) [
      | inr h ↦ rw (segment_alloc, h) no_segment
      | inl h ↦ elim (Option-cases (k.pools d₂.history)) [
        | inl e ↦ rw (segment_alloc, h, e) no_segment
        | inr (address, e) ↦ rw (segment_alloc, h, e) (blank _ (_, refl, ground arith))
      ]
    ]

segment_block-Blank :
    (k : Kernel) (kind : RingType) (cycle : ℕ) (s : Segment) (x : Xhci)
    → IsBlank s
    → IsBlankOption (segment_block k kind cycle s x).1
unfolding segment_block
segment_block-Blank k kind cycle s x h = elim (Bool-cases (ehub_cache_ring kind)) [
  | inr c ↦ rw (segment_block, c) (blank s h)
  | inl c ↦
      elim (Option-cases (block_allocate_segment k (pos cycle) (some (all_bytes s.trbs)) x).1) [
        | inl e ↦ rw (segment_block, c, e) no_segment
        | inr (b, e) ↦ rw (segment_block, c, e) (blank _ h)
      ]
]

-- Either there is no segment, or a blank one.
IsBlank-cases :
    {o : Option Segment} → IsBlankOption o → (o ≡ none) ⊎ ((s : Segment) × (o ≡ some s) × IsBlank s)
IsBlank-cases no_segment = inl refl
IsBlank-cases (blank s h) = inr (s, refl, h)

-- What the loop has made of `n` segments: nothing, or segments of which all but the last are linked.
data IsMade (n : ℕ) : Option (List Segment) → Type 0 where
  not_made : IsMade n none
  made :
      (segs : List Segment) → length segs ≡ n → IsPart (length segs - 1) segs → IsMade n (some segs)

made_cases :
    {n : ℕ} {o : Option (List Segment)}
    → IsMade n o
    → (o ≡ none)
      ⊎ ((segs : List Segment) × (o ≡ some segs)
          × (length segs ≡ n)
          × IsPart (length segs - 1) segs)
made_cases not_made = inl refl
made_cases (made segs e v) = inr (segs, refl, e, v)

alloc_more-IsMade :
    (k : Kernel) (q : Quirks) (kind : RingType) (cycle more : ℕ) (segs : List Segment) (x : Xhci)
    → is_event kind ≡ false
    → 0 < length segs
    → IsPart (length segs - 1) segs
    → IsMade (length segs + more) (alloc_more k q kind cycle more segs x).1
unfolding alloc_more
alloc_more-IsMade k q kind cycle zero segs x h l v = made segs (omega arith) v
alloc_more-IsMade k q kind cycle (suc more) segs x h l v =
    let m = length segs - 1 in
    let (x₁, allocated) = segment_alloc k cycle x in
    elim (IsBlank-cases (segment_alloc-Blank k cycle x)) [
      | inl e ↦ rw (alloc_more, e) not_made
      | inr (s, e, b) ↦ elim (IsBlank-cases (segment_block-Blank k kind cycle s x₁ b)) [
        | inl f ↦ rw (alloc_more, e, f) not_made
        | inr (s', f, b') ↦
            let x₂ = (segment_block k kind cycle s x₁).0 in
            let step = link_segments k q kind m s'.dma segs x₂ in
            let (part, same) = link_segments-IsPart k q kind m s'.dma segs x₂ h v (omega arith) in
            let whole : IsPart (length step.1) step.1 =
              subst (λ n. IsPart n step.1) (omega (arith, same)) part in
            let next = step.1 ++ s' ∷ [] in
            let longer = length-append step.1 (s' ∷ []) in
            let rest = alloc_more-IsMade k q kind cycle more next step.0 h (omega (arith, longer)) (
              subst (λ n. IsPart n next) (omega (arith, longer))
                (append-IsPart step.1 s' b' whole)) in
            let count : length next + more ≡ length segs + suc more = omega (arith, longer, same) in
            elim (Bool-cases step.0.device.error_flags.embedded_cache_write_error) [
              | inl g ↦ rw (alloc_more, e, f, g) not_made
              | inr g ↦
                  rw (alloc_more, e, f, g)
                    (subst (λ n. IsMade n (alloc_more k q kind cycle more next step.0).1) count
                      rest)
            ]
      ]
    ]

-- All segments are made and linked in a circle, or nothing is returned.
pub data IsCircle (n : ℕ) : Option (List Segment) → Type 0 where
  no_circle : IsCircle n none
  circle : (segs : List Segment) → length segs ≡ n → IsPart n segs → IsCircle n (some segs)

blank-IsPart : (s : Segment) → IsBlank s → IsPart 0 (s ∷ [])
blank-IsPart s b = append-IsPart [] s b (record {
  present = λ s i in_ring in_seg. absurd (omega arith);
  links = λ s i in_ring. absurd (omega arith);
  plain = λ s in_ring. absurd (omega arith);
})

pub alloc_segments-IsCircle :
    (k : Kernel) (q : Quirks) (kind : RingType) (cycle num_segs : ℕ) (x : Xhci)
    → is_event kind ≡ false
    → 0 < num_segs
    → IsCircle num_segs (alloc_segments k q kind cycle num_segs x).1
unfolding alloc_segments
alloc_segments-IsCircle k q kind cycle num_segs x h l =
    let (x₁, allocated) = segment_alloc k cycle x in
    elim (IsBlank-cases (segment_alloc-Blank k cycle x)) [
      | inl e ↦ rw (alloc_segments, e) no_circle
      | inr (s, e, b) ↦ elim (IsBlank-cases (segment_block-Blank k kind cycle s x₁ b)) [
        | inl f ↦ rw (alloc_segments, e, f) no_circle
        | inr (s', f, b') ↦
            let x₂ = (segment_block k kind cycle s x₁).0 in
            let r = alloc_more k q kind cycle (num_segs - 1) (s' ∷ []) x₂ in
            let more = made_cases (
              alloc_more-IsMade k q kind cycle (num_segs - 1) (s' ∷ []) x₂ h (omega arith)
                (blank-IsPart s' b')) in
            elim more [
              | inl g ↦ rw (alloc_segments, e, f, g) no_circle
              | inr (segs, g, long, part) ↦
                  let last = length segs - 1 in
                  let (all, same) =
                    link_segments-IsPart k q kind last s'.dma segs r.0 h part (omega arith) in
                  let end = (link_segments k q kind last s'.dma segs r.0).1 in
                  rw (alloc_segments, e, f, g)
                    (circle end (omega (arith, same)) (subst (λ n. IsPart n end) (omega arith) all))
            ]
      ]
    ]

pub circle_cases :
    {n : ℕ} {o : Option (List Segment)}
    → IsCircle n o
    → (o ≡ none) ⊎ ((segs : List Segment) × (o ≡ some segs) × (length segs ≡ n) × IsPart n segs)
circle_cases no_circle = inl refl
circle_cases (circle segs e v) = inr (segs, refl, e, v)
