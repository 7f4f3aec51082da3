-- ===== src/Ring/Fresh.antt =====
-- Segments of a ring while they are being linked (xhci-mem.c).
use fl.Ring.Trbs.{length-put_trb, present-put_trb, control_at-put_trb, control_at_eq}
use fl.Ring.Build.{link_to}
use fl.Ring.{control_at, trb_at, Segment, Trb, is_link, has_toggle, Quirks, RingType, put_trb}
use fl.Base.{
  ℕ, List, length, get_elem?, ◌<◌, ◌≡◌, replicate, ◌++◌, ◌∷◌, some, ◌≤◌, if◌then◌else◌, ltb, [],
  length-append, none, ◌==◌, Bool-cases, arith, suc, ◌&&◌, inl, zero, false, ◌∙◌, refl, inr, true,
}

-- Segments that are being linked: of the first `m` the last TRB is a link, and no other TRB is;
-- no link toggles the cycle.
pub record IsPart (m : ℕ) (segs : List Segment) : Type 0 where
  pub present : (s i : ℕ) → s < length segs → i < 64 → (t : Trb) × (trb_at segs s i ≡ some t)
  pub links : (s i : ℕ) → s < length segs → is_link (control_at segs s i) ≡ ((i == 63) && ltb s m)
  pub plain : (s : ℕ) → s < length segs → has_toggle (control_at segs s 63) ≡ false

get_elem?-replicate {ℓ} :
    {A : Type ℓ} (n i : ℕ) (a : A)
    → get_elem? (replicate n a) i ≡ (if ltb i n then some a else none)
get_elem?-replicate zero i a = ground arith
get_elem?-replicate (suc n) zero a = ground arith
get_elem?-replicate (suc n) (suc i) a = ground (arith, get_elem?-replicate n i a)

get_elem?-append_one {ℓ} :
    {A : Type ℓ} (xs : List A) (i : ℕ) (a : A)
    → get_elem? (xs ++ a ∷ []) i ≡ (if i == length xs then some a else get_elem? xs i)
get_elem?-append_one [] zero a = refl
get_elem?-append_one [] (suc i) a = ground arith
get_elem?-append_one (x ∷ xs) zero a = ground arith
get_elem?-append_one (x ∷ xs) (suc i) a = ground (arith, get_elem?-append_one xs i a)

-- A segment as `xhci_segment_alloc` makes it.
abbrev pub IsBlank : Segment → Type 0
IsBlank s = (t : Trb) × (s.trbs ≡ replicate 64 t) × (t.field3 ≤ 1)

trb_at-append_one :
    (segs : List Segment) (s : Segment) (seg i : ℕ) (t : Trb)
    → s.trbs ≡ replicate 64 t
    → trb_at (segs ++ s ∷ []) seg i
      ≡ (if seg == length segs then (if ltb i 64 then some t else none) else trb_at segs seg i)
unfolding trb_at
trb_at-append_one segs s seg i t e =
    let found = get_elem?-append_one segs seg s in
    elim (Bool-cases (seg == length segs)) [
      | inl h ↦ rw (trb_at, found, h, e, get_elem?-replicate 64 i t) refl
      | inr h ↦ rw (trb_at, found, h) refl
    ]

control_at-append_one :
    (segs : List Segment) (s : Segment) (seg i : ℕ) (t : Trb)
    → s.trbs ≡ replicate 64 t
    → control_at (segs ++ s ∷ []) seg i
      ≡ (if seg == length segs then (if ltb i 64 then t.field3 else 0) else control_at segs seg i)
unfolding control_at
control_at-append_one segs s seg i t e =
    let now = trb_at-append_one segs s seg i t e in
    elim (Bool-cases (seg == length segs)) [
      | inl h ↦ rw (control_at, now, h) (ground arith)
      | inr h ↦ rw (control_at, now, h) refl
    ]

pub append-IsPart :
    (segs : List Segment) (s : Segment)
    → IsBlank s
    → IsPart (length segs) segs
    → IsPart (length segs) (segs ++ s ∷ [])
append-IsPart segs s (t, e, low) v =
    let long = length-append segs (s ∷ []) in
    record {
      present = λ seg i in_ring in_seg. elim (Bool-cases (seg == length segs)) [
        | inl new ↦ (t, trb_at-append_one segs s seg i t e ∙ ground arith)
        | inr old ↦
            let (was, there) = v.present seg i (ground (arith, long)) in_seg in
            (was, trb_at-append_one segs s seg i t e ∙ ground (arith, there))
      ];
      links = λ seg i in_ring.
          ground (arith, control_at-append_one segs s seg i t e, v.links seg i, long);
      plain =
          λ seg in_ring. ground (arith, control_at-append_one segs s seg 63 t e, v.plain seg, long);
    }

-- The link TRB that is written is a link, and toggles as the TRB did.
link_to-link :
    (q : Quirks) (kind : RingType) (address : ℕ) (t : Trb)
    → (is_link (link_to q kind address t).field3 ≡ true)
      × (has_toggle (link_to q kind address t).field3 ≡ has_toggle t.field3)
link_to-link q kind address t = ground arith

-- The next segment of the list gets its link.
pub put_link-IsPart :
    (m : ℕ) (segs : List Segment) (q : Quirks) (kind : RingType) (address : ℕ)
    → IsPart m segs
    → m < length segs
    → (t : Trb) × (trb_at segs m 63 ≡ some t)
      × IsPart (suc m) (put_trb segs m 63 (link_to q kind address t))
put_link-IsPart m segs q kind address v h =
    let (t, there) = v.present m 63 h (ground arith) in
    let new = link_to q kind address t in
    let same = length-put_trb segs m 63 new in
    let fact = link_to-link q kind address t in
    (
      t,
      there,
      record {
        present = λ s i in_ring in_seg.
            let (was, old) = v.present s i (omega (arith, same)) in_seg in
            present-put_trb segs m 63 s i t new was there old;
        links = λ s i in_ring.
            ground (arith, control_at-put_trb segs m 63 s i t new there, same, v.links s i, fact.0);
        plain = λ s in_ring. ground (
          arith,
          control_at-put_trb segs m 63 s 63 t new there,
          same,
          v.plain s,
          control_at_eq segs m 63 t there,
          fact.1,
        );
      },
    )
