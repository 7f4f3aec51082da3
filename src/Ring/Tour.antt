-- ===== src/Ring/Tour.antt =====
-- The pieces in which `ehub_xhci_cache_copy_from_ring` (xhci-ehub.c) copies a ring.
use mathlib.Core.List.{append-nil}
use fl.Base.{
  ℕ, List, if◌then◌else◌, [], ◌<◌, suc, ◌+◌, ◌==◌, ◌∷◌, ◌≤◌, ◌*◌, ◌≡◌, zero, ◌++◌, arith,
  Bool-cases, inl, inr, ap, ◌&&◌, true, false, leb, ◌∙◌, ◌-◌, ◌⊎◌, refl, sym, length, subst, ltb,
}

-- A piece: a segment, its first TRB, and how many.
abbrev pub Piece : Type 0
Piece = ℕ × ℕ × ℕ

-- The number of TRBs in the pieces.
abbrev pub trbs_in : List Piece → ℕ
trbs_in [] = 0
trbs_in ((seg, start, count) ∷ ps) = count + trbs_in ps

abbrev pub count_up : ℕ → ℕ → List ℕ
count_up p zero = []
count_up p (suc count) = p ∷ count_up (suc p) count

-- The places of the TRBs of the pieces, links counted.
abbrev pub places : List Piece → List ℕ
places [] = []
places ((seg, start, count) ∷ ps) = count_up (64 * seg + start) count ++ places ps

-- The place after `p`, in a ring of `total`.
abbrev pub after : ℕ → ℕ → ℕ
after total p = if suc p == total then 0 else suc p

-- The `count` places from `p` on, round a ring of `total`.
abbrev pub around : ℕ → ℕ → ℕ → List ℕ
around total p zero = []
around total p (suc count) = p ∷ around total (after total p) count

around_goes :
    (total p m rest : ℕ)
    → m ≡ suc rest
    → suc p < total
    → around total p m ≡ p ∷ around total (suc p) rest
around_goes total p m rest e h =
    let goes : (suc p == total) ≡ false = ground arith in
    let step : around total p (suc rest) ≡ p ∷ around total (suc p) rest = rw goes refl in
    ap (around total p) e ∙ step

around_wraps :
    (total p m rest : ℕ) → m ≡ suc rest → suc p ≡ total → around total p m ≡ p ∷ around total 0 rest
around_wraps total p m rest e h =
    let wraps : (suc p == total) ≡ true = ground arith in
    let step : around total p (suc rest) ≡ p ∷ around total 0 rest = rw wraps refl in
    ap (around total p) e ∙ step

-- A piece that ends before the ring does.
around_inner : (total p count : ℕ) → p + count ≤ total → around total p count ≡ count_up p count
around_inner total p zero h = refl
around_inner total p (suc zero) h = elim (Bool-cases (suc p == total)) [
  | inl e ↦ around_wraps total p 1 0 refl (ground arith)
  | inr e ↦ around_goes total p 1 0 refl (ground arith)
]
around_inner total p (suc (suc count)) h =
    around_goes total p (suc (suc count)) (suc count) refl (omega arith)
    ∙ ap (λ l. p ∷ l) (around_inner total (suc p) (suc count) (omega arith))

-- A piece to the end of a segment.
around_piece :
    (total p count more next : ℕ)
    → 0 < count
    → (p + count < total) × (next ≡ p + count) ⊎ (p + count ≡ total) × (next ≡ 0)
    → around total p (count + more) ≡ count_up p count ++ around total next more
around_piece total p zero more next l h = absurd (omega arith)
around_piece total p (suc zero) more next l (inl (h, e)) =
    around_goes total p (1 + more) more (omega arith) (omega arith)
    ∙ ap (λ n. p ∷ around total n more) (omega arith)
around_piece total p (suc zero) more next l (inr (h, e)) =
    around_wraps total p (1 + more) more (omega arith) (omega arith)
    ∙ ap (λ n. p ∷ around total n more) (sym e)
around_piece total p (suc (suc count)) more next l h =
    around_goes total p (suc (suc count) + more) (suc count + more) (omega arith)
      (ground (arith, h))
    ∙ ap (λ l. p ∷ l)
        (around_piece total (suc p) (suc count) more next (omega arith) (ground (arith, h)))

-- The rounds of the copy loop on a ring of `n` segments, towards TRB `last` of segment `last_seg`.
pub data Tour (n last_seg last : ℕ) : ℕ → ℕ → List Piece → Type 0 where
  arrives :
      (seg start : ℕ)
      → (seg == last_seg) && leb start last ≡ true
      → Tour n last_seg last seg start ((seg, start, suc last - start) ∷ [])
  hops_on :
      (seg start : ℕ) (ps : List Piece)
      → (seg == last_seg) && leb start last ≡ false
      → seg < n
      → start ≤ 63
      → Tour n last_seg last (if suc seg == n then 0 else suc seg) 0 ps
      → Tour n last_seg last seg start ((seg, start, 64 - start) ∷ ps)

pub Tour-places :
    (n last_seg last seg start : ℕ) (ps : List Piece)
    → last_seg < n
    → last ≤ 63
    → Tour n last_seg last seg start ps
    → places ps ≡ around (64 * n) (64 * seg + start) (trbs_in ps)
Tour-places n last_seg last seg start _ l h (arrives _ _ e) =
    append-nil _
    ∙ sym (around_inner (64 * n) (64 * seg + start) (suc last - start) (ground arith))
    ∙ ap (around (64 * n) (64 * seg + start)) (omega arith)
Tour-places n last_seg last seg start _ l h (hops_on _ _ ps e m at t) =
    let next = if suc seg == n then 0 else suc seg in
    let rest = Tour-places n last_seg last next 0 ps l h t in
    let one =
      around_piece (64 * n) (64 * seg + start) (64 - start) (trbs_in ps) (64 * next + 0)
        (omega arith) (ground arith) in
    ap (λ l. count_up (64 * seg + start) (64 - start) ++ l) rest ∙ sym one

-- From the start of a segment on, `d` segments before the one of the last TRB.
Tour-ahead :
    (n last_seg last d seg : ℕ)
    → d < n
    → seg < n
    → last_seg < n
    → last ≤ 63
    → (seg + d ≡ last_seg) ⊎ (seg + d ≡ last_seg + n)
    → (ps : List Piece) × Tour n last_seg last seg 0 ps
      × (length ps ≡ suc d)
      × (trbs_in ps ≡ 64 * d + suc last)
Tour-ahead n last_seg last zero seg near at l h away =
    ((seg, 0, suc last - 0) ∷ [], arrives seg 0 (ground arith), refl, omega arith)
Tour-ahead n last_seg last (suc d) seg near at l h away =
    let next = if suc seg == n then 0 else suc seg in
    let (ps, t, long, count) =
      Tour-ahead n last_seg last d next (omega arith) (ground arith) l h (ground arith) in
    (
      (seg, 0, 64 - 0) ∷ ps,
      hops_on seg 0 ps (ground arith) at (omega arith) t,
      omega (arith, long),
      omega (arith, count),
    )

-- How many segments the next one is before that of the last TRB.
distance :
    (n last_seg seg : ℕ)
    → seg < n
    → last_seg < n
    → (next d : ℕ) × (next ≡ (if suc seg == n then 0 else suc seg))
      × (next < n)
      × (d < n)
      × ((next + d ≡ last_seg) ⊎ (next + d ≡ last_seg + n))
      × ((seg + suc d ≡ last_seg) ⊎ (seg + suc d ≡ last_seg + n))
distance n last_seg seg at l = elim (Bool-cases (suc seg == n)) [
  | inl e ↦ (0, last_seg, ground arith, omega arith, l, inl (omega arith), inr (ground arith))
  | inr e ↦ elim (Bool-cases (ltb seg last_seg)) [
    | inl f ↦ (
      suc seg,
      last_seg - suc seg,
      ground arith,
      ground arith,
      ground arith,
      inl (ground arith),
      inl (ground arith),
    )
    | inr f ↦ (
      suc seg,
      last_seg + n - suc seg,
      ground arith,
      ground arith,
      ground arith,
      inr (ground arith),
      inr (ground arith),
    )
  ]
]

at_most_all :
    (n last_seg last seg start d : ℕ)
    → (seg == last_seg) && leb start last ≡ false
    → last ≤ 63
    → seg < n
    → last_seg < n
    → d < n
    → (seg + suc d ≡ last_seg) ⊎ (seg + suc d ≡ last_seg + n)
    → 64 - start + (64 * d + suc last) ≤ 64 * n
at_most_all n last_seg last seg start d e h at inside l away = elim (Bool-cases (suc d == n)) [
  | inl all ↦ ground arith
  | inr less ↦ ground arith
]

ends :
    (n last_seg last seg start d count : ℕ)
    → start ≤ 63
    → count ≡ 64 * d + suc last
    → (seg + suc d ≡ last_seg) ⊎ (seg + suc d ≡ last_seg + n)
    → (64 * seg + start + (64 - start + count) ≡ suc (64 * last_seg + last))
      ⊎ (64 * seg + start + (64 - start + count) ≡ suc (64 * last_seg + last) + 64 * n)
ends n last_seg last seg start d count at e (inl h) = inl (omega arith)
ends n last_seg last seg start d count at e (inr h) = inr (omega arith)

-- From any TRB on there are rounds to the last one, and they are not more than the segments and one.
pub Tour-exists :
    (n last_seg last seg start : ℕ)
    → seg < n
    → start ≤ 63
    → last_seg < n
    → last ≤ 63
    → (ps : List Piece) × Tour n last_seg last seg start ps
      × (length ps ≤ suc n)
      × (0 < trbs_in ps)
      × (trbs_in ps ≤ 64 * n)
      × ((64 * seg + start + trbs_in ps ≡ suc (64 * last_seg + last))
          ⊎ (64 * seg + start + trbs_in ps ≡ suc (64 * last_seg + last) + 64 * n))
Tour-exists n last_seg last seg start at in_seg l h =
    elim (Bool-cases ((seg == last_seg) && leb start last)) [
      | inl e ↦ (
        (seg, start, suc last - start) ∷ [],
        arrives seg start e,
        omega arith,
        ground arith,
        ground arith,
        ground arith,
      )
      | inr e ↦
          let (next, d, is_next, inside, near, ahead, away) = distance n last_seg seg at l in
          let (ps, t, long, count) = Tour-ahead n last_seg last d next near inside l h ahead in
          (
            (seg, start, 64 - start) ∷ ps,
            hops_on seg start ps e at in_seg (subst (λ x. Tour n last_seg last x 0 ps) is_next t),
            omega (arith, long),
            omega (arith, count),
            omega (arith, count, at_most_all n last_seg last seg start d e h at l near away),
            ends n last_seg last seg start d (trbs_in ps) in_seg count away,
          )
    ]
