-- ===== src/Ring/Trbs.antt =====
-- Reads and writes of the TRBs of a ring (xhci-ring.c), and the shape that its link TRBs give it.
use fl.Ring.{trb_at, put_trb, Segment, Trb, put_control, control_at, is_link, has_toggle}
use fl.Base.{
  ℕ, List, get_elem?, length, ◌≡◌, set, some, ◌∷◌, Option-cases, inl, suc, if◌then◌else◌, ap, inr,
  ◌==◌, arith, refl, [], ◌&&◌, zero, ◌<◌, Bool-cases, ◌∙◌, ◌≢◌, ◌⊎◌,
}

get_elem?-set {ℓ} :
    {A : Type ℓ} (xs : List A) (i j : ℕ) (a v : A)
    → get_elem? xs i ≡ some a
    → get_elem? (set xs i v) j ≡ (if j == i then some v else get_elem? xs j)
get_elem?-set [] i j a v e = ground arith
get_elem?-set (x ∷ xs) zero zero a v e = refl
get_elem?-set (x ∷ xs) zero (suc j) a v e = ground arith
get_elem?-set (x ∷ xs) (suc i) zero a v e = ground arith
get_elem?-set (x ∷ xs) (suc i) (suc j) a v e = ground (arith, get_elem?-set xs i j a v e)

length-set {ℓ} : {A : Type ℓ} (xs : List A) (i : ℕ) (v : A) → length (set xs i v) ≡ length xs
length-set [] i v = refl
length-set (x ∷ xs) zero v = refl
length-set (x ∷ xs) (suc i) v = ap suc (length-set xs i v)

pub length-put_trb :
    (segs : List Segment) (seg index : ℕ) (t : Trb)
    → length (put_trb segs seg index t) ≡ length segs
unfolding put_trb
length-put_trb segs seg index t = elim (Option-cases (get_elem? segs seg)) [
  | inl e ↦ rw (e, put_trb) refl
  | inr (s, e) ↦ rw (e, put_trb) (length-set segs seg _)
]

pub trb_at_inv :
    (segs : List Segment) (seg index : ℕ) (t : Trb)
    → trb_at segs seg index ≡ some t
    → (s : Segment) × (get_elem? segs seg ≡ some s) × (get_elem? s.trbs index ≡ some t)
unfolding trb_at
trb_at_inv segs seg index t e = elim (Option-cases (get_elem? segs seg)) [
  | inl f ↦ ground arith
  | inr (s, f) ↦ (s, f, ground arith)
]

-- A TRB that is there is replaced, and all others stay.
pub trb_at-put_trb :
    (segs : List Segment) (seg index s i : ℕ) (old t : Trb)
    → trb_at segs seg index ≡ some old
    → trb_at (put_trb segs seg index t) s i
      ≡ (if (s == seg) && (i == index) then some t else trb_at segs s i)
unfolding trb_at put_trb
trb_at-put_trb segs seg index s i old t e =
    let (found, at, there) = trb_at_inv segs seg index old e in
    let kept = record found { trbs = set found.trbs index t } in
    ground
      (arith, get_elem?-set segs seg s found kept at, get_elem?-set found.trbs index i old t there)

pub control_at_eq :
    (segs : List Segment) (seg index : ℕ) (t : Trb)
    → trb_at segs seg index ≡ some t
    → control_at segs seg index ≡ t.field3
unfolding control_at
control_at_eq segs seg index t e = ground arith

pub control_at-put_trb :
    (segs : List Segment) (seg index s i : ℕ) (old t : Trb)
    → trb_at segs seg index ≡ some old
    → control_at (put_trb segs seg index t) s i
      ≡ (if (s == seg) && (i == index) then t.field3 else control_at segs s i)
unfolding control_at
control_at-put_trb segs seg index s i old t e =
    ground (arith, trb_at-put_trb segs seg index s i old t e)

pub put_control_eq :
    (segs : List Segment) (seg index : ℕ) (change : ℕ → ℕ) (t : Trb)
    → trb_at segs seg index ≡ some t
    → put_control segs seg index change
      ≡ put_trb segs seg index (record t { field3 = change t.field3 })
unfolding put_control
put_control_eq segs seg index change t e = ground arith

-- The shape of a ring with link TRBs: segments of 64 TRBs, of which exactly the last one is a
-- link; and the link of the last segment, and no other, toggles the cycle.
pub record IsLinked (segs : List Segment) : Type 0 where
  pub some_segs : 0 < length segs
  pub present : (s i : ℕ) → s < length segs → i < 64 → (t : Trb) × (trb_at segs s i ≡ some t)
  pub links : (s i : ℕ) → s < length segs → is_link (control_at segs s i) ≡ (i == 63)
  pub toggles :
      (s : ℕ) → s < length segs → has_toggle (control_at segs s 63) ≡ (suc s == length segs)

pub present-put_trb :
    (segs : List Segment) (seg index s i : ℕ) (old t was : Trb)
    → trb_at segs seg index ≡ some old
    → trb_at segs s i ≡ some was
    → (t' : Trb) × (trb_at (put_trb segs seg index t) s i ≡ some t')
present-put_trb segs seg index s i old t was e f =
    let now = trb_at-put_trb segs seg index s i old t e in
    elim (Bool-cases ((s == seg) && (i == index))) [
      | inl h ↦ (t, now ∙ rw h refl)
      | inr h ↦ (was, now ∙ rw h f)
    ]

-- A TRB that is no link may be written over another, and a link may change its chain and cycle bits.
pub put_trb-IsLinked :
    (segs : List Segment) (seg index : ℕ) (old t : Trb)
    → IsLinked segs
    → seg < length segs
    → trb_at segs seg index ≡ some old
    → is_link t.field3 ≡ (index == 63)
    → (index ≢ 63) ⊎ (has_toggle t.field3 ≡ has_toggle old.field3)
    → IsLinked (put_trb segs seg index t)
put_trb-IsLinked segs seg index old t v h e l g = record {
  some_segs = omega (arith, v.some_segs, length-put_trb segs seg index t);
  present = λ s i in_ring in_seg.
      let (was, there) = v.present s i (omega (arith, length-put_trb segs seg index t)) in_seg in
      present-put_trb segs seg index s i old t was e there;
  links = λ s i in_ring. ground (
    arith,
    control_at-put_trb segs seg index s i old t e,
    length-put_trb segs seg index t,
    v.links s i,
  );
  toggles = λ s in_ring. ground (
    arith,
    control_at-put_trb segs seg index s 63 old t e,
    length-put_trb segs seg index t,
    v.toggles s,
    control_at_eq segs seg index old e,
  );
}
