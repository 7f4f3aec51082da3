-- ===== src/Ring/Split.antt =====
-- How `ehub_xhci_queue_bulk_tx` (xhci-ring.c) splits a transfer.
use fl.Ring.Bulk.{count_chunks, bulk_num_trbs, before_boundary}
use fl.Base.{
  ℕ, suc, ◌%◌, ◌+◌, List, ◌≤◌, subst, ◌∷◌, min, ◌-◌, ◌≡◌, [], ◌<◌, arith, zero, ◌*◌, refl, length,
  ◌⊎◌, ap, ◌/◌, Bool-cases, if◌then◌else◌, inl, inr, leb, not, ◌==◌, ltb, true, ◌||◌, ◌∙◌,
}

-- The `len` bytes at `addr` are split into parts, none of which crosses a 64 KB boundary.
pub data IsSplit : ℕ → ℕ → List ℕ → Type 0 where
  whole : (addr len : ℕ) → addr % 65536 + len ≤ 65536 → IsSplit addr len (len ∷ [])
  part :
      (addr len rest : ℕ) (parts : List ℕ)
      → 0 < len
      → addr % 65536 + len ≤ 65536
      → IsSplit (addr + len) rest parts
      → IsSplit addr (len + rest) (len ∷ parts)

-- The parts of a transfer of `len` bytes and `rest` more, of which there are `more` beside the first.
abbrev pub parts_of : ℕ → ℕ → ℕ → List ℕ
parts_of zero len rest = len ∷ []
parts_of (suc more) len rest = len ∷ parts_of more (min rest 65536) (rest - min rest 65536)

-- What holds at the start of a round with a part of `len` bytes, `rest` bytes and `more` rounds to come.
pub record IsRound (addr len rest more : ℕ) : Type 0 where
  pub inside : addr % 65536 + len ≤ 65536
  pub last : more ≡ 0 → rest ≡ 0
  pub some_more : 0 < more → (0 < len) × ((addr + len) % 65536 ≡ 0)
  pub above : 0 < more → 65536 * (more - 1) < rest
  pub below : rest ≤ 65536 * more

pub next-IsRound :
    (addr len rest more : ℕ)
    → IsRound addr len rest (suc more)
    → IsRound (addr + len) (min rest 65536) (rest - min rest 65536) more
next-IsRound addr len rest more v = record {
  inside = omega (arith, (v.some_more (omega arith)).1);
  last = λ z. omega (arith, v.below);
  some_more = λ z. (
    omega (arith, v.above (omega arith)),
    omega (arith, v.above (omega arith), (v.some_more (omega arith)).1),
  );
  above = λ z. omega (arith, v.above (omega arith));
  below = omega (arith, v.below);
}

pub parts_of-IsSplit :
    (addr len rest more : ℕ)
    → IsRound addr len rest more
    → IsSplit addr (len + rest) (parts_of more len rest)
parts_of-IsSplit addr len rest zero v =
    subst (λ n. IsSplit addr n (len ∷ [])) (omega (arith, v.last refl)) (whole addr len v.inside)
parts_of-IsSplit addr len rest (suc more) v =
    let after = min rest 65536 in
    let e : after + (rest - after) ≡ rest = omega arith in
    let split =
      parts_of-IsSplit (addr + len) after (rest - after) more (next-IsRound addr len rest more v) in
    part addr len rest _ (v.some_more (omega arith)).0 v.inside
      (subst (λ n. IsSplit (addr + len) n (parts_of more after (rest - after))) e split)

pub length-parts_of : (more len rest : ℕ) → length (parts_of more len rest) ≡ suc more
length-parts_of zero len rest = refl
length-parts_of (suc more) len rest =
    ap suc (length-parts_of more (min rest 65536) (rest - min rest 65536))

-- The loop counts the 64 KB chunks that begin before the end of the data.
count_chunks_eq :
    (k fuel running len : ℕ)
    → len ≤ running + 65536 * k
    → (k ≡ 0) ⊎ (running + 65536 * (k - 1) < len)
    → k ≤ fuel
    → count_chunks fuel running len ≡ k
unfolding count_chunks
count_chunks_eq zero zero running len h l f = refl
count_chunks_eq zero (suc fuel) running len h l f = ground arith
count_chunks_eq (suc k) zero running len h l f = absurd (omega arith)
count_chunks_eq (suc k) (suc fuel) running len h (inl e) f = absurd (omega arith)
count_chunks_eq (suc k) (suc fuel) running len h (inr l) f =
    let goes : ltb running len ≡ true = ground arith in
    rw goes (
      ap suc
        (count_chunks_eq k fuel (running + 65536) len (omega arith) (ground arith) (omega arith)))

bulk_num_trbs_eq :
    (addr len k : ℕ)
    → len ≤ before_boundary addr % 65536 + 65536 * k
    → (k ≡ 0) ⊎ (before_boundary addr % 65536 + 65536 * (k - 1) < len)
    → bulk_num_trbs addr len
      ≡ (if not (before_boundary addr % 65536 == 0) || (len == 0) then suc k else k)
unfolding bulk_num_trbs
bulk_num_trbs_eq addr len k h l =
    rw (count_chunks_eq k (suc len) (before_boundary addr % 65536) len h l (ground arith)) refl

rounded :
    (ahead len : ℕ)
    → ((len - ahead + 65535) / 65536 ≡ 0)
      ⊎ (ahead + 65536 * ((len - ahead + 65535) / 65536 - 1) < len)
rounded ahead len = elim (Bool-cases (leb len ahead)) [
  | inl h ↦ inl (ground arith)
  | inr h ↦ inr (ground arith)
]

-- The number that is counted is that of the parts.
pub bulk_num_trbs-IsRound :
    (addr len : ℕ)
    → (more : ℕ) × (bulk_num_trbs addr len ≡ suc more)
      × IsRound addr (min (before_boundary addr) len) (len - min (before_boundary addr) len) more
bulk_num_trbs-IsRound addr len =
    let ahead = before_boundary addr % 65536 in
    let k = (len - ahead + 65535) / 65536 in
    let count = bulk_num_trbs_eq addr len k (omega arith) (rounded ahead len) in
    elim (Bool-cases (not (ahead == 0) || (len == 0))) [
      | inl one ↦ (
        k,
        count ∙ rw one refl,
        record {
          inside = omega arith;
          last = λ z. (ground arith);
          some_more = λ z. (ground arith);
          above = λ z. (ground arith);
          below = (ground arith);
        },
      )
      | inr none_ahead ↦ (
        k - 1,
        count ∙ rw none_ahead (ground arith),
        record {
          inside = omega arith;
          last = λ z. (ground arith);
          some_more = λ z. (ground arith);
          above = λ z. (ground arith);
          below = (ground arith);
        },
      )
    ]

pub IsRound-few : (addr len rest more : ℕ) → IsRound addr len rest more → more ≤ len + rest
IsRound-few addr len rest zero v = omega arith
IsRound-few addr len rest (suc more) v = omega (arith, v.above (omega arith))
