-- ===== src/Cache/UrbBlocks.antt =====
-- The blocks that a URB holds while `ehub_xhci_cache_block_allocate_urb` claims them and
-- `ehub_xhci_cache_block_free_by_urb` gives them back.
use fl.Xhci.Frame.{SameBlocks, IsUnlocked, SameBlocks-refl}
use fl.Base.Chain.{length-append_one, remove, remove_head, remove-absent}
use fl.Device.{add_fault, Device, out_of_bounds}
use fl.Cache.Partition.{
  IsPartition, SameBlocks-IsPartition, move_to_used-IsPartition, unlock-SameBlocks, List-cases,
  is_free, not_used,
}
use fl.Cache.{
  claim_block, move_to_used, UrbPriv, new_urb_priv, max_data_blocks, claim_loop, set_block_urb,
}
use fl.Xhci.{Xhci, on_device}
use fl.Base.{
  ℕ, List, get_elem?, set, Option, [], suc, ◌≡◌, replicate, ◌∷◌, some, length, none, sym, ◌++◌, map,
  ap, ◌<◌, zero, ltb, refl, ◌-◌, true, arith, Bool, ◌∙◌, ◌≤◌, if◌then◌else◌, ◌+◌, false, inl, inr,
  subst, length-append,
}
use mathlib.Core.List.{append-nil, append_assoc}

-- The entries of the URB's array: `j` that were cleared, the blocks, and `r` that are empty.
abbrev pub entries : ℕ → List ℕ → ℕ → List (Option ℕ)
entries j bs r = replicate j none ++ (map some bs ++ replicate r none)

pub get_elem?-entries :
    (j b : ℕ) (bs : List ℕ) (r : ℕ) → get_elem? (entries j (b ∷ bs) r) j ≡ some (some b)
get_elem?-entries zero b bs r = refl
get_elem?-entries (suc j) b bs r = get_elem?-entries j b bs r

-- An entry is cleared.
pub set-entries-none :
    (j b : ℕ) (bs : List ℕ) (r : ℕ) → set (entries j (b ∷ bs) r) j none ≡ entries (suc j) bs r
set-entries-none zero b bs r = refl
set-entries-none (suc j) b bs r = ap (◌∷◌ none) (set-entries-none j b bs r)

-- The next entry is filled.
pub set-entries-some :
    (bs : List ℕ) (b r : ℕ)
    → set (entries 0 bs (suc r)) (length bs) (some b) ≡ entries 0 (bs ++ b ∷ []) r
set-entries-some [] b r = refl
set-entries-some (a ∷ bs) b r = ap (◌∷◌ (some a)) (set-entries-some bs b r)

-- The URB holds the blocks `bs`, which were at the head of the free list of `x₀` and are now the
-- last of the used ones.
pub record Holds (x₀ x : Xhci) (bs : List ℕ) (p : UrbPriv) : Type 0 where
  pub from_free : x₀.cache_list_free ≡ bs ++ x.cache_list_free
  pub to_used : x.cache_list_used ≡ x₀.cache_list_used ++ bs
  pub held : p.ehub_data_cache_block ≡ entries 0 bs (max_data_blocks - length bs)
  pub held_count : p.cache_block_cnt ≡ length bs

pub Holds-none : (x : Xhci) → Holds x x [] new_urb_priv
Holds-none x = record {
  from_free = refl;
  to_used = sym (append-nil x.cache_list_used);
  held = refl;
  held_count = refl;
}

-- One round of the claiming loop.
claim_block-Holds :
    (n urb b : ℕ) (r bs : List ℕ) (x₀ x : Xhci) (p : UrbPriv)
    → IsPartition n x
    → x.cache_list_free ≡ b ∷ r
    → length bs < max_data_blocks
    → Holds x₀ x bs p
    → Holds x₀
        (claim_block urb (length bs) b p x).0
        (bs ++ b ∷ [])
        (claim_block urb (length bs) b p x).1
unfolding claim_block move_to_used
claim_block-Holds n urb b r bs x₀ x p v e l h =
    let fits : ltb (length bs) max_data_blocks ≡ true = ground arith in
    let room : max_data_blocks - length bs ≡ suc (max_data_blocks - length (bs ++ b ∷ [])) =
      omega (arith, length-append_one bs b) in
    rw fits (record {
      from_free =
          h.from_free
          ∙ ap (◌++◌ bs) e
          ∙ sym (append_assoc bs (b ∷ []) r)
          ∙ ap (λ t. bs ++ b ∷ [] ++ t) (sym (ap (remove b) e ∙ remove_head b r));
      to_used =
          ap (λ t. t ++ b ∷ [])
            (remove-absent b x.cache_list_used (not_used n b r x v e) ∙ h.to_used)
          ∙ append_assoc x₀.cache_list_used bs (b ∷ []);
      held =
          ap (λ t. set t (length bs) (some b)) (h.held ∙ ap (entries 0 bs) room)
          ∙ set-entries-some bs b _;
      held_count = omega (arith, h.held_count, length-append_one bs b);
    })

pub on_device-SameBlocks : (f : Device → Device) (x : Xhci) → SameBlocks x (on_device f x)
on_device-SameBlocks f x = ground arith

set_block_urb-SameBlocks : (b : ℕ) (u : Option ℕ) (x : Xhci) → SameBlocks x (set_block_urb b u x)
set_block_urb-SameBlocks b u x = ground arith

guarded-SameBlocks :
    (t : Bool) (f : Device → Device) (x : Xhci) → SameBlocks x (if t then x else on_device f x)
guarded-SameBlocks true f x = SameBlocks-refl x
guarded-SameBlocks false f x = on_device-SameBlocks f x

claim_block-IsPartition :
    (n urb i b : ℕ) (r : List ℕ) (x : Xhci) (p : UrbPriv)
    → IsPartition n x
    → x.cache_list_free ≡ b ∷ r
    → IsPartition n (claim_block urb i b p x).0
unfolding claim_block
claim_block-IsPartition n urb i b r x p v e =
    let s = guarded-SameBlocks (ltb i max_data_blocks) (add_fault out_of_bounds) x in
    let y = if ltb i max_data_blocks then x else on_device (add_fault out_of_bounds) x in
    SameBlocks-IsPartition n (set_block_urb-SameBlocks b (some urb) (move_to_used b y)) (
      move_to_used-IsPartition n b y (is_free n b r y (s.same_free ∙ e))
        (SameBlocks-IsPartition n s v))

-- What holds when the claiming loop has taken `m` blocks and let go of the lock.
abbrev pub Claimed : ℕ → ℕ → Xhci → Xhci × UrbPriv × Bool → Type 0
Claimed n m x₀ r =
    (bs : List ℕ) × Holds x₀ r.0 bs r.1
    × (length bs ≡ m)
    × IsPartition n r.0
    × IsUnlocked r.0
    × (r.2 ≡ true)

-- With enough free blocks the loop claims them all.
pub claim_loop-Claimed :
    (n rounds urb m : ℕ) (bs : List ℕ) (x₀ x : Xhci) (p : UrbPriv)
    → IsPartition n x
    → rounds ≤ length x.cache_list_free
    → length bs + rounds ≡ m
    → m ≤ max_data_blocks
    → Holds x₀ x bs p
    → Claimed n m x₀ (claim_loop rounds (length bs) urb p x)
unfolding claim_loop
claim_loop-Claimed n zero urb m bs x₀ x p v l e f h = (
  bs,
  record { from_free = h.from_free; to_used = h.to_used; held = h.held; held_count = h.held_count },
  omega arith,
  SameBlocks-IsPartition n (unlock-SameBlocks x) v,
  refl,
  refl,
)
claim_loop-Claimed n (suc rounds) urb m bs x₀ x p v l e f h = elim (List-cases x.cache_list_free) [
  | inl q ↦ absurd (omega (arith, ap length q))
  | inr (b, r, q) ↦
      let y = claim_block urb (length bs) b p x in
      let h' = claim_block-Holds n urb b r bs x₀ x p v q (omega arith) h in
      let ih =
        claim_loop-Claimed n rounds urb m (bs ++ b ∷ []) x₀ y.0 y.1
          (claim_block-IsPartition n urb (length bs) b r x p v q)
          (omega (
            arith,
            ap length h.from_free,
            ap length h'.from_free,
            length-append bs x.cache_list_free,
            length-append (bs ++ b ∷ []) y.0.cache_list_free,
            length-append_one bs b,
          ))
          (omega (arith, length-append_one bs b)) f h' in
      rw (q, claim_loop)
        (subst (λ t. Claimed n m x₀ (claim_loop rounds t urb y.1 y.0))
          (omega (arith, length-append_one bs b)) ih)
]
