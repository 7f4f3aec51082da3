-- ===== src/Cache/UrbFree.antt =====
-- `ehub_xhci_cache_block_free_by_urb`: the blocks of a URB go back, all of them.
use fl.Xhci.Frame.{IsUnlocked, spin_lock-SameBlocks}
use fl.Cache.UrbBlocks.{entries, get_elem?-entries, Holds, set-entries-none}
use fl.Cache.Partition.{
  IsPartition, move_to_free-IsPartition, SameBlocks-IsPartition, unlock-SameBlocks,
}
use fl.Xhci.{Xhci, spin_lock}
use fl.Base.Chain.{remove, count, count-append, count_middle, remove-append_middle}
use fl.Cache.{free_one, free_loop, UrbPriv, move_to_free, free_by_urb, max_data_blocks}
use fl.Base.{
  ℕ, zero, replicate, ◌+◌, ◌≤◌, List, ◌≡◌, length, ◌++◌, ◌∙◌, ◌∷◌, arith, [], refl, ap, subst, sym,
  suc, set, ◌-◌, none,
}
use mathlib.Core.List.{append-nil}

-- The blocks `bs` that a URB still holds are the last used ones.
pub record Owns (used : List ℕ) (x : Xhci) (j : ℕ) (bs : List ℕ) (r : ℕ) (p : UrbPriv)
    : Type 0 where
  pub last_used : x.cache_list_used ≡ used ++ bs
  pub array : p.ehub_data_cache_block ≡ entries j bs r

free_one_lem :
    (j b : ℕ) (bs : List ℕ) (r : ℕ) (p : UrbPriv) (x : Xhci)
    → p.ehub_data_cache_block ≡ entries j (b ∷ bs) r
    → free_one j p x ≡ move_to_free b x
unfolding free_one
free_one_lem j b bs r p x e = ground (arith, e, get_elem?-entries j b bs r)

count_before :
    (n b : ℕ) (used bs : List ℕ) (x : Xhci)
    → IsPartition n x
    → x.cache_list_used ≡ used ++ b ∷ bs
    → count b used ≡ 0
count_before n b used bs x v e =
    ground (arith, v.once b, count-append b used (b ∷ bs), ap (count b) e)

move_to_free_used :
    (b : ℕ) (x : Xhci) → (move_to_free b x).cache_list_used ≡ remove b x.cache_list_used
unfolding move_to_free
move_to_free_used b x = refl

move_to_free_lock : (b : ℕ) (x : Xhci) → (move_to_free b x).cache_list_lock ≡ x.cache_list_lock
unfolding move_to_free
move_to_free_lock b x = refl

-- What the loop leaves: the used list without the blocks, and the blocks still shared out.
abbrev pub Freed : ℕ → List ℕ → Xhci → ℕ → Xhci × UrbPriv → Type 0
Freed n used x cleared r =
    IsPartition n r.0
    × (r.0.cache_list_used ≡ used)
    × (r.0.cache_list_lock ≡ x.cache_list_lock)
    × (r.1.ehub_data_cache_block ≡ replicate cleared none)

replicate_add : (j r : ℕ) → entries j [] r ≡ replicate (j + r) none
replicate_add zero r = ap (λ m. replicate m none) (omega arith)
replicate_add (suc j) r =
    let shift : suc (j + r) ≡ suc j + r = omega arith in
    ap (◌∷◌ none) (replicate_add j r) ∙ ap (λ m. replicate m none) shift

free_loop-Freed :
    (n j : ℕ) (used bs : List ℕ) (r : ℕ) (p : UrbPriv) (x : Xhci)
    → IsPartition n x
    → Owns used x j bs r p
    → Freed n used x (j + (length bs + r)) (free_loop (length bs) j p x)
unfolding free_loop
free_loop-Freed n j used [] r p x v o = (
  v,
  o.last_used ∙ append-nil used,
  refl,
  o.array ∙ replicate_add j r ∙ ap (λ m. replicate m none) (omega arith),
)
free_loop-Freed n j used (b ∷ bs) r p x v o =
    let f = free_one_lem j b bs r p x o.array in
    let y = free_one j p x in
    let absent = count_before n b used bs x v o.last_used in
    let v' : IsPartition n y = subst (IsPartition n) (sym f) (
      move_to_free-IsPartition n b x
        (ground (arith, ap (count b) o.last_used, count_middle b used bs)) v) in
    let ih =
      free_loop-Freed n (suc j) used bs r
        (record p { ehub_data_cache_block = set p.ehub_data_cache_block j none }) y v'
        (record {
          last_used =
              ap (λ (t : Xhci). t.cache_list_used) f
              ∙ move_to_free_used b x
              ∙ ap (remove b) o.last_used
              ∙ remove-append_middle b used bs absent;
          array = ap (λ t. set t j none) o.array ∙ set-entries-none j b bs r;
        }) in
    (
      ih.0,
      ih.1,
      ih.2 ∙ ap (λ (t : Xhci). t.cache_list_lock) f ∙ move_to_free_lock b x,
      ih.3 ∙ ap (λ m. replicate m none) (omega arith),
    )

-- All blocks that the URB holds go back: the used list is that of before they were claimed, and
-- the URB holds none: its count is 0, and each of the six entries of its array is NULL. It had six
-- at most.
pub free_by_urb_lem :
    (n : ℕ) (x₀ x : Xhci) (bs : List ℕ) (p : UrbPriv)
    → IsPartition n x
    → IsUnlocked x
    → length bs ≤ max_data_blocks
    → Holds x₀ x bs p
    → IsPartition n (free_by_urb p x).0
      × IsUnlocked (free_by_urb p x).0
      × ((free_by_urb p x).0.cache_list_used ≡ x₀.cache_list_used)
      × ((free_by_urb p x).1.cache_block_cnt ≡ 0)
      × ((free_by_urb p x).1.ehub_data_cache_block ≡ replicate 6 none)
unfolding free_by_urb
free_by_urb_lem n x₀ x bs p v u six h =
    let s = spin_lock-SameBlocks x in
    let f =
      free_loop-Freed n 0 x₀.cache_list_used bs (max_data_blocks - length bs) p (spin_lock x)
        (SameBlocks-IsPartition n s v)
        (record { last_used = s.same_used ∙ h.to_used; array = h.held }) in
    let g =
      subst
        (λ t.
          Freed n x₀.cache_list_used (spin_lock x) (0 + (length bs + (max_data_blocks - length bs)))
            (free_loop t 0 p (spin_lock x)))
        (sym h.held_count) f in
    let all : 0 + (length bs + (max_data_blocks - length bs)) ≡ 6 = omega arith in
    (
      SameBlocks-IsPartition n (unlock-SameBlocks _) g.0,
      refl,
      g.1,
      refl,
      g.3 ∙ ap (λ m. replicate m none) all,
    )
