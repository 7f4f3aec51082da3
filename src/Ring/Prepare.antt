-- ===== src/Ring/Prepare.antt =====
-- The loop of `prepare_ring` (xhci-ring.c) that makes room on a mirrored ring.
use fl.Ring.Expand.{make_room}
use fl.Base.Int.{ℤ, pos, enomem}
use fl.Xhci.{Xhci}
use fl.Kernel.{Kernel}
use fl.Ring.{Quirks, Ring}
use fl.Ring.Move.{num_trbs_needed, room_on_ring}
use fl.Base.{ℕ, Option, Bool, ltb, ◌≡◌, some, true, suc, refl, ◌+◌, ◌*◌, length, ◌≤◌}

-- The free TRBs of a ring are those of another and 63 for each segment that it has more.
abbrev pub Counted : Ring → Ring → Type 0
Counted r r' = r'.num_trbs_free + 63 * length r.segs ≡ r.num_trbs_free + 63 * length r'.segs

-- How the loop ends, on ring `r`: with room for the TRBs, counted on segments that are there, and no
-- cache write that failed; or with -ENOMEM.
pub data Prepared (num_trbs : ℕ) (r : Ring) : Xhci × ℤ × Ring × Bool → Type 0 where
  has_room :
      (x : Xhci) (r' : Ring)
      → room_on_ring r' num_trbs ≡ true
      → Counted r r'
      → length r.segs ≤ length r'.segs
      → Prepared num_trbs r (x, pos 0, r', true)
  no_memory : (x : Xhci) (r' : Ring) (linked : Bool) → Prepared num_trbs r (x, enomem, r', linked)

-- The loop ends, in one of these ways.
abbrev pub Ends : ℕ → Ring → Option (Xhci × ℤ × Ring × Bool) → Type 0
Ends num_trbs r result =
    (out : Xhci × ℤ × Ring × Bool) × (result ≡ some out) × Prepared num_trbs r out

module _ (k : Kernel) (q : Quirks) (num_trbs : ℕ) where
  pub make_room_done :
      (fuel : ℕ) (linked : Bool) (r : Ring) (x : Xhci)
      → ltb (num_trbs_needed r num_trbs) 1 ≡ true
      → make_room (suc fuel) k q num_trbs linked r x ≡ some (x, pos 0, r, linked)
  unfolding make_room
  make_room_done fuel linked r x h = rw (make_room, h) refl
