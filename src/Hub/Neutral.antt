-- ===== src/Hub/Neutral.antt =====
-- What a write of PORTSC does to the port (the comments above ehub_xhci_port_state_to_neutral of
-- xhci-hub.c), and the values that the driver writes.
use fl.Base.{
  ℕ, zero, suc, Bool, true, ◌&&◌, ◌≡◌, ◌<◌, ◌+◌, ◌*◌, ◌^◌, refl, arith, if◌then◌else◌, ◌==◌, some,
  ==_iff,
}
use Prim.Native.Nat.{bit_or, min, max}
use fl.Base.Bits.{bit_at, bit_at-bit_and, bit_at-bit_or, bit_at-lt, every, every-at}
use fl.Hub.{
  port_state_to_neutral, xhci_port_ro, xhci_port_rws, change_bit_of, port_rc, port_wrc, port_csc,
  port_occ, port_pec, port_plc, port_cec, port_pe,
}

-- The kinds of bits: read only; read and write; write 1 to set; write 1 to clear; the strobe of the
-- link state; reserved, to be written as 0.
pub data PortBit : Type 0 where
  read_only read_write write_1_sets write_1_clears strobe reserved : PortBit

-- Bits 0, 3, 10 … 13 and 30; 5 … 9, 14, 15 and 25 … 27; 4; 1 and 17 … 23; 16; and the rest.
unfoldable pub kind_of : ℕ → PortBit
kind_of k =
    if bit_at k xhci_port_ro == 1
    then read_only
    else if bit_at k xhci_port_rws == 1
    then read_write
    else if k == 4
    then write_1_sets
    else if bit_at k (2 + 0x7f * 2 ^ 17) == 1
    then write_1_clears
    else if k == 16
    then strobe
    else reserved

-- The bit of the port after a write of `new` over `old`.
unfoldable pub bit_after : PortBit → ℕ → ℕ → ℕ
bit_after read_only old new = old
bit_after read_write old new = new
bit_after write_1_sets old new = max old new
bit_after write_1_clears old new = if new == 1 then 0 else old
bit_after strobe old new = old
bit_after reserved old new = old

-- Bit `k` of PORTSC after the write of a word over another.
abbrev pub port_bit_after : ℕ → ℕ → ℕ → ℕ
port_bit_after k old new = bit_after (kind_of k) (bit_at k old) (bit_at k new)

-- Bit `k` of the neutral value with `extra` bits, where the register has `b`.
abbrev pub neutral_bit : ℕ → ℕ → ℕ → ℕ
neutral_bit extra k b =
    max (max (min b (bit_at k xhci_port_ro)) (min b (bit_at k xhci_port_rws))) (bit_at k extra)

neutral_bit_lem :
    (v extra k : ℕ)
    → bit_at k (bit_or (port_state_to_neutral v) extra) ≡ neutral_bit extra k (bit_at k v)
unfolding port_state_to_neutral
neutral_bit_lem v extra k = simp (bit_at-bit_or, bit_at-bit_and) refl

-- One bit of the tables: what is asked for is written 1 and cleared, all else stays.
abbrev pub clears : ℕ → ℕ → ℕ → Bool
clears extra k b =
    bit_after (kind_of k) b (neutral_bit extra k b) == (if bit_at k extra == 1 then 0 else b)

unfoldable pub clears_all : ℕ → Bool
clears_all extra = every 32 (λ k. clears extra k 0 && clears extra k 1)

-- For nothing written, for the bit that disables a port, and for the seven change bits.
abbrev Tables : Type 0
Tables =
    (clears_all 0 ≡ true)
    × (clears_all port_pe ≡ true)
    × (clears_all port_rc ≡ true)
    × (clears_all port_wrc ≡ true)
    × (clears_all port_csc ≡ true)
    × (clears_all port_occ ≡ true)
    × (clears_all port_pec ≡ true)
    × (clears_all port_plc ≡ true)
    × (clears_all port_cec ≡ true)

tables_hold : Tables
unfolding clears_all every bit_at kind_of bit_after
tables_hold = (refl, refl, refl, refl, refl, refl, refl, refl, refl)

pub change-clears_all :
    (feature status : ℕ) → change_bit_of feature ≡ some status → clears_all status ≡ true
unfolding change_bit_of
change-clears_all feature status e = ground (arith, tables_hold)

clears_either :
    (extra k b : ℕ)
    → b < 2
    → (clears extra k 0 && clears extra k 1) ≡ true
    → clears extra k b ≡ true
clears_either extra k zero lt e = ground arith
clears_either extra k (suc zero) lt e = ground arith
clears_either extra k (suc (suc b)) lt e = absurd (omega arith)

pub neutral_with_lem :
    (extra k v : ℕ)
    → clears_all extra ≡ true
    → k < 32
    → port_bit_after k v (bit_or (port_state_to_neutral v) extra)
      ≡ (if bit_at k extra == 1 then 0 else bit_at k v)
unfolding clears_all
neutral_with_lem extra k v e lt =
    let both = every-at (λ k. clears extra k 0 && clears extra k 1) k 32 lt e in
    let right = clears_either extra k (bit_at k v) (bit_at-lt k v) both in
    rw (neutral_bit_lem v extra k) ((==_iff _ _).0 right)
