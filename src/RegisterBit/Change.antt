-- ===== src/RegisterBit/Change.antt =====
-- What `REGISTER_SetBit` and `REGISTER_ClearBit` (ehub_register.c) send.
use fl.Base.Int.{eqb_ℤ, pos, is_positive, ℤ, is_neg}
use fl.Cache.Create.{NeverFails}
use fl.Kernel.{Kernel, Call, usb_control_msg, kfree, kzalloc}
use fl.Device.{Device}
use fl.RegisterBit.{
  change_bit, register_transfer, register_read, register_write, register_clear_bit,
  register_set_bit, with_bit, without_bit,
}
use Prim.Native.Nat.{bit_or, bit_or-bitwise}
use fl.Base.Bits.{bit_at, bit_at-lt, bit_at-bit_or, bit_at-bit_and, power_bits}
use fl.Base.Bytes.{u32_max}
use fl.RegisterBit.{check_shift}
use fl.Base.{
  ◌<◌, ◌==◌, ◌-◌, ℕ, List, Bool, ◌≡◌, true, ◌∷◌, if◌then◌else◌, false, ◌%◌, ap, ◌∙◌, refl, arith,
  ◌^◌,
}

-- The calls of a read, up to its answer.
abbrev pub read_calls : ℕ → Device → List Call
read_calls offset d = usb_control_msg true (offset % 65536) 0 ∷ kzalloc ∷ d.history

-- The calls of a read and of a write of `word`.
abbrev pub change_calls : ℕ → ℕ → Device → List Call
change_calls offset word d =
    kfree ∷ usb_control_msg false (offset % 65536) word ∷ kzalloc ∷ kfree ∷ read_calls offset d

transfer_eq :
    (k : Kernel) (read : Bool) (offset word : ℕ) (d : Device)
    → NeverFails k
    → (register_transfer k read offset word d).0.history
      ≡ kfree
        ∷ usb_control_msg read (offset % 65536) (if read then 0 else word)
        ∷ kzalloc
        ∷ d.history
unfolding register_transfer
transfer_eq k read offset word d h = rw (register_transfer, h (kzalloc ∷ d.history)) refl

read_eq :
    (k : Kernel) (offset : ℕ) (d : Device)
    → NeverFails k
    → let answer = k.controls (read_calls offset d) in
      ((register_read k offset d).1 ≡ answer.0)
      × ((register_read k offset d).2 ≡ (if is_positive answer.0 then answer.1 else 0))
unfolding register_read register_transfer
read_eq k offset d h = rw (register_read, register_transfer, h (kzalloc ∷ d.history)) (refl, refl)

-- The word that a read finds: 0 where its status is not positive.
abbrev pub found : Kernel → ℕ → Device → ℕ
found k offset d =
    let answer = k.controls (read_calls offset d) in if is_positive answer.0 then answer.1 else 0

same_history : (bit : ℕ) (d : Device) → (check_shift bit d).history ≡ d.history
same_history bit d = ground arith

change_bit-calls :
    (k : Kernel) (change : ℕ → ℕ → ℕ) (offset bit : ℕ) (d : Device)
    → NeverFails k
    → let answer = k.controls (read_calls offset d) in
      eqb_ℤ answer.0 (pos 0) ≡ false
      → (change_bit k change offset bit d).history
        ≡ change_calls offset (change bit (if is_positive answer.0 then answer.1 else 0)) d
unfolding change_bit register_read register_write
change_bit-calls k change offset bit d h some_status =
    let r = register_read k offset d in
    let (status, word) = read_eq k offset d h in
    let goes_on : eqb_ℤ r.1 (pos 0) ≡ false = ap (λ s. eqb_ℤ s (pos 0)) status ∙ some_status in
    let first = same_history bit r.0 ∙ transfer_eq k true offset 0 d h in
    let second = transfer_eq k false offset (change bit r.2) (check_shift bit r.0) h in
    rw (goes_on, change_bit)
      (second
        ∙ ap
            (λ calls.
              kfree ∷ usb_control_msg false (offset % 65536) (change bit r.2) ∷ kzalloc ∷ calls)
            first
        ∙ ap (λ w. change_calls offset (change bit w) d) word)

positive_nonzero : (s : ℤ) → is_positive s ≡ true → eqb_ℤ s (pos 0) ≡ false
positive_nonzero s h = ground arith

negative_nonzero : (s : ℤ) → is_neg s ≡ true → eqb_ℤ s (pos 0) ≡ false
negative_nonzero s h = ground arith

negative_found : (s : ℤ) (w : ℕ) → is_neg s ≡ true → (if is_positive s then w else 0) ≡ 0
negative_found s w h = ground arith

-- A 32-bit word is another with one bit replaced.
abbrev pub OneBit : ℕ → ℕ → ℕ → ℕ → Type 0
OneBit bit value old new =
    (k : ℕ) → k < 32 → bit_at k new ≡ (if k == bit then value else bit_at k old)

with_bit-OneBit : (bit word : ℕ) → bit < 32 → OneBit bit 1 word (with_bit bit word)
with_bit-OneBit bit word small k inner =
    let table = power_bits bit k small inner in
    let below = bit_at-lt k word in bit_at-bit_or k word (2 ^ bit) ∙ ground arith

without_bit-OneBit : (bit word : ℕ) → bit < 32 → OneBit bit 0 word (without_bit bit word)
without_bit-OneBit bit word small k inner =
    let table = power_bits bit k small inner in
    let below = bit_at-lt k word in bit_at-bit_and k word (u32_max - 2 ^ bit) ∙ ground arith

-- `REGISTER_SetBit` of a bit below 32, with memory and where the read returns bytes: one read and one
-- write of the register go out, and what is written is the word that was read, with that bit 1 and all
-- others as they were.
pub register_set_bit_lem :
    (k : Kernel) (offset bit : ℕ) (d : Device)
    → NeverFails k
    → is_positive (k.controls (read_calls offset d)).0 ≡ true
    → bit < 32
    → (word : ℕ) × ((register_set_bit k offset bit d).history ≡ change_calls offset word d)
      × OneBit bit 1 (k.controls (read_calls offset d)).1 word
unfolding register_set_bit
register_set_bit_lem k offset bit d h read small =
    let answer = k.controls (read_calls offset d) in
    (
      with_bit bit answer.1,
      change_bit-calls k with_bit offset bit d h (positive_nonzero answer.0 read)
          ∙ ap (λ b. change_calls offset (with_bit bit (if b then answer.1 else 0)) d) read,
      with_bit-OneBit bit answer.1 small,
    )

-- `REGISTER_ClearBit` of a bit below 32, with memory and where the read returns bytes: one read and
-- one write of the register go out, and what is written is the word that was read, with that bit 0 and
-- all others as they were.
pub register_clear_bit_lem :
    (k : Kernel) (offset bit : ℕ) (d : Device)
    → NeverFails k
    → is_positive (k.controls (read_calls offset d)).0 ≡ true
    → bit < 32
    → (word : ℕ) × ((register_clear_bit k offset bit d).history ≡ change_calls offset word d)
      × OneBit bit 0 (k.controls (read_calls offset d)).1 word
unfolding register_clear_bit
register_clear_bit_lem k offset bit d h read small =
    let answer = k.controls (read_calls offset d) in
    (
      without_bit bit answer.1,
      change_bit-calls k without_bit offset bit d h (positive_nonzero answer.0 read)
          ∙ ap (λ b. change_calls offset (without_bit bit (if b then answer.1 else 0)) d) read,
      without_bit-OneBit bit answer.1 small,
    )

or_nothing : (n : ℕ) → bit_or 0 n ≡ n
or_nothing n = bit_or-bitwise 0 n

-- Where the read fails with a negative status, `REGISTER_SetBit` writes the register all the same:
-- the bit is set, and all other bits are cleared.
pub set_bit_after_failed_read :
    (k : Kernel) (offset bit : ℕ) (d : Device)
    → NeverFails k
    → is_neg (k.controls (read_calls offset d)).0 ≡ true
    → (register_set_bit k offset bit d).history ≡ change_calls offset (2 ^ bit) d
unfolding register_set_bit
set_bit_after_failed_read k offset bit d h fails =
    let answer = k.controls (read_calls offset d) in
    change_bit-calls k with_bit offset bit d h (negative_nonzero answer.0 fails)
    ∙ ap (λ w. change_calls offset (with_bit bit w) d) (negative_found answer.0 answer.1 fails)
    ∙ ap (λ w. change_calls offset w d) (or_nothing (2 ^ bit))
