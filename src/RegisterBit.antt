-- ===== src/RegisterBit.antt =====
-- ehub_register.c: registers that the device reaches over I2C, with control messages, and the
-- change of a single bit of one.
pub mod Change
use fl.Base.Int.{ℤ, eqb_ℤ, pos, einval, is_positive}
use fl.Device.{Device, record_call, add_fault, null_pointer}
use fl.Kernel.{Kernel, kzalloc, usb_control_msg, kfree}
use Prim.Native.Nat.{bit_or}
use fl.Base.Bits.{without}
use fl.Device.{bad_shift}
use fl.Base.{ltb, ℕ, if◌then◌else◌, Bool, ◌/◌, ◌^◌, ◌%◌, true, false, ◌==◌, ◌+◌, ◌-◌, not}

-- `REGISTER_Transfer`, with its status and `*Data` after it. The buffer that it allocates is used
-- unchecked. A register number is a `u16`.
unfoldable pub register_transfer : Kernel → Bool → ℕ → ℕ → Device → Device × ℤ × ℕ
register_transfer k read offset word d =
    let d₁ = record_call kzalloc d in
    let d₂ = record_call (usb_control_msg read (offset % 65536) (if read then 0 else word)) d₁ in
    let (status, value) = k.controls d₂.history in
    if not (k.allocates d₁.history) then (add_fault null_pointer d₁, einval, word) else (
      record_call kfree d₂,
      status,
      if read then (if is_positive status then value else word) else word,
    )

-- `REGISTER_Read`: the data are 0 where nothing is read.
unfoldable pub register_read : Kernel → ℕ → Device → Device × ℤ × ℕ
register_read k offset d = register_transfer k true offset 0 d

-- `REGISTER_Write`
unfoldable pub register_write : Kernel → ℕ → ℕ → Device → Device × ℤ × ℕ
register_write k offset word d = register_transfer k false offset word d

-- `data |= ( 1 << BitOffset )` and `data &= ~( 1 << BitOffset )`
abbrev pub with_bit : ℕ → ℕ → ℕ
with_bit bit word = bit_or word (2 ^ bit)

abbrev pub without_bit : ℕ → ℕ → ℕ
without_bit bit word = without (2 ^ bit) word

-- A shift by 32 or more is an error of the program.
abbrev pub check_shift : ℕ → Device → Device
check_shift bit d = if ltb bit 32 then d else add_fault bad_shift d

-- The read, the change of a bit and the write. The read counts as failed only where its status is 0.
unfoldable pub change_bit : Kernel → (ℕ → ℕ → ℕ) → ℕ → ℕ → Device → Device
change_bit k change offset bit d =
    let (d₁, status, word) = register_read k offset d in
    if eqb_ℤ status (pos 0)
    then d₁
    else (register_write k offset (change bit word) (check_shift bit d₁)).0

-- `REGISTER_SetBit`
unfoldable pub register_set_bit : Kernel → ℕ → ℕ → Device → Device
register_set_bit k offset bit d = change_bit k with_bit offset bit d

-- `REGISTER_ClearBit`
unfoldable pub register_clear_bit : Kernel → ℕ → ℕ → Device → Device
register_clear_bit k offset bit d = change_bit k without_bit offset bit d
