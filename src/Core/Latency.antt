-- ===== src/Core/Latency.antt =====
-- xhci.c: the maximum exit latency of a device's links, which an Evaluate Context command tells the
-- controller, and the operations that enable and disable a state.
use fl.Base.Bits.{has}
use fl.Base.{none, false, ◌==◌, true}
use fl.Core.Reserve.{EpCtx}
use Prim.Native.Nat.{bit_or, bit_and}
use fl.Core.Bandwidth.{BwDevice}
use fl.Base.Int.{ℤ, pos, negsuc, is_neg, eqb_ℤ, enomem}
use fl.Core.Configure.{Resources, Answers, Command, configure_endpoint}
use fl.Core.{ControlCtx}
use fl.Base.{ℕ, Bool, some, Option, ◌^◌, ◌%◌, ◌-◌, if◌then◌else◌, not}
use fl.Core.Lpm.{
  UsbDevice, LinkState, calculate_lpm_timeout, calculate_max_exit_latency, usb3_lpm_disabled,
}

-- The slot context: its second word and its state.
pub record SlotCtx : Type 0 where
  pub dev_info2 : ℕ
  pub dev_state : ℕ

-- What the operations read and write. `ctrl_ctx` and `in_slot` are of the input context of
-- `lpm_command`, `out_slot` is of the device, and `current_mel` is none when the device is not in
-- `devs`.
pub record Links : Type 0 where
  pub resources : Resources
  pub ctrl_ctx : Option ControlCtx
  pub in_slot : SlotCtx
  pub out_slot : SlotCtx
  pub current_mel : Option ℕ

abbrev pub slot_flag : ℕ
slot_flag = 1

abbrev pub max_exit : ℕ
max_exit = 0xffff

abbrev pub xhci_lpm_support : ℕ
xhci_lpm_support = 2 ^ 11

-- The conversion of an `int` to `u16`.
abbrev pub to_u16 : ℤ → ℕ
to_u16 (pos n) = n % 2 ^ 16
to_u16 (negsuc n) = 2 ^ 16 - 1 - n % 2 ^ 16

-- The input context of the command: the slot as it is, with the new latency.
unfoldable pub set_latency : ControlCtx → ℕ → Links → Links
set_latency c mel s = record s {
  ctrl_ctx = some (record c { add_flags = bit_or c.add_flags slot_flag });
  in_slot = record {
    dev_info2 = bit_or (bit_and s.out_slot.dev_info2 (2 ^ 32 - 1 - max_exit)) mel;
    dev_state = 0;
  };
}

-- The answers are those to the command.
unfoldable pub change_max_exit_latency : Answers → BwDevice → (ℕ → EpCtx) → ℕ → Links → Links × ℤ
change_max_exit_latency a v in_ctx mel s = elim s.current_mel [
  | none ↦ (s, pos 0)
  | some current ↦ if mel == current then (s, pos 0) else elim s.ctrl_ctx [
    | none ↦ (s, enomem)
    | some c ↦
        let s₁ = set_latency c mel s in
        let command : Command = record { ctrl_ctx = s₁.ctrl_ctx; ctx_change = true } in
        let (x, status) = configure_endpoint a v in_ctx (some command) s.resources in
        let s₂ = record s₁ { resources = x } in
        if eqb_ℤ status (pos 0)
        then (record s₂ { current_mel = some mel }, status)
        else (s₂, status)
  ]
]

-- Whether the operations do anything.
abbrev pub is_managed : ℕ → Links → Bool
is_managed quirks s = elim s.current_mel [
  | none ↦ false
  | some current ↦ has xhci_lpm_support quirks
]

unfoldable pub enable_usb3_lpm_timeout :
    Answers → BwDevice → (ℕ → EpCtx) → ℕ → UsbDevice → LinkState → Links → Links × ℤ
enable_usb3_lpm_timeout a v in_ctx quirks d state s =
    let wanted = calculate_lpm_timeout quirks d state in
    let latency = calculate_max_exit_latency d state wanted in
    let encoded = if is_neg latency then usb3_lpm_disabled else wanted in
    let mel = if is_neg latency then 0 else to_u16 latency in
    let (s₁, status) = change_max_exit_latency a v in_ctx mel s in
    if not (is_managed quirks s)
    then (s, pos usb3_lpm_disabled)
    else if eqb_ℤ status (pos 0)
    then (s₁, pos encoded)
    else (s₁, status)

unfoldable pub disable_usb3_lpm_timeout :
    Answers → BwDevice → (ℕ → EpCtx) → ℕ → UsbDevice → LinkState → Links → Links × ℤ
disable_usb3_lpm_timeout a v in_ctx quirks d state s =
    let mel = to_u16 (calculate_max_exit_latency d state usb3_lpm_disabled) in
    if is_managed quirks s then change_max_exit_latency a v in_ctx mel s else (s, pos 0)
