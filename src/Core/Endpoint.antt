-- ===== src/Core/Endpoint.antt =====
-- Indices, addresses and flags of endpoints (xhci.c).
use fl.Base.{ℕ, zero, suc, ◌+◌, ◌-◌, ◌*◌, ◌/◌, ◌%◌, ◌^◌, ◌<◌, ◌≡◌, Bool, if◌then◌else◌, ◌==◌, arith}

-- What the code reads of `struct usb_endpoint_descriptor`: the number, the direction and whether it
-- is a control endpoint.
pub record Descriptor : Type 0 where
  pub number : ℕ
  pub dir_in : Bool
  pub xfer_control : Bool

-- `ehub_xhci_get_endpoint_index`. The subtraction wraps for endpoint 0 OUT of another type.
unfoldable pub get_endpoint_index : Descriptor → ℕ
get_endpoint_index d =
    if d.xfer_control
    then d.number * 2
    else (d.number * 2 + (if d.dir_in then 1 else 0) + (2 ^ 32 - 1)) % 2 ^ 32

-- `ehub_xhci_get_endpoint_address`: `USB_DIR_IN` is 0x80. The number takes bits below that.
unfoldable pub get_endpoint_address : ℕ → ℕ
get_endpoint_address ep_index =
    let number = (ep_index + 1) / 2 in if ep_index % 2 == 0 then 0x80 + number else number

-- `ehub_xhci_get_endpoint_flag_from_index` and `ehub_xhci_get_endpoint_flag`
unfoldable pub get_endpoint_flag_from_index : ℕ → ℕ
get_endpoint_flag_from_index ep_index = 2 ^ (ep_index + 1)

unfoldable pub get_endpoint_flag : Descriptor → ℕ
get_endpoint_flag d = 2 ^ (get_endpoint_index d + 1)

-- `fls`: the place of the highest one, counted from 1; 0 without one. `n` bits are looked at.
unfoldable pub fls : ℕ → ℕ → ℕ
fls zero w = 0
fls (suc n) w = let high = fls n (w / 2) in if high == 0 then w % 2 else suc high

-- `ehub_xhci_last_valid_endpoint`
unfoldable pub last_valid_endpoint : ℕ → ℕ
last_valid_endpoint added_ctxs = (fls 32 added_ctxs + (2 ^ 32 - 1)) % 2 ^ 32

-- `bEndpointAddress` of a descriptor.
abbrev pub address_of : Descriptor → ℕ
address_of d = if d.dir_in then 0x80 + d.number else d.number

-- The address of an endpoint is that of its index; for a control endpoint it is the IN address.
pub get_endpoint_address-index :
    (d : Descriptor)
    → d.number < 16
    → 0 < d.number
    → get_endpoint_address (get_endpoint_index d)
      ≡ (if d.xfer_control then 0x80 + d.number else address_of d)
unfolding get_endpoint_address get_endpoint_index
get_endpoint_address-index d lt pos = ground arith
