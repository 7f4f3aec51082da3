-- ===== src/Core.antt =====
-- xhci.c: the endpoints of a device as the controller counts them. Here are the indices and flags of
-- endpoints; the modules below have the bandwidth tables and the configuration of endpoints.
pub mod Endpoint
pub mod Bandwidth
pub mod Schedule
pub mod Reserve
pub mod Configure
pub mod Count
pub mod Active
pub mod Lpm
pub mod Largest
pub mod Latency
use fl.Base.{ℕ, zero, suc, ◌+◌, ◌-◌, ◌*◌, ◌/◌, ◌%◌, ◌^◌, Bool, true, false, if◌then◌else◌, ◌==◌}
use fl.Base.Bits.{has}

-- Arithmetic of `unsigned int`.
abbrev pub u32 : ℕ → ℕ
u32 n = n % 2 ^ 32

abbrev pub add32 : ℕ → ℕ → ℕ
add32 a b = (a + b) % 2 ^ 32

abbrev pub sub32 : ℕ → ℕ → ℕ
sub32 a b = (a + 2 ^ 32 - b % 2 ^ 32) % 2 ^ 32

-- `DIV_ROUND_UP`
abbrev pub div_round_up : ℕ → ℕ → ℕ
div_round_up n d = u32 (n + d - 1) / d

-- `hweight32`: the ones among the lowest bits of a word.
unfoldable pub weight : ℕ → ℕ → ℕ
weight zero w = 0
weight (suc n) w = w % 2 + weight n (w / 2)

abbrev pub hweight32 : ℕ → ℕ
hweight32 w = weight 32 w

-- `struct xhci_input_control_ctx`: the two words of flags. Bit 0 is the slot's, bit `i + 1` that of
-- the endpoint with index `i`.
pub record ControlCtx : Type 0 where
  pub drop_flags : ℕ
  pub add_flags : ℕ

-- `EP_IS_ADDED` and `EP_IS_DROPPED`
abbrev pub ep_is_added : ControlCtx → ℕ → Bool
ep_is_added c i = has (2 ^ (i + 1)) c.add_flags

abbrev pub ep_is_dropped : ControlCtx → ℕ → Bool
ep_is_dropped c i = has (2 ^ (i + 1)) c.drop_flags
