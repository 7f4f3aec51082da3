-- ===== src/Hub/Clear.antt =====
-- ClearPortFeature of a change bit, from the request to the register (xhci-hub.c).
use fl.Base.{
  ℕ, Option, none, ◌||◌, true, List, ◌∷◌, [], ◌≡◌, ◌≢◌, ◌≤◌, ◌<◌, ◌-◌, arith, some, if◌then◌else◌,
  ◌==◌, ap, ◌∙◌, ◌^◌,
}
use Prim.Native.Nat.{bit_or}
use fl.Base.Bits.{without, bit_at, power_bits}
use fl.Base.Bytes.{u32_max}
use fl.Base.Int.{pos, ℤ}
use fl.Hub.{
  Hub, Host, Hcd, Access, write_port, reg_lock, log, readl, writel, change_bit_of,
  port_state_to_neutral, clear_port_change_bit, c_suspend, on_bus,
}
use fl.Hub.Control.{
  hub_control, request, clear_port_feature, clear_feature, clear_change, clear_port_feature_request,
  feat_suspend, feat_enable, feat_power,
}
use fl.Hub.Neutral.{port_bit_after, neutral_with_lem, change-clears_all}

-- The register writes of a log, the latest first: address and value.
unfoldable pub writes : List Access → List (ℕ × ℕ)
writes [] = []
writes (write_port address value ∷ rest) = (address, value) ∷ writes rest
writes (_ ∷ rest) = writes rest

clear_port_change_bit-writes :
    (o : Host) (feature address v status : ℕ) (h : Hub)
    → change_bit_of feature ≡ some status
    → writes (clear_port_change_bit o feature address v h).log
      ≡ (address, bit_or v status) ∷ writes h.log
unfolding clear_port_change_bit readl writel writes
clear_port_change_bit-writes o feature address v status h e = ground arith

-- A change feature is none of the other features.
is_change :
    (feature status : ℕ)
    → change_bit_of feature ≡ some status
    → (feature ≢ feat_suspend) × (feature ≢ feat_enable) × (feature ≢ feat_power)
unfolding change_bit_of
is_change feature status e = ground arith

clear_feature_eq :
    (o : Host) (c : Hcd) (feature index temp status : ℕ) (h : Hub)
    → change_bit_of feature ≡ some status
    → clear_feature o c feature index temp h ≡ (clear_change o c feature index temp h, true)
unfolding clear_feature
clear_feature_eq o c feature index temp status h e = ground (arith, is_change feature status)

clear_change-writes :
    (o : Host) (c : Hcd) (feature index v status : ℕ) (h : Hub)
    → change_bit_of feature ≡ some status
    → writes (clear_change o c feature index v h).log
      ≡ (c.port_array index, bit_or v status) ∷ writes h.log
unfolding clear_change
clear_change-writes o c feature index v status h e =
    let h₁ =
      if feature == c_suspend
      then on_bus (λ b. record b { port_c_suspend = without (2 ^ index) b.port_c_suspend }) h
      else h in
    let same : writes h₁.log ≡ writes h.log = ground arith in
    clear_port_change_bit-writes o feature (c.port_array index) v status h₁ e
    ∙ ap (◌∷◌ (c.port_array index, bit_or v status)) same

-- The whole request, behind the tests of the port.
clear_port_feature_eq :
    (o : Host) (c : Hcd) (feature w_index v status : ℕ) (h : Hub)
    → 0 < w_index
    → w_index ≤ c.max_ports
    → change_bit_of feature ≡ some status
    → (readl o (c.port_array (w_index - 1)) h).1 ≡ v
    → v ≢ u32_max
    → clear_port_feature o c feature w_index h ≡ (
      clear_change o c feature
          (w_index - 1)
          (port_state_to_neutral v)
          (readl o (c.port_array (w_index - 1)) h).0,
      pos 0,
    )
unfolding clear_port_feature
clear_port_feature_eq o c feature w_index v status h port known e seen there =
    let r = readl o (c.port_array (w_index - 1)) h in
    let taken = clear_feature_eq o c feature (w_index - 1) (port_state_to_neutral v) status r.0 e in
    ground (arith, taken)

-- The bit of PORTSC that each change feature of the USB specification stands for, by number:
-- C_PORT_CONNECTION is 16, C_PORT_ENABLE 17, C_PORT_SUSPEND 18, C_PORT_OVER_CURRENT 19, C_PORT_RESET 20,
-- C_PORT_LINK_STATE 25, C_PORT_CONFIG_ERROR 26 and C_BH_PORT_RESET 29; CSC is bit 17, PEC 18, WRC 19,
-- OCC 20, PRC 21, PLC 22 and CEC 23.
abbrev pub portsc_bit : ℕ → Option ℕ
portsc_bit feature =
    if feature == 16
    then some 17
    else if feature == 17
    then some 18
    else if (feature == 18) || (feature == 25)
    then some 22
    else if feature == 19
    then some 20
    else if feature == 20
    then some 21
    else if feature == 26
    then some 23
    else if feature == 29
    then some 19
    else none

portsc_bit_lem :
    (feature j : ℕ)
    → portsc_bit feature ≡ some j
    → (change_bit_of feature ≡ some (2 ^ j)) × (j < 32)
unfolding change_bit_of
portsc_bit_lem feature j e = ground arith

same_bit :
    (j k b : ℕ)
    → j < 32
    → k < 32
    → (if bit_at k (2 ^ j) == 1 then 0 else b) ≡ (if k == j then 0 else b)
same_bit j k b inner small = let table = power_bits j k inner small in ground arith

module _ (o : Host) (c : Hcd) (feature w_index w_length v j k : ℕ) (h : Hub) (port : 0 < w_index)
    (known : w_index ≤ c.max_ports) (of : portsc_bit feature ≡ some j)
    (seen : (readl o (c.port_array (w_index - 1)) (log reg_lock h)).1 ≡ v) (there : v ≢ u32_max)
    (lt : k < 32) where
  -- ClearPortFeature of a change feature, for a port of the hub whose register can be read, is
  -- taken, and makes one register write, of the port's PORTSC. By the kinds of its bits, that write
  -- clears the bit of the feature, and leaves every other bit of the port as it was read.
  pub clear_port_feature_lem :
      let r = hub_control o c clear_port_feature_request feature w_index w_length h in
      (value : ℕ) × (r.1 ≡ pos 0)
      × (writes r.0.log ≡ (c.port_array (w_index - 1), value) ∷ writes h.log)
      × (port_bit_after k v value ≡ (if k == j then 0 else bit_at k v))
  unfolding hub_control request writes readl
  clear_port_feature_lem =
      let status = 2 ^ j in
      let (e, inner) = portsc_bit_lem feature j of in
      let address = c.port_array (w_index - 1) in
      let neutral = port_state_to_neutral v in
      let whole =
        clear_port_feature_eq o c feature w_index v status (log reg_lock h) port known e seen
          there in
      let made =
        clear_change-writes o c feature (w_index - 1) neutral status
          (readl o address (log reg_lock h)).0 e in
      (
        bit_or neutral status,
        ap (λ (r : Hub × ℤ). r.1) whole,
        ap (λ (r : Hub × ℤ). writes r.0.log) whole ∙ made,
        neutral_with_lem status k v (change-clears_all feature status e) lt
            ∙ same_bit j k (bit_at k v) inner lt,
      )
