-- ===== src/Core/Lpm.antt =====
-- xhci.c: the timeouts after which the links of a USB 3 device go to the low-power states U1 and U2.
use fl.Base.Bits.{has}
use fl.Base.Int.{ℤ, pos, is_neg, e2big, eqb_ℤ}
use fl.Base.{
  none, Option, ℕ, Bool, suc, false, ◌&&◌, List, ◌%◌, ◌^◌, ◌*◌, ◌+◌, ◌/◌, ◌==◌, if◌then◌else◌, leb,
  ◌||◌, not, ltb, ◌∷◌, true, ◌-◌, some, [],
}
use fl.Core.{u32, div_round_up}

-- `enum usb3_link_state`
pub data LinkState : Type 0 where
  u0 u1 u2 u3 : LinkState

-- `struct usb3_lpm_parameters`, with times in nanoseconds.
pub record LpmParams : Type 0 where
  pub mel : ℕ
  pub pel : ℕ
  pub sel : ℕ
  pub timeout : ℕ

-- `struct usb_endpoint_descriptor`: `bmAttributes` and `bInterval`.
pub record EndpointDesc : Type 0 where
  pub attributes : ℕ
  pub interval : ℕ

-- `struct usb_interface`. `driver` is the bound driver's `disable_hub_initiated_lpm`, and
-- `cur_altsetting` the endpoints of the current setting.
pub record UsbInterface : Type 0 where
  pub driver : Option Bool
  pub cur_altsetting : Option (List EndpointDesc)

-- The parents of a device: the root hub, or a hub and its parents.
pub data Parent : Type 0 where
  root_hub : Parent
  below : Parent → Parent

-- `struct usb_device`. A configuration is its list of interfaces, with none for a null entry.
pub record UsbDevice : Type 0 where
  pub parent : Parent
  pub u1_params : LpmParams
  pub u2_params : LpmParams
  pub u2_dev_exit_lat : ℕ
  pub ep0 : EndpointDesc
  pub actconfig : Option (List (Option UsbInterface))

-- The constants of Linux's usb.h and ch9.h, and the quirk of xhci.h.
abbrev pub usb3_lpm_disabled : ℕ
usb3_lpm_disabled = 0

abbrev pub usb3_lpm_u1_max_timeout : ℕ
usb3_lpm_u1_max_timeout = 127

abbrev pub usb3_lpm_u2_max_timeout : ℕ
usb3_lpm_u2_max_timeout = 254

abbrev pub usb3_lpm_device_initiated : ℕ
usb3_lpm_device_initiated = 255

abbrev pub xhci_intel_host : ℕ
xhci_intel_host = 2 ^ 12

-- `DIV_ROUND_UP_ULL`
abbrev pub div_round_up_ull : ℕ → ℕ → ℕ
div_round_up_ull n d = (n + d - 1) % 2 ^ 64 / d

-- A `bInterval` is at least 1 here; the shift is not defined for 0.
unfoldable pub service_interval_to_ns : EndpointDesc → ℕ
service_interval_to_ns e = (2 ^ (e.interval - 1) % 2 ^ 64) * 125 * 1000 % 2 ^ 64

abbrev pub initiated : LpmParams → ℕ → ℕ
initiated p max_sel_pel =
    if leb (div_round_up p.sel 1000) max_sel_pel && leb (div_round_up p.pel 1000) max_sel_pel
    then usb3_lpm_device_initiated
    else usb3_lpm_disabled

unfoldable pub get_timeout_no_hub_lpm : UsbDevice → LinkState → ℕ
get_timeout_no_hub_lpm d u1 = initiated d.u1_params 255
get_timeout_no_hub_lpm d u2 = initiated d.u2_params 65535
get_timeout_no_hub_lpm d u0 = usb3_lpm_disabled
get_timeout_no_hub_lpm d u3 = usb3_lpm_disabled

-- `usb_endpoint_type`: 0 for control, 1 isochronous, 2 bulk and 3 interrupt.
abbrev pub endpoint_type : EndpointDesc → ℕ
endpoint_type e = e.attributes % 4

-- `usb_endpoint_interrupt_type(desc) == USB_ENDPOINT_INTR_NOTIFICATION`
abbrev pub is_notification : EndpointDesc → Bool
is_notification e = e.attributes / 16 % 4 == 1

abbrev pub periodic_u1_timeout : UsbDevice → EndpointDesc → ℕ
periodic_u1_timeout d e =
    let ns = div_round_up_ull (service_interval_to_ns e * 105 % 2 ^ 64) 100 in
    let twice = u32 (d.u1_params.sel * 2) in if ltb ns twice then twice else ns

unfoldable pub calculate_intel_u1_timeout : UsbDevice → EndpointDesc → ℕ
calculate_intel_u1_timeout d e =
    if endpoint_type e == 0
    then u32 (d.u1_params.sel * 3)
    else if endpoint_type e == 2
    then u32 (d.u1_params.sel * 5)
    else if endpoint_type e == 3 && is_notification e
    then u32 (d.u1_params.sel * 3)
    else periodic_u1_timeout d e

unfoldable pub calculate_u1_timeout : ℕ → UsbDevice → EndpointDesc → ℕ
calculate_u1_timeout quirks d e =
    let ns =
      if has xhci_intel_host quirks then calculate_intel_u1_timeout d e else d.u1_params.sel in
    let timeout = if ns == usb3_lpm_disabled then 1 else div_round_up_ull ns 1000 in
    if leb timeout usb3_lpm_u1_max_timeout then timeout else get_timeout_no_hub_lpm d u1

unfoldable pub calculate_intel_u2_timeout : UsbDevice → EndpointDesc → ℕ
calculate_intel_u2_timeout d e =
    let least : ℕ = 10000000 in
    let periodic = endpoint_type e == 3 || endpoint_type e == 1 in
    let ns =
      if periodic && ltb least (service_interval_to_ns e)
      then service_interval_to_ns e
      else least in
    let exit = d.u2_dev_exit_lat * 1000 in if ltb ns exit then exit else ns

unfoldable pub calculate_u2_timeout : ℕ → UsbDevice → EndpointDesc → ℕ
calculate_u2_timeout quirks d e =
    let ns =
      if has xhci_intel_host quirks then calculate_intel_u2_timeout d e else d.u2_params.sel in
    let timeout = div_round_up_ull ns 256000 in
    if leb timeout usb3_lpm_u2_max_timeout then timeout else get_timeout_no_hub_lpm d u2

unfoldable pub call_host_update_timeout_for_endpoint : ℕ → UsbDevice → EndpointDesc → LinkState → ℕ
call_host_update_timeout_for_endpoint quirks d e u1 = calculate_u1_timeout quirks d e
call_host_update_timeout_for_endpoint quirks d e u2 = calculate_u2_timeout quirks d e
call_host_update_timeout_for_endpoint quirks d e u0 = usb3_lpm_disabled
call_host_update_timeout_for_endpoint quirks d e u3 = usb3_lpm_disabled

-- What ends the search: no timeout that the hub can take.
abbrev pub ends_search : ℕ → Bool
ends_search t = t == usb3_lpm_disabled || t == usb3_lpm_device_initiated

-- The status, and the value of `*timeout`.
unfoldable pub update_timeout_for_endpoint : ℕ → UsbDevice → EndpointDesc → LinkState → ℕ → ℤ × ℕ
update_timeout_for_endpoint quirks d e state timeout =
    let alt = call_host_update_timeout_for_endpoint quirks d e state in
    if ends_search alt then (e2big, alt) else (pos 0, (if ltb timeout alt then alt else timeout))

unfoldable pub update_timeout_for_interface :
    ℕ → UsbDevice → List EndpointDesc → LinkState → ℕ → ℤ × ℕ
update_timeout_for_interface quirks d [] state timeout = (pos 0, timeout)
update_timeout_for_interface quirks d (e ∷ es) state timeout =
    let r = update_timeout_for_endpoint quirks d e state timeout in
    let rest = update_timeout_for_interface quirks d es state r.1 in
    if eqb_ℤ r.0 (pos 0) then rest else (e2big, r.1)

-- The loop on `parent->parent`.
unfoldable pub count_hubs : Parent → ℕ
count_hubs root_hub = 0
count_hubs (below p) = suc (count_hubs p)

unfoldable pub check_intel_tier_policy : UsbDevice → LinkState → ℤ
check_intel_tier_policy d u2 = pos 0
check_intel_tier_policy d u0 = if ltb (count_hubs d.parent) 2 then pos 0 else e2big
check_intel_tier_policy d u1 = if ltb (count_hubs d.parent) 2 then pos 0 else e2big
check_intel_tier_policy d u3 = if ltb (count_hubs d.parent) 2 then pos 0 else e2big

unfoldable pub check_tier_policy : ℕ → UsbDevice → LinkState → ℤ
check_tier_policy quirks d state =
    if has xhci_intel_host quirks then check_intel_tier_policy d state else pos 0

abbrev pub wants_disabled : UsbInterface → Bool
wants_disabled i = elim i.driver [ none ↦ false | some disable ↦ disable ]

abbrev pub endpoints : UsbInterface → List EndpointDesc
endpoints i = elim i.cur_altsetting [ none ↦ [] | some es ↦ es ]

-- The loop over the interfaces of the configuration.
unfoldable pub visit_interfaces : ℕ → UsbDevice → List (Option UsbInterface) → LinkState → ℕ → ℕ
visit_interfaces quirks d [] state timeout = timeout
visit_interfaces quirks d (none ∷ is) state timeout = visit_interfaces quirks d is state timeout
visit_interfaces quirks d (some i ∷ is) state timeout =
    let r = update_timeout_for_interface quirks d (endpoints i) state timeout in
    let rest = visit_interfaces quirks d is state r.1 in
    if wants_disabled i
    then get_timeout_no_hub_lpm d state
    else if eqb_ℤ r.0 (pos 0)
    then rest
    else r.1

-- Without an active configuration the function returns before the loop.
abbrev pub interfaces : UsbDevice → List (Option UsbInterface)
interfaces d = elim d.actconfig [ none ↦ [] | some is ↦ is ]

-- The body, for the two states that have a name.
unfoldable pub find_timeout : ℕ → UsbDevice → LinkState → ℕ
find_timeout quirks d state =
    let r = update_timeout_for_endpoint quirks d d.ep0 state usb3_lpm_disabled in
    if is_neg (check_tier_policy quirks d state)
    then usb3_lpm_disabled
    else if eqb_ℤ r.0 (pos 0)
    then visit_interfaces quirks d (interfaces d) state r.1
    else r.1

unfoldable pub calculate_lpm_timeout : ℕ → UsbDevice → LinkState → ℕ
calculate_lpm_timeout quirks d u1 = find_timeout quirks d u1
calculate_lpm_timeout quirks d u2 = find_timeout quirks d u2
calculate_lpm_timeout quirks d u0 = usb3_lpm_disabled
calculate_lpm_timeout quirks d u3 = usb3_lpm_disabled

abbrev pub is_u1 : LinkState → Bool
is_u1 state = elim state [ u0 ↦ false | u1 ↦ true | u2 ↦ false | u3 ↦ false ]

abbrev pub is_u2 : LinkState → Bool
is_u2 state = elim state [ u0 ↦ false | u1 ↦ false | u2 ↦ true | u3 ↦ false ]

-- The maximum exit latency of a state, in microseconds, if the state is or will be enabled.
abbrev pub mel_us : LpmParams → Bool → ℕ → ℕ
mel_us p changed encoded =
    let disabling = changed && encoded == usb3_lpm_disabled in
    let enabling = changed && not (encoded == usb3_lpm_disabled) in
    if (not (p.timeout == usb3_lpm_disabled) && not disabling) || enabling
    then div_round_up p.mel 1000
    else 0

unfoldable pub calculate_max_exit_latency : UsbDevice → LinkState → ℕ → ℤ
calculate_max_exit_latency d changed encoded =
    let a = mel_us d.u1_params (is_u1 changed) encoded in
    let b = mel_us d.u2_params (is_u2 changed) encoded in
    let most = if ltb b a then a else b in if ltb 65535 most then e2big else pos most
