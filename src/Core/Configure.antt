-- ===== src/Core/Configure.antt =====
-- `xhci_configure_endpoint` (xhci.c), with the host resources that it reserves.
use fl.Base.{
  ℕ, zero, suc, ◌/◌, Bool, true, false, not, ◌||◌, Option, none, some, if◌then◌else◌, ◌==◌, ltb,
  ◌&&◌,
}
use Prim.Native.Nat.{bit_and}
use fl.Base.Int.{ℤ, pos, negsuc, is_neg, einval, enodev, enomem, etime, enospc}
use fl.Core.{add32, sub32, hweight32, ControlCtx}
use fl.Core.Bandwidth.{Table, BwDevice}
use fl.Core.Reserve.{EpCtx, reserve_bandwidth}

-- The fields of `struct xhci_hcd` that a configuration changes, and the two quirks that it asks for.
pub record Resources : Type 0 where
  pub ep_limit_quirk : Bool
  pub sw_bw_checking : Bool
  pub num_active_eps : ℕ
  pub limit_active_eps : ℕ
  pub table : Table
  pub isoch_in_running : Bool
  pub num_active_isoc_eps : ℕ
  -- `MESSAGE_queue_StopLoopIsoch` was called
  pub stop_isoch_queued : Bool

-- `xhci_count_num_new_endpoints` and `xhci_count_num_dropped_endpoints`: without the slot and the
-- default control endpoint.
unfoldable pub count_num_new_endpoints : ControlCtx → ℕ
count_num_new_endpoints c =
    sub32 (hweight32 (c.add_flags / 4)) (hweight32 (bit_and (c.add_flags / 4) (c.drop_flags / 4)))

unfoldable pub count_num_dropped_endpoints : ControlCtx → ℕ
count_num_dropped_endpoints c =
    sub32 (hweight32 (c.drop_flags / 4)) (hweight32 (bit_and (c.add_flags / 4) (c.drop_flags / 4)))

-- `xhci_reserve_host_resources`
unfoldable pub reserve_host_resources : ControlCtx → Resources → Resources × ℤ
reserve_host_resources c x =
    let added_eps = count_num_new_endpoints c in
    if ltb x.limit_active_eps (add32 x.num_active_eps added_eps)
    then (x, enomem)
    else (record x { num_active_eps = add32 x.num_active_eps added_eps }, pos 0)

-- `xhci_free_host_resources`
unfoldable pub free_host_resources : ControlCtx → Resources → Resources
free_host_resources c x = record x {
  num_active_eps = sub32 x.num_active_eps (count_num_new_endpoints c);
}

-- `xhci_finish_resource_reservation`
unfoldable pub finish_resource_reservation : ControlCtx → Resources → Resources
finish_resource_reservation c x = record x {
  num_active_eps = sub32 x.num_active_eps (count_num_dropped_endpoints c);
}

-- `xhci_configure_endpoint_result`: the status for a completion code.
unfoldable pub configure_endpoint_result : ℕ → ℤ
configure_endpoint_result code =
    if (code == 25) || (code == 24)
    then etime
    else if code == 7
    then enomem
    else if (code == 8) || (code == 35)
    then enospc
    else if code == 5
    then einval
    else if code == 22
    then enodev
    else if code == 1
    then pos 0
    else einval

-- `xhci_evaluate_context_result`
unfoldable pub evaluate_context_result : ℕ → ℤ
evaluate_context_result code =
    if (code == 25) || (code == 24)
    then etime
    else if (code == 17) || (code == 11) || (code == 19)
    then einval
    else if code == 22
    then enodev
    else if code == 29
    then einval
    else if code == 1
    then pos 0
    else einval

-- The command of a configuration: its flags, if its input context has the right type, and whether a
-- context is evaluated instead.
pub record Command : Type 0 where
  pub ctrl_ctx : Option ControlCtx
  pub ctx_change : Bool

-- What is answered: the status of the command's queueing, its completion code, and what other
-- threads do while it runs.
pub record Answers : Type 0 where
  pub queued : ℤ
  pub code : ℕ
  pub meanwhile : Resources → Resources

-- The resources are given back, where they are counted.
abbrev pub if_counted : (Resources → Resources) → Resources → Resources
if_counted f x = if x.ep_limit_quirk then f x else x

-- The reservations, under the lock. The result says whether both were made; if not, none is left.
unfoldable pub reserve : BwDevice → (ℕ → EpCtx) → ControlCtx → Resources → Resources × Bool
reserve v in_ctx c x =
    let (x₁, status) = if x.ep_limit_quirk then reserve_host_resources c x else (x, pos 0) in
    let (t, fits) = reserve_bandwidth v in_ctx c x₁.table in
    let x₂ = record x₁ { table = t } in
    if is_neg status
    then (x₁, false)
    else if not x.sw_bw_checking
    then (x₁, true)
    else if is_neg fits
    then (if_counted (free_host_resources c) x₂, false)
    else (x₂, true)

-- The end, once the command is done.
unfoldable pub settle : ControlCtx → ℤ → Resources → Resources
settle c status x = elim status [
  | pos zero ↦ if_counted (finish_resource_reservation c) x
  | pos (suc _) ↦ if_counted (free_host_resources c) x
  | negsuc _ ↦ if_counted (free_host_resources c) x
]

-- The stop of the isochronous loop is queued once no endpoint needs it.
unfoldable pub stop_idle_isoch : Resources → Resources
stop_idle_isoch x =
    if x.isoch_in_running && (x.num_active_isoc_eps == 0)
    then record x { stop_isoch_queued = true }
    else x

-- The command is queued, waited for, and its result kept.
unfoldable pub run_command : Answers → Bool → ControlCtx → Resources → Resources × ℤ
run_command a ctx_change c x =
    let status =
      if ctx_change then evaluate_context_result a.code else configure_endpoint_result a.code in
    if is_neg a.queued
    then (if_counted (free_host_resources c) x, enomem)
    else (settle c status (stop_idle_isoch (a.meanwhile x)), status)

-- `xhci_configure_endpoint`
unfoldable pub configure_endpoint :
    Answers → BwDevice → (ℕ → EpCtx) → Option Command → Resources → Resources × ℤ
configure_endpoint a v in_ctx none x = (x, einval)
configure_endpoint a v in_ctx (some command) x = elim command.ctrl_ctx [
  | none ↦ (x, enomem)
  | some c ↦
      let (x₁, reserved) = reserve v in_ctx c x in
      if reserved then run_command a command.ctx_change c x₁ else (x₁, enomem)
]
