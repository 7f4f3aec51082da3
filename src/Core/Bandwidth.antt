-- ===== src/Core/Bandwidth.antt =====
-- The interval tables of periodic endpoints (xhci.c, and their types in xhci.h).
use fl.Base.{
  ℕ, ◌+◌, ◌-◌, ◌*◌, ◌^◌, Bool, true, false, not, ◌||◌, ◌&&◌, List, [], ◌∷◌, Option, none, some,
  if◌then◌else◌, ◌==◌, leb, ltb,
}
use fl.Base.Chain.{remove}
use fl.Core.{u32, add32, sub32, div_round_up}

-- `enum usb_device_speed`, with unknown and wireless in one.
pub data Speed : Type 0 where
  low full high super other : Speed

-- `struct xhci_bw_info`
pub record BwInfo : Type 0 where
  pub ep_interval : ℕ
  pub mult : ℕ
  pub num_packets : ℕ
  pub max_packet_size : ℕ
  pub max_esit_payload : ℕ
  pub type : ℕ

-- `struct xhci_interval_bw`. Endpoints are numbers, in the order of the list.
pub record IntervalBw : Type 0 where
  pub num_packets : ℕ
  pub endpoints : List ℕ
  pub ls_overhead : ℕ
  pub fs_overhead : ℕ
  pub hs_overhead : ℕ

-- `struct xhci_interval_bw_table`, with what the code reads and writes beside it: the information on
-- each endpoint, whether its list node is in a list, `active_eps` of the TT, and of the root port
-- `num_active_tts` and the bandwidth that its own table has in use.
pub record Table : Type 0 where
  pub interval0_esit_payload : ℕ
  pub interval_bw : ℕ → IntervalBw
  pub bw_used : ℕ
  pub ss_bw_in : ℕ
  pub ss_bw_out : ℕ
  pub bw_info : ℕ → BwInfo
  pub listed : ℕ → Bool
  pub active_eps : ℕ
  pub num_active_tts : ℕ
  pub root_bw_used : ℕ
  -- an index outside of `interval_bw`
  pub out_of_table : Bool

-- The device whose endpoints are handled: its endpoint with index `i` has number `31 * slot + i`.
pub record BwDevice : Type 0 where
  pub speed : Speed
  pub slot : ℕ
  pub has_tt : Bool

abbrev pub ep_number : BwDevice → ℕ → ℕ
ep_number v i = 31 * v.slot + i

abbrev pub is_super : Speed → Bool
is_super super = true
is_super _ = false

abbrev pub is_high : Speed → Bool
is_high high = true
is_high _ = false

abbrev pub is_other : Speed → Bool
is_other other = true
is_other _ = false

-- `xhci_is_async_ep` and `xhci_is_sync_in_ep`
unfoldable pub is_async_ep : ℕ → Bool
is_async_ep type = not (type == 1) && not (type == 3) && not (type == 5) && not (type == 7)

unfoldable pub is_sync_in_ep : ℕ → Bool
is_sync_in_ep type = (type == 5) || (type == 7)

-- `xhci_get_ss_bw_consumed`
unfoldable pub get_ss_bw_consumed : BwInfo → ℕ
get_ss_bw_consumed b =
    let mps = div_round_up b.max_packet_size 16 in
    if b.ep_interval == 0
    then u32 (32 + b.mult * b.num_packets * (8 + mps))
    else div_round_up (u32 (b.mult * b.num_packets * (8 + mps + 32))) (2 ^ b.ep_interval)

-- `xhci_get_block_size` and `xhci_get_largest_overhead`
unfoldable pub get_block_size : Speed → ℕ
get_block_size low = 1
get_block_size full = 1
get_block_size high = 4
get_block_size super = 16
get_block_size other = 1

unfoldable pub get_largest_overhead : IntervalBw → ℕ
get_largest_overhead w =
    if not (w.ls_overhead == 0) then 128 else if not (w.fs_overhead == 0) then 20 else 26

-- `normalized_interval`, in microframes for high speed and in frames for others; `none` outside of
-- the table.
unfoldable pub normalized : Speed → ℕ → Option ℕ
normalized speed interval =
    if is_high speed
    then if ltb interval 16 then some interval else none
    else if leb 3 interval && ltb interval 19
    then some (interval - 3)
    else none

-- One interval of the table is changed.
abbrev pub change_interval : ℕ → (IntervalBw → IntervalBw) → Table → Table
change_interval n f t = record t {
  interval_bw = λ i. if i == n then f (t.interval_bw i) else t.interval_bw i;
}

-- `overhead[…] += 1` and `-= 1` for the speed.
abbrev pub count_overhead : Speed → (ℕ → ℕ) → IntervalBw → IntervalBw
count_overhead low f w = record w { ls_overhead = f w.ls_overhead }
count_overhead full f w = record w { fs_overhead = f w.fs_overhead }
count_overhead high f w = record w { hs_overhead = f w.hs_overhead }
count_overhead _ f w = w

-- A SuperSpeed endpoint: only a sum of its direction changes.
unfoldable pub change_super : (ℕ → ℕ) → BwInfo → Table → Table
change_super f b t =
    if is_sync_in_ep b.type
    then record t { ss_bw_in = f t.ss_bw_in }
    else record t { ss_bw_out = f t.ss_bw_out }

-- The counts of an interval, up or down: the payload of interval 0, the packets and the overhead.
unfoldable pub change_counts : (ℕ → ℕ → ℕ) → Speed → ℕ → BwInfo → Table → Table
change_counts f speed n b t =
    change_interval n
      (λ w.
        count_overhead speed (λ o. f o 1)
          (record w { num_packets = f w.num_packets b.num_packets }))
      (record t {
        interval0_esit_payload =
            if n == 0
            then f t.interval0_esit_payload b.max_esit_payload
            else t.interval0_esit_payload;
      })

-- `list_del_init`: the node leaves the list that it is in.
unfoldable pub unlist : ℕ → Table → Table
unlist ep t = record t {
  interval_bw = λ i. record (t.interval_bw i) { endpoints = remove ep (t.interval_bw i).endpoints };
  listed = λ e. if e == ep then false else t.listed e;
}

-- An endpoint goes before the first one whose packets are not larger.
unfoldable pub insert_by_size : (ℕ → BwInfo) → ℕ → List ℕ → List ℕ
insert_by_size info ep [] = ep ∷ []
insert_by_size info ep (other_ep ∷ rest) =
    if leb (info other_ep).max_packet_size (info ep).max_packet_size
    then ep ∷ other_ep ∷ rest
    else other_ep ∷ insert_by_size info ep rest

unfoldable pub enlist : ℕ → ℕ → Table → Table
enlist n ep t =
    change_interval n (λ w. record w { endpoints = insert_by_size t.bw_info ep w.endpoints })
      (record t { listed = λ e. if e == ep then true else t.listed e })

-- `tt_info->active_eps`, where the device is behind a TT.
abbrev pub change_active : (ℕ → ℕ) → BwDevice → Table → Table
change_active f v t = if v.has_tt then record t { active_eps = f t.active_eps } else t

-- `ehub_xhci_drop_ep_from_interval_table`
unfoldable pub drop_ep_from_interval_table : BwDevice → ℕ → Table → Table
drop_ep_from_interval_table v ep t =
    let b = t.bw_info ep in
    if is_async_ep b.type
    then t
    else if is_super v.speed
    then change_super (λ n. sub32 n (get_ss_bw_consumed b)) b t
    else if not (t.listed ep)
    then t
    else elim (normalized v.speed b.ep_interval) [
      | none ↦ record t { out_of_table = true }
      | some n ↦
          let t₁ = change_counts sub32 v.speed n b t in
          if is_other v.speed then t₁ else unlist ep (change_active (λ m. sub32 m 1) v t₁)
    ]

-- `xhci_add_ep_to_interval_table`
unfoldable pub add_ep_to_interval_table : BwDevice → ℕ → Table → Table
add_ep_to_interval_table v ep t =
    let b = t.bw_info ep in
    if is_async_ep b.type
    then t
    else if is_super v.speed
    then change_super (λ n. add32 n (get_ss_bw_consumed b)) b t
    else elim (normalized v.speed b.ep_interval) [
      | none ↦ record t { out_of_table = true }
      | some n ↦
          let t₁ = change_counts add32 v.speed n b t in
          if is_other v.speed then t₁ else enlist n ep (change_active (λ m. add32 m 1) v t₁)
    ]

-- `ehub_xhci_update_tt_active_eps`: a TT that becomes active, or is no more, counts for its root port.
unfoldable pub update_tt_active_eps : BwDevice → ℕ → Table → Table
update_tt_active_eps v old_active_eps t =
    if not v.has_tt
    then t
    else if (old_active_eps == 0) && not (t.active_eps == 0)
    then record t {
      num_active_tts = add32 t.num_active_tts 1;
      root_bw_used = add32 t.root_bw_used 125;
    }
    else if not (old_active_eps == 0) && (t.active_eps == 0)
    then record t {
      num_active_tts = sub32 t.num_active_tts 1;
      root_bw_used = sub32 t.root_bw_used 125;
    }
    else t
