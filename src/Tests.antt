-- ===== src/Tests.antt =====
-- A small device that is in use, kernels, and a host controller with three cache blocks: what the
-- theorems are applied to in the modules below.
mod Hubs
mod Modules
mod Endpoints
mod Timeouts
mod Rings
mod Blocks
mod Messages
mod Registers
mod Contexts
use fl.Loop.Start.{start_loop_bulk_dangling}
use fl.RegisterBit.Change.{
  change_calls, set_bit_after_failed_read, register_clear_bit_lem, register_set_bit_lem,
}
use fl.WorkItem.{process_message_handle, completion_get_message}
use fl.WorkItem.Queue.{Received, IsCounted, completion_get_message_lem, process_message_handle_lem}
use fl.RegisterBit.{register_clear_bit, register_set_bit, without_bit, with_bit}
use fl.Base.Bytes.{overwrite}
use fl.Message.Frames.{encode_all, handle_all, message_parsing_frames}
use fl.Loop.{stop_loop_bulk, stop_loop_interrupt, start_loop_bulk}
use fl.Register.{
  write_doorbell, embedded_register_write, embedded_register_read, doorbell_first, doorbell_send,
  doorbell_claim, write_request, write_buffer,
}
use fl.Urb.Create.{Outcome, urb_create_lem, urb_create_use_after_free}
use fl.Register.Doorbell.{Rung, doorbell_round_trip, write_doorbell_lem}
use fl.Message.Parsing.{Message, IsMessage, message_parsing_total}
use fl.Loop.Stop.{Stopped, stop_loop_bulk_lem, stop_loop_interrupt_lem}
use fl.Message.{message_parsing, get_type}
use fl.Cache.Address.{data_buffer_addr_aligned, data_buffer_addr_unaligned}
use fl.Device.Health.{error_check_lem}
use fl.Cache.Create.{cache_create_lem}
use fl.Base.Chain.{remove}
use fl.Cache.UrbFree.{free_by_urb_lem}
use fl.Xhci.Frame.{IsUnlocked, SameBlocks}
use fl.Cache.UrbData.{AllOrNothing, block_allocate_urb_lem, block_allocate_urb_keeps_lock}
use fl.Cache.Segment.{SegmentPost, block_allocate_segment_lem}
use fl.Base.Int.{pos, enomem, enodev, is_neg, negsuc}
use fl.Urb.{new_urb, completion_doorbell, urb_create, urb_submit, urb_create_isoch}
use fl.Device.{
  Device, Pipe, UrbContext, Routine, bound, status_free, no_errors, bulk_in, error_check,
  get_message, bulk_out, simple, interrupt_out, doorbell, deadlock, cache_write, isoch_in,
  interrupt_in, freed_pointer, xhci_is_dying_safe, WorkItem,
}
use fl.Kernel.{Kernel, Call, usb_alloc_coherent}
use fl.Xhci.{Xhci, new_work, spin_lock}
use fl.Cache.UrbBlocks.{Holds}
use fl.Cache.{
  UrbPriv, block_allocate_urb, block_allocate, free_by_urb, data_buffer_addr, block_free,
  cache_create, number_of_blocks, block_allocate_segment, blocks_needed, new_urb_priv,
  block_address, cache_block_size,
}
use fl.Base.{
  ℕ, Option, List, ◌∷◌, [], some, true, arith, Bool, none, refl, false, if◌then◌else◌, replicate,
  ◌==◌, get_elem?, ◌+◌, ◌≡◌, ◌≢◌, ◌⊎◌, ◌%◌, ◌*◌, inl, ◌^◌,
}

abbrev pub working : Kernel
working = record {
  allocates = λ calls. true;
  submits = λ calls. pos 0;
  waits = λ calls. pos 5;
  reads = λ calls. some (1 ∷ 2 ∷ 3 ∷ 4 ∷ []);
  writes = λ calls. pos 0;
  controls = λ calls. (pos 4, 0);
  pools = λ calls. some 0x8000;
  interfaces = λ calls. pos 0;
}

-- The kernel has memory for contexts, and none for buffers.
abbrev has_memory : List Call → Bool
has_memory (usb_alloc_coherent _ ∷ _) = false
has_memory _ = true

abbrev pub no_buffers : Kernel
no_buffers = record working { allocates = has_memory }

abbrev pub context : Pipe → Routine → ℕ → UrbContext
context pipe routine len = record (new_urb pipe routine 0 len) { status = status_free }

-- The contexts: 1 and 2 for messages, 3 and 4 for register accesses, 5 and 6 for doorbells, 7 for
-- a cache write.
abbrev stored : List (Option UrbContext)
stored =
    none
    ∷ some (context bulk_in get_message 8192)
    ∷ some (context bulk_in get_message 8192)
    ∷ some (context bulk_out simple 8)
    ∷ some (context bulk_out simple 8)
    ∷ some (context interrupt_out doorbell 8)
    ∷ some (context interrupt_out doorbell 8)
    ∷ some (context interrupt_out (cache_write 0) 3080)
    ∷ []

abbrev contexts : ℕ → Option UrbContext
contexts n = elim (get_elem? stored n) [ none ↦ none | some u ↦ u ]

abbrev pub device : Device
device = record {
  interface_backup = some bound;
  xhci_hcd = some (record { dying = false; isoch_in_running = false; num_active_isoc_eps = 0 });
  is_usb_hcd_invalid = false;
  not_attached = false;
  error_flags = no_errors;
  is_ehub_xhci_init_ready = true;
  doorbell_list_free = 5 ∷ 6 ∷ [];
  doorbell_list_busy = [];
  work_item_processing_queue = [];
  number_of_work_item_in_processing_queue = 0;
  data_embedded_register_read = 0;
  last_uframe_cnt = 0;
  urb_context_embedded_register_read = some 3;
  urb_context_embedded_register_write = some 4;
  urb_context_embedded_memory_read_completion = replicate 8 none;
  current_embedded_memory_read_completion_index = 0;
  urb_context_message_bulk = some 1 ∷ some 2 ∷ replicate 6 none;
  urb_context_message_interrupt = replicate 8 none;
  urb_context_message_isoch = replicate 6 none;
  stop_isoch_pending = false;
  urbs = contexts;
  next_urb = 10;
  history = [];
  faults = [];
}

abbrev pub board : Xhci
board = record {
  device = device;
  cache_list_free = 0 ∷ 1 ∷ [];
  cache_list_used = 2 ∷ [];
  number_of_caches_free = 2;
  number_of_caches_used = 1;
  block_urb = λ b. none;
  cache_list_lock = false;
  cache_queue_free = 0 ∷ [];
  cache_queue_used = [];
  works = λ w. if w == 0 then some (new_work 7) else none;
  next_work = 1;
}
