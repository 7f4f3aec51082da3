-- ===== src/Tests/Rings.antt =====
-- The theorems on transfer rings, applied to small rings.
use fl.Ring.Command.{Commands}
use fl.Ring.Control.{CtrlUrb}
use fl.Ring.Transfer.{Transfers, queue_bulk_tx_lem}
use fl.Ring.Split.{IsSplit}
use fl.Ring.Bulk.{BulkUrb, bulk_num_trbs, queue_bulk_tx, count_chunks}
use fl.Ring.NewRing.{IsNew, NewRing, ring_alloc-NewRing}
use fl.Ring.Granted.{alloc_segments_leak, Grants, ring_alloc_lem}
use fl.Ring.Accounts.{Dequeues, Queues, queue_trb_lem, inc_deq_lem}
use fl.Kernel.{dma_pool_alloc, kzalloc}
use fl.Cache.{block_address, new_urb_priv}
use fl.Tests.{working, board}
use fl.Xhci.{Xhci}
use fl.Ring.{Trb, Ring, Quirks, Segment, type_bulk, type_command}
use fl.Ring.Move.{queue_trb, inc_deq}
use fl.Ring.Build.{alloc_segments, ring_alloc, new_ring}
use fl.Base.{
  ℕ, List, false, ◌*◌, replicate, [], refl, ◌+◌, ◌≡◌, none, true, some, ◌∷◌, arith, ◌-◌, length,
}

abbrev no_quirks : Quirks
no_quirks = record { link_trb_quirk = false; amd_0x96_host = false }

grants : Grants working
grants = (λ calls. refl, λ calls. (0x8000, refl))

new_ring_example :
    (r : Ring) × ((ring_alloc working no_quirks type_command 1 2 board).1 ≡ some r)
    × IsNew type_command 2 r
new_ring_example =
    ring_alloc_lem working no_quirks type_command 1 2 board grants refl refl (omega arith)
      (omega arith) refl

bulk_ring_example : NewRing type_bulk 2 (ring_alloc working no_quirks type_bulk 1 2 board).1
bulk_ring_example =
    ring_alloc-NewRing working no_quirks type_bulk 1 2 board refl (omega arith) (omega arith)

-- All cache blocks are in use.
abbrev no_blocks : Xhci
no_blocks = record board { cache_list_free = [] }

leak_example :
    ((alloc_segments working no_quirks type_bulk 1 2 no_blocks).1 ≡ none)
    × ((alloc_segments working no_quirks type_bulk 1 2 no_blocks).0.device.history
        ≡ dma_pool_alloc ∷ kzalloc ∷ no_blocks.device.history)
leak_example = alloc_segments_leak working no_quirks type_bulk 1 2 no_blocks grants refl refl refl

-- A new command ring of two segments.
abbrev made :
    (r : Ring) × ((ring_alloc working no_quirks type_command 1 2 board).1 ≡ some r)
    × IsNew type_command 2 r
made =
    ring_alloc_lem working no_quirks type_command 1 2 board grants refl refl (omega arith)
      (omega arith) refl

-- A command, with its cycle bit.
abbrev no_op : Trb
no_op = record { field0 = 0; field1 = 0; field2 = 0; field3 = 1024 * 23 + 1 }

queue_example :
    (r' : Ring) × (queue_trb no_quirks false no_op made.0 ≡ some r') × Queues false no_op made.0 r'
queue_example =
    queue_trb_lem no_quirks false no_op made.0 made.2.valid (omega (arith, made.2.enq_start.1))
      (omega (arith, made.2.all_free)) refl

abbrev queued :
    (r' : Ring) × (queue_trb no_quirks false no_op made.0 ≡ some r') × Queues false no_op made.0 r'
queued =
    queue_trb_lem no_quirks false no_op made.0 made.2.valid (omega (arith, made.2.enq_start.1))
      (omega (arith, made.2.all_free)) refl

dequeue_example : (r' : Ring) × (inc_deq queued.0 ≡ some r') × Dequeues queued.0 r'
dequeue_example =
    inc_deq_lem queued.0 queued.2.valid (omega (arith, queued.2.same_deq.1, made.2.deq_start.1))
      (omega (arith, queued.2.one_less, made.2.all_free, queued.2.same_length, made.2.segments))

abbrev segment : ℕ → Segment
segment b = record { trbs = replicate 64 no_op; dma = block_address b; ehub_cache_block = some b }

-- Four TRBs wait to be copied: the last two of the second segment, and the first two of the first.
abbrev waiting : Ring
waiting = record (new_ring type_bulk) {
  segs = segment 5 ∷ segment 6 ∷ [];
  cache_enq_seg = 1;
  cache_enqueue = 62;
  enqueue = 2;
}

-- 200,000 bytes, which begin 4 KB before a 64 KB boundary.
abbrev bulk_out : BulkUrb
bulk_out = record {
  transfer_buffer = 65536 * 16 - 4096;
  transfer_buffer_length = 200000;
  max_packet = 1024;
  dir_in = false;
  hcpriv = new_urb_priv;
  hci_version = 0x100;
}

bulk_trbs : bulk_num_trbs bulk_out.transfer_buffer 200000 ≡ 4
unfolding bulk_num_trbs count_chunks
bulk_trbs = refl

bulk_example :
    (parts : List ℕ) × IsSplit bulk_out.transfer_buffer 200000 parts
    × (length parts ≡ bulk_num_trbs bulk_out.transfer_buffer 200000)
    × Transfers no_quirks bulk_out made.0.cycle_state true 0 bulk_out.transfer_buffer
        (length parts)
        parts
        made.0
        (queue_bulk_tx no_quirks bulk_out made.0)
bulk_example =
    queue_bulk_tx_lem no_quirks bulk_out made.0 refl (ground arith) (ground arith) (ground arith)
      made.2.valid (omega (arith, made.2.enq_start.1)) (omega (arith, made.2.all_free, bulk_trbs))

-- A request for a device's descriptor of 18 bytes.
abbrev get_descriptor : CtrlUrb
get_descriptor = record {
  b_request_type = 128;
  b_request = 6;
  w_value = 256;
  w_index = 0;
  w_length = 18;
  transfer_buffer = 0x10000;
  transfer_buffer_length = 18;
  dir_in = true;
  hci_version = 0x100;
}

-- A controller whose command ring is new and has one TRB reserved.
abbrev commands : Commands
commands = record {
  dying = false;
  cmd_ring_reserved_trbs = 1;
  cmd_ring = made.0;
  cmd_list = [];
  current_cmd = none;
  timer_pending = false;
}

-- An enable slot command.
abbrev enable_slot : Trb
enable_slot = record { field0 = 0; field1 = 0; field2 = 0; field3 = 1024 * 9 }
