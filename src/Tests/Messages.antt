-- ===== src/Tests/Messages.antt =====
-- The theorems on messages and their queue, applied to a small device.
use fl.Tests.{device, context, working}
use fl.WorkItem.{process_message_handle, completion_get_message}
use fl.WorkItem.Queue.{Received, IsCounted, completion_get_message_lem, process_message_handle_lem}
use fl.Message.Frames.{encode_all, handle_all, message_parsing_frames}
use fl.Message.Parsing.{Message, IsMessage, message_parsing_total}
use fl.Message.{message_parsing, get_type}
use fl.Base.Int.{pos, is_neg}
use fl.Device.{Device, bulk_in, error_check, get_message, xhci_is_dying_safe, WorkItem}
use fl.Base.{◌∷◌, [], some, arith, refl, false, replicate, ◌+◌, ◌≡◌, ◌*◌, inl}

parsing_total_example :
    (d' : Device) × (message_parsing working (2 ∷ 0 ∷ 0 ∷ 1 ∷ []) 400 device ≡ some d')
parsing_total_example = message_parsing_total working (2 ∷ 0 ∷ 0 ∷ 1 ∷ []) 400 device

-- A write of four bytes, with request id 1, to an address of the kernel.
abbrev message : Message
message = record {
  word = 2 + 4 * 256 + 16777216;
  low = 0x200000;
  high = 0;
  body = 1 ∷ 2 ∷ 3 ∷ 4 ∷ [];
}

message-IsMessage : IsMessage message
unfolding get_type
message-IsMessage = record {
  word_fits = ground arith;
  low_fits = ground arith;
  high_fits = ground arith;
  is_message = refl;
  fills = refl;
  enough = ground arith;
}

frames_example :
    message_parsing working (encode_all (message ∷ message ∷ []) []) 32 device
    ≡ some (handle_all working (message ∷ message ∷ []) device)
frames_example =
    message_parsing_frames working (message ∷ message ∷ []) [] device
      (message-IsMessage, (message-IsMessage, tt)) (inl (refl, λ q. cc))

device-usable : is_neg (error_check device) ≡ false
unfolding error_check xhci_is_dying_safe
device-usable = refl

message_example :
    Received 1
      (context bulk_in get_message 8192)
      (replicate 100 9)
      12
      device
      (completion_get_message working 1 (pos 0) 12 (replicate 100 9) [] device)
message_example =
    completion_get_message_lem working 1 12 (replicate 100 9) (context bulk_in get_message 8192)
      device (λ calls. refl) refl refl device-usable (ground arith) (ground arith)

abbrev item : WorkItem
item = record { data_buffer = replicate 16 0; data_buffer_length = 16 }

abbrev busy : Device
busy = record device {
  work_item_processing_queue = item ∷ item ∷ [];
  number_of_work_item_in_processing_queue = 2;
}

processed_example :
    (d' : Device) × (process_message_handle working busy ≡ some d')
    × (d'.work_item_processing_queue ≡ item ∷ [])
    × IsCounted d'
processed_example = process_message_handle_lem working item (item ∷ []) busy refl refl
