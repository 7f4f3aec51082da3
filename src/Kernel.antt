-- ===== src/Kernel.antt =====
-- What the driver asks of the Linux kernel, and what the kernel answers. None of it is code of
-- this repository: the calls are recorded, and the answers are parameters of the model.
use fl.Base.{ℕ, Bool, List, Option}
use fl.Base.Int.{ℤ}

-- `struct completion` objects: one in each URB context, and one for the register read.
pub data Event : Type 0 where
  urb_event : ℕ → Event
  register_read_event : Event

-- A call of the kernel or of the adapted xHCI core, with the arguments that matter.
-- URB contexts and cache work contexts are named by their number.
pub data Call : Type 0 where
  kzalloc kfree usb_alloc_urb dma_pool_alloc dma_pool_free : Call
  usb_alloc_coherent usb_free_coherent : ℕ → Call
  usb_free_urb usb_kill_urb : ℕ → Call
  -- the URB context, its `transfer_buffer_length` and its buffer
  usb_submit_urb : ℕ → ℕ → List ℕ → Call
  init_completion complete wait_for_completion : Event → Call
  probe_kernel_read : ℕ → ℕ → Call
  probe_kernel_write : ℕ → List ℕ → Call
  xhci_handle_event : List ℕ → Call
  ring_ep_doorbell : ℕ → ℕ → ℕ → Call
  ring_cmd_doorbell queue_delayed_work : Call
  usb_control_msg : Bool → ℕ → ℕ → Call
  usb_set_interface : ℕ → ℕ → Call

-- An answer may depend on everything that was asked before, the present call included: so the
-- kernel may fail any call.
pub record Kernel : Type 0 where
  -- whether the allocation succeeds
  pub allocates : List Call → Bool
  -- the status of `usb_submit_urb`
  pub submits : List Call → ℤ
  -- the jiffies left that `wait_for_completion_interruptible_timeout` returns
  pub waits : List Call → ℤ
  -- the bytes that `probe_kernel_read` finds, `none` for a fault
  pub reads : List Call → Option (List ℕ)
  -- the status of `probe_kernel_write`
  pub writes : List Call → ℤ
  -- the status of `usb_control_msg`, with the four bytes that a read returns
  pub controls : List Call → ℤ × ℕ
  -- the address of the memory that `dma_pool_alloc` finds, if any
  pub pools : List Call → Option ℕ
  -- the status of `usb_set_interface`
  pub interfaces : List Call → ℤ
