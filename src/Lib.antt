-- ===== src/Lib.antt =====
-- FL6000: the driver of a USB device with an embedded xHCI host controller. The driver talks to the
-- controller over USB only: every register access, every cache write and every message is a URB.
--
-- The parts, and the files that model them:
-- * src/ehub_device_context.h and .c, the state of the device and its error check: Device. The
--   record `Device` is DEVICE_CONTEXT. URB contexts live in a store by number, in which `none` is
--   memory that is free, and lists of contexts are lists of numbers. Locks of one function are not
--   modelled, but the lock over the cache lists is a field.
-- * src/ehub_urb.c, the life of a URB context and the completion routines: Urb, and for incoming
--   messages WorkItem, with src/ehub_work_item.c.
-- * src/ehub_notification.c, waiting: Notification. What other threads do to the device before
--   the waiter wakes is an argument, any function on devices.
-- * src/ehub_embedded_register.c and ehub_xhci_doorbell_expand of src/ehub_module.c, the register
--   accesses: Register.
-- * src/ehub_embedded_cache.c, one write to the cache memory of the controller: CacheWrite.
-- * src/xhci-ehub.c, the queue of cache writes: Xhci; the blocks of cache memory: Cache. `Xhci` holds
--   the fields of struct xhci_hcd (src/xhci.h) that this code keeps.
-- * The rings of src/xhci-ring.c and src/xhci-mem.c with their types from src/xhci.h, and
--   ehub_xhci_cache_copy_from_ring of src/xhci-ehub.c: Ring. A pointer to a segment is its place in the
--   list of the ring's segments, and a pointer to a TRB its index in the segment; so the `next` of a
--   segment is the place after, and the first place after the last. Ring.Move has the pointers, Ring.Build
--   the making of a ring, Ring.Expand its expansion and preparation, Ring.Bulk, Ring.Control and
--   Ring.Command what queues TRBs, and Ring.Copy the copy to the cache.
-- * src/ehub_message.c, parsing and handling of messages: Message; the loops of URBs that wait for
--   messages, with their start and stop: Loop.
-- * src/xhci-hub.c, the two root hubs: Hub, with the registers of a port and what is written to them;
--   Hub.Slot stops and rings a device, Hub.Status translates the status of a port, Hub.Descriptor
--   has the descriptors, Hub.Control the requests, Hub.Poll the status bitmap, and Hub.Power the suspension
--   and resume of the bus. The record `Hub` is what changes, with a log of accesses, `Hcd` what stays,
--   and `Host` the answers of the kernel. The commands and doorbells of a device are entries of the log.
-- * Of src/xhci.c, the endpoints of a device: Core. Core.Endpoint has their indices and flags,
--   Core.Bandwidth the tables of periodic endpoints, Core.Schedule the estimate of their bandwidth,
--   Core.Reserve its reservation, with ehub_xhci_update_bw_info of src/xhci-mem.c, and Core.Configure
--   xhci_configure_endpoint. An endpoint is a number; the answers of the controller are arguments.
--   Core.Lpm has the timeouts of link power management, with Linux's constants as its headers have
--   them, and Core.Latency the command that sets the exit latency.
-- * The connection and disconnection of src/ehub_module.c, with ehub_xhci_add and ehub_xhci_remove of
--   src/xhci-ehub.c and the making of a device context of src/ehub_device_context.c: Module. What the
--   USB core answers, and what it calls meanwhile, is the record `Usb`.
-- * src/ehub_usb.c, and suspend and resume of src/ehub_module.c: Interface.
-- * src/ehub_register.c, registers behind I2C: RegisterBit.
-- How they interact: the handlers of Message write the register data for which Register waits, and
-- answer reads of memory with Urb; Ring takes blocks from Cache; Cache and Ring ask Xhci for a
-- write, which CacheWrite sends with Urb; Hub reads and writes its ports through Register; the completion routines of Urb and Xhci give contexts
-- back to the lists from which Register and Xhci take them.
--
-- The Linux kernel is a parameter, the record `Kernel` of Kernel: each answer is a function of all
-- calls so far, so that any call may fail at any time. Calls are recorded in `history`, with the
-- bytes that are sent. What C leaves undefined (NULL and freed pointers, accesses out of bounds) and
-- a lock taken twice are recorded in `faults`, and the function goes on as its comment says.
-- Integers are natural numbers with their wrap-around written out; an `int` status is an integer.
-- Loops on fuel: that of MESSAGE_Parsing, with the length of the buffer and one more as fuel, since
-- each round advances by twelve bytes or more; and those that follow a ring (inc_deq, inc_enq, the copy
-- to the cache), with the number of segments and one more. On a ring as it is made the first two take
-- two rounds at most, and the copy one for each segment and one more. The loop that makes room
-- has three rounds, since two expansions are enough; and the loop over the parts of a bulk transfer has
-- one for each byte and one more.
--
-- Partial definitions: queue_bulk_tx is `none` for transfers that are not in range (a packet size of 0,
-- or a length for which an `int` overflows), and the copy to the cache is `none` for a segment
-- without a cache block. Where an expansion of a ring fails at a cache write, the driver has linked
-- the new segments in part, which a list of segments cannot express: Ring.Expand then keeps the old
-- ring and marks it as not linked.
--
-- Not modelled: the rest of src/xhci.c, which is the Linux xHCI driver adapted, and of
-- src/xhci-ring.c and src/xhci-mem.c the contexts of devices and endpoints, the lists of TDs, the
-- handling of events, cancellation, isochronous and scatter-list transfers, and the address map of
-- stream rings; src/xhci-dbg.c and the tracing files, which only print; of src/xhci-ehub.c the
-- set-up of the host controller that the USB core asks for (ehub_xhci_setup), and
-- ehub_delayed_cache_write, which is not built.
pub mod Base
pub mod Kernel
pub mod Device
pub mod Urb
pub mod Notification
pub mod Register
pub mod RegisterBit
pub mod CacheWrite
pub mod Xhci
pub mod Core
pub mod Hub
pub mod Cache
pub mod Message
pub mod Loop
pub mod Module
pub mod Interface
pub mod WorkItem
pub mod Ring
pub mod Tests
