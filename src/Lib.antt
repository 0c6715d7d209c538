-- ===== src/Lib.antt =====
-- The igb network driver: a model of its code, and what is proved of it.
--
-- The driver brings up an Intel 82576 card and moves packets between the rings of the card and pools
-- of buffers. Its parts, and the files that model them:
--
--   * src/lib.rs, the errors: Outcome.antt. A call of the driver is a function from the state it works
--     on to a value with the next state, an error with the state as it then is, a panic, or `hang`.
--   * src/memory.rs, the memory pool (`MemPool`) and its packets (`Packet`): Memory.antt, with the pools
--     behind their `Arc`s in Memory/Store.antt and the bytes of packets in Memory/Bytes.antt.
--     Memory/Allocator.antt is the interface of a pool, by which Memory/History.antt follows the clients of
--     one; Memory/Bag.antt has the bag of free entries that the stack of the pool is to them.
--   * src/descriptor.rs, the receive and transmit descriptors: Descriptor/Rx.antt, Descriptor/Tx.antt.
--   * src/constants.rs, the registers and flags that the driver uses: Registers.antt; the other
--     functions that give a register: Registers/Tables.antt, and Security.antt, Counters.antt,
--     Virtual.antt, Guest.antt, Led.antt, Krm.antt beside it; the delay values of flow control:
--     Registers/Delay.antt.
--   * src/igb.rs and src/interrupts.rs, the device: Device.antt has its state and the register access
--     (`get_reg32` up to `wait_set_reg32`), Ring.antt the ring indices (`wrap_ring`), Tx.antt sending and
--     recycling (`send`, `recycle_tx_buffers`; Tx/History.antt follows any sequence of them), Rx.antt
--     receiving (`receive_packets`), Link.antt the link and the address, Interrupts.antt the masks
--     (and Interrupts/Irq.antt the MSI set-up, with what it tells the card in Interrupts/Enabling.antt),
--     Setup.antt the rings (`init_rx`, `init_tx`), and Init.antt bringing the card up (`init`).
--
-- The card and the abstraction layer (`IgbHal`) are not part of the program: they are the record
-- `Platform`, a parameter. What a register or a descriptor reads may depend on every event so far, and
-- the driver's own writes are events of the trace. A theorem that needs the card to behave says how in
-- a hypothesis. `get_bits` of bit_field is a parameter too; `IsGetBits` is its documented behaviour.
--
-- Sending changes the ring and the list of buffers in use, recycling gives those buffers back to the
-- pool, and receiving swaps a buffer of a descriptor for a free one; the invariants of the queues
-- (Tx/Valid.antt, Rx/Valid.antt) and of the pool (Memory/Invariant.antt) are what the three share.
--
-- Numbers are natural numbers; Word.antt writes out where a `usize` or a `u32` wraps, as in a release
-- build, and the casts. A queue, its pool and the trace are passed on as state; the closure of
-- `receive_packets` is a function on the pools, which keeps or drops each packet that it is given
-- (Rx/Closure.antt); the packets are collected. Rx/Armed.antt is about the addresses that the descriptors
-- give to the card.
--
-- Loops that wait for the card run on fuel, and `hang` says that it is used up; the theorems on waiting
-- give the number of reads that is enough, whatever the fuel beyond that. The loop of
-- `recycle_tx_buffers` has enough fuel if 32 times the fuel exceeds the number of buffers in use. The
-- other loops are recursions on their bound.
--
-- doc/main has the draft of another driver for the card, which is not part of the crate: Draft.antt and
-- the files below it. Draft/Err.antt has its errors and the monad of its calls, Draft/Reg.antt the access
-- to registers, Draft/Flags the registers with their flags, Draft/Phy.antt, Draft/Semaphore.antt and
-- Draft/Synced.antt the PHY and what is shared with firmware, Draft/Ring.antt and Draft/Igb.antt the
-- rings and the device. The loop of `wait_for` is a recursion on its bound, the others run on fuel.
-- Draft/Agreement.antt compares it with the driver. Draft/Descriptor.antt has the descriptors of the draft,
-- and Draft/Bak.antt the older driver file doc/igb_bak.rs.
--
-- Driver.antt puts the parts together: the whole driver, with clients that hold buffers of its pool, as
-- a relation on states with a step for each call, failing ones included, and its invariant. Each of
-- Driver/Receiving.antt, Sending.antt, Recycling.antt and Holding.antt is about the calls of one part,
-- Driver/Reaching.antt about sequences of calls, Driver/Ending.antt about what follows `init`.
--
-- Nic.antt has the trait `NicDevice` of src/lib.rs as an interface, with what the methods do to one another
-- and to the buffers; Nic/Igb.antt, Receiving.antt, Sending.antt and Recycling.antt show it of the device of
-- src/igb.rs on the states that Driver.antt calls in order, and Nic/Promise.antt from `init` on. The comment
-- of the trait lets recycling free the buffers of all sent packets; the code frees them 32 at a time, and
-- the interface says no more than that.
--
-- Device/Triples.antt has the rules by which the calls that make up `init` are put together, and
-- Init/Running.antt the whole of it, from what Init/Contract.antt asks of the card: that it answers what
-- was written to it, and nothing of a card to which nothing was written. Tx/Refinement.antt
-- has the bounded queue that a send queue is, and Tx/Refusing.antt the packets that it refuses.
--
-- Not modelled: the prefetch hint; formatting; the constants of src/constants.rs that the driver does not
-- use, and its functions `*_BY_MAC`, which are marked as unsupported and all return 0. The functions behind
-- the feature `irq`, which the crate does not declare, use two registers that src/constants.rs only has in
-- comments; these are parameters.
pub mod Prelude
pub mod Word
pub mod Outcome
pub mod Descriptor
pub mod Memory
pub mod Ring
pub mod Registers
pub mod Device
pub mod Tx
pub mod Rx
pub mod Link
pub mod Interrupts
pub mod Setup
pub mod Init
pub mod Nic
pub mod Driver
pub mod Draft
mod Tests
