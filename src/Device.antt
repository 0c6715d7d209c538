-- ===== src/Device.antt =====
-- src/igb.rs: the device object, its queues, and its access to the registers of the network card
-- (`get_reg32` up to `wait_set_reg32`). The card is not part of the program. It is the parameter
-- `hw`: what a read finds may depend on everything that the driver and the card did before, which is
-- the trace, newest event first.
pub mod Access
pub mod Triples
pub mod Refusing
use igb_driver.Prelude.{
  ℕ, zero, suc, ◌+◌, ◌-◌, Bool, true, false, Option, none, some, List, [], ◌∷◌, leb, ◌==◌,
  if◌then◌else◌, bit_and, bit_or,
}
use igb_driver.Word.{sub_usize, not_u32}
use igb_driver.Outcome.{Outcome, Run, ok, err, panic, hang, pure, ◌>>=◌, ◌>>◌}
use igb_driver.Descriptor.Rx.{AdvancedRxDescriptor}
use igb_driver.Descriptor.Tx.{AdvancedTxDescriptor}
use igb_driver.Memory.{Dma}
use igb_driver.Memory.Store.{Store}

-- What the driver does to the card: register reads and writes, descriptor reads, requests for memory
-- and waiting times in milliseconds.
pub data Event : Type 0 where
  read : ℕ → Event
  wrote : ℕ → ℕ → Event
  read_rx : ℕ → ℕ → Event
  read_tx : ℕ → ℕ → Event
  asked_memory : ℕ → Event
  waited : ℕ → Event

-- The card, the `IgbHal` and the bit_field crate: the value of a register, what the card has made of
-- a descriptor when the driver reads it, and the answers of the abstraction layer.
pub record Platform : Type 0 where
  pub reg : List Event → ℕ → ℕ
  pub rx_desc : List Event → ℕ → ℕ → AdvancedRxDescriptor → AdvancedRxDescriptor
  pub tx_desc : List Event → ℕ → ℕ → AdvancedTxDescriptor → AdvancedTxDescriptor
  pub dma_alloc : List Event → ℕ → Dma
  pub virt_to_phys : ℕ → ℕ → ℕ
  pub get_bits : ℕ → ℕ → ℕ → ℕ

pub record InterruptsQueue : Type 0 where
  pub interrupt_enabled : Bool

-- `timeout_ms` is not used by the driver.
pub record Interrupts : Type 0 where
  pub interrupts_enabled : Bool
  pub itr_rate : ℕ
  pub interrupt_type : ℕ
  pub timeout_ms : ℕ
  pub queues : List InterruptsQueue

pub record IgbRxQueue : Type 0 where
  pub descriptors : List AdvancedRxDescriptor
  pub num_descriptors : ℕ
  pub pool : ℕ
  pub bufs_in_use : List ℕ
  pub rx_index : ℕ

-- The head of `bufs_in_use` is the front of the deque.
pub record IgbTxQueue : Type 0 where
  pub descriptors : List AdvancedTxDescriptor
  pub num_descriptors : ℕ
  pub pool : Option ℕ
  pub bufs_in_use : List ℕ
  pub clean_index : ℕ
  pub tx_index : ℕ

pub record IgbDevice : Type 0 where
  pub addr : ℕ
  pub len : ℕ
  pub num_rx_queues : ℕ
  pub num_tx_queues : ℕ
  pub rx_queues : List IgbRxQueue
  pub tx_queues : List IgbTxQueue
  pub interrupts : Interrupts

-- The device with the memory pools and the events so far.
pub record World : Type 0 where
  pub dev : IgbDevice
  pub store : Store
  pub trace : List Event

abbrev pub M {ℓ} : Type ℓ → Type ℓ
M A = Run World A

abbrev pub event : Event → World → World
event e w = record w { trace = e ∷ w.trace }

-- `H::wait_until`, in milliseconds; its result is not used.
unfoldable pub wait_until : ℕ → M (Unit {0})
wait_until ms w = ok tt (event (waited ms) w)

-- The assertion of `get_reg32` and `set_reg32`.
abbrev pub in_bounds : IgbDevice → ℕ → Bool
in_bounds dev reg = leb reg (sub_usize dev.len 4)

module _ (hw : Platform) where
  unfoldable pub get_reg32 : ℕ → M ℕ
  get_reg32 reg w =
      if in_bounds w.dev reg then ok (hw.reg w.trace reg) (event (read reg) w) else panic

  unfoldable pub set_reg32 : ℕ → ℕ → M (Unit {0})
  set_reg32 reg value w = if in_bounds w.dev reg then ok tt (event (wrote reg value) w) else panic

  unfoldable pub set_flags32 : ℕ → ℕ → M (Unit {0})
  unfolding get_reg32 set_reg32
  set_flags32 reg flags = do current ← get_reg32 reg; set_reg32 reg (bit_or current flags)

  unfoldable pub clear_flags32 : ℕ → ℕ → M (Unit {0})
  unfolding get_reg32 set_reg32
  clear_flags32 reg flags = do
    current ← get_reg32 reg
    set_reg32 reg (bit_and current (not_u32 flags))

  -- The loops poll until the card answers; the fuel bounds the number of reads, and `hang` says that
  -- it is used up.
  unfoldable pub wait_clear_reg32 : ℕ → ℕ → ℕ → M (Unit {0})
  unfolding get_reg32 wait_until
  wait_clear_reg32 zero reg value w = hang
  wait_clear_reg32 (suc fuel) reg value w =
      (get_reg32 reg >>= λ current v. elim (bit_and current value == 0) [
        | true ↦ ok tt v
        | false ↦ (wait_until 100 >> wait_clear_reg32 fuel reg value) v
      ])
        w

  unfoldable pub wait_set_reg32 : ℕ → ℕ → ℕ → M (Unit {0})
  unfolding get_reg32 wait_until
  wait_set_reg32 zero reg value w = hang
  wait_set_reg32 (suc fuel) reg value w =
      (get_reg32 reg >>= λ current v. elim (bit_and current value == value) [
        | true ↦ ok tt v
        | false ↦ (wait_until 100 >> wait_set_reg32 fuel reg value) v
      ])
        w
