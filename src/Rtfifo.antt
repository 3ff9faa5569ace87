-- ===== src/Rtfifo.antt =====
-- The FIFOs of src/rtfifo. `RTSmallFifo` and `RTFifo` differ only in the type of their numbers, so
-- each operation is written once, over the modulus of that type, and used at 2 ^ 8 and at 2 ^ 16.
pub mod Inv
pub mod Queue
pub mod Contents
pub mod Refine
pub mod Run
pub mod Slots
pub mod Small
mod Tests
pub mod Start
pub mod Reached
use rtsys.Base.{
  ℕ, ◌+◌, ◌-◌, ◌*◌, ◌%◌, ◌^◌, Bool, true, false, Option, none, some, List, ◌++◌, ltb, leb, ◌==◌,
  if◌then◌else◌, take, drop, Outcome, done, fault, ◌>>=◌, ◌>>◌, assert, non_null,
}
use rtsys.Rtplf.Memory.{mem_copy}

-- `struct RTSmallFifo` and `struct RTFifo`; the buffer is what the pointer points to, `none` is NULL.
pub record Fifo : Type 0 where
  pub head : ℕ
  pub tail : ℕ
  pub size : ℕ
  pub capacity : ℕ
  pub item_size : ℕ
  pub buffer : Option (List ℕ)

-- The product of two promoted `uint8_t` or `uint16_t` has type `int`, whose overflow is undefined.
unfoldable pub int_product : ℕ → ℕ → Outcome ℕ
int_product a b = if ltb (a * b) (2 ^ 31) then done (a * b) else fault

-- The buffer once what stands from `offset` on has become `region`.
unfoldable pub store : List ℕ → ℕ → Option (List ℕ) → List ℕ
store buffer offset none = buffer
store buffer offset (some region) = take offset buffer ++ region

-- `i++; if (i >= capacity) i = 0;` in a type of the given modulus
unfoldable pub advance : ℕ → ℕ → ℕ → ℕ
advance modulus capacity i = let next = (i + 1) % modulus in if leb capacity next then 0 else next

pub init : Option Fifo → ℕ → ℕ → Option (List ℕ) → Outcome Fifo
init fifo capacity item_size buffer = do
  f ← non_null fifo
  assert (ltb 0 capacity)
  assert (ltb 0 item_size)
  storage ← non_null buffer
  done (record {
    head = 0;
    tail = 0;
    size = 0;
    capacity = capacity;
    item_size = item_size;
    buffer = some storage;
  })

-- `RTPRIV_SMALL_FIFO_INIT` and `RTPRIV_FIFO_INIT` of an array of `count` elements, which are
-- `element_size` bytes each: the numbers are converted to the type of the fields.
pub static_init : ℕ → ℕ → ℕ → List ℕ → Fifo
static_init modulus count element_size array = record {
  head = 0;
  tail = 0;
  size = 0;
  capacity = count % modulus;
  item_size = element_size % modulus;
  buffer = some array;
}

pub size : Option Fifo → Outcome ℕ
size fifo = do f ← non_null fifo; done f.size

pub capacity : Option Fifo → Outcome ℕ
capacity fifo = do f ← non_null fifo; done f.capacity

pub is_empty : Option Fifo → Outcome Bool
is_empty fifo = do f ← non_null fifo; done (f.size == 0)

pub is_full : Option Fifo → Outcome Bool
is_full fifo = do f ← non_null fifo; done (leb f.capacity f.size)

-- The copy into the slot at the head, and the three updates that follow it.
unfoldable pub push_item : ℕ → Fifo → List ℕ → List ℕ → ℕ → Outcome (Bool × Fifo)
unfolding int_product store advance
push_item modulus f buffer item item_size = do
  offset ← int_product f.head f.item_size
  copied ← mem_copy (some (drop offset buffer)) f.item_size (some item) item_size
  done (
    true,
    record f {
      head = advance modulus f.capacity f.head;
      size = (f.size + 1) % modulus;
      buffer = some (store buffer offset copied);
    },
  )

unfoldable pub push : ℕ → Option Fifo → Option (List ℕ) → ℕ → Outcome (Bool × Fifo)
unfolding push_item
push modulus fifo item item_size = do
  f ← non_null fifo
  buffer ← non_null f.buffer
  bytes ← non_null item
  assert (ltb 0 item_size)
  assert (leb item_size f.item_size)
  if ltb f.size f.capacity then push_item modulus f buffer bytes item_size else done (false, f)

-- The copy out of the slot at the tail. The second part of the result is what `item` points to.
unfoldable pub pop_item : ℕ → Fifo → List ℕ → List ℕ → ℕ → Outcome (Bool × Option (List ℕ) × Fifo)
unfolding int_product advance
pop_item modulus f buffer item item_size = do
  offset ← int_product f.tail f.item_size
  copied ← mem_copy (some item) item_size (some (drop offset buffer)) f.item_size
  done (
    true,
    copied,
    record f { tail = advance modulus f.capacity f.tail; size = (f.size + modulus - 1) % modulus },
  )

unfoldable pub pop : ℕ → Option Fifo → Option (List ℕ) → ℕ → Outcome (Bool × Option (List ℕ) × Fifo)
unfolding pop_item
pop modulus fifo item item_size = do
  f ← non_null fifo
  buffer ← non_null f.buffer
  out ← non_null item
  assert (ltb 0 item_size)
  assert (leb f.item_size item_size)
  if ltb 0 f.size then pop_item modulus f buffer out item_size else done (false, some out, f)
