-- ===== src/Rtfifo/Inv.antt =====
-- The representation invariant of the FIFO structures, and what one push and one pop write.
use rtsys.Base.{
  ℕ, ◌+◌, ◌-◌, ◌*◌, ◌%◌, ◌^◌, ◌≤◌, ◌<◌, ◌≡◌, true, some, List, ◌++◌, arith, ltb, if◌then◌else◌,
  length, take, drop, length-take, length-drop, drop-drop, drop-split, done, lt→ltb,
}
use Prim.Native.Nat.{min}
use mathlib.Core.List.{append_assoc}
use native.Mathlib.Nat.{mod-eq_of_lt, mod-eq-sub-mod}
use rtsys.Rtplf.Memory.{mem_copy-eq}
use rtsys.Rtfifo.{Fifo, int_product, store, advance, push_item, pop_item}
use rtsys.Rtfifo.Slots.{slot, splice}

-- The index `n` places after `t` in a ring of `cap` places, both at most `cap`.
abbrev pub place : ℕ → ℕ → ℕ → ℕ
place cap t n = if ltb (t + n) cap then t + n else t + n - cap

-- The buffer holds all the slots, every index into it is an `int`, and the head stands `size` places
-- after the tail.
pub record IsValid (modulus : ℕ) (f : Fifo) (buffer : List ℕ) : Type 0 where
  pub storage : f.buffer ≡ some buffer
  pub room : f.capacity * f.item_size ≤ length buffer
  pub word : f.capacity < modulus
  pub indexed : f.capacity * f.item_size ≤ 2 ^ 31
  pub positive : 0 < f.item_size
  pub tail_in : f.tail < f.capacity
  pub fits : f.size ≤ f.capacity
  pub head_at : f.head ≡ place f.capacity f.tail f.size

-- What a push of `n` bytes leaves in the slot: the item, and behind it what the slot held.
abbrev pub filled : Fifo → List ℕ → List ℕ → ℕ → List ℕ
filled f buffer item n = take n item ++ drop n (slot buffer f.item_size f.head)

-- The buffer after a push of `n` bytes of `item`.
abbrev pub written : Fifo → List ℕ → List ℕ → ℕ → List ℕ
written f buffer item n = splice buffer f.item_size f.head (filled f buffer item n)

unfoldable pub pushed : Fifo → List ℕ → List ℕ → ℕ → Fifo
pushed f buffer item n = record f {
  head = place f.capacity f.head 1;
  size = f.size + 1;
  buffer = some (written f buffer item n);
}

unfoldable pub popped : Fifo → Fifo
popped f = record f { tail = place f.capacity f.tail 1; size = f.size - 1 }

pub advance-lem :
    (modulus cap i : ℕ) → i < cap → cap < modulus → advance modulus cap i ≡ place cap i 1
unfolding advance
advance-lem modulus cap i h k = ground (arith, mod-eq_of_lt {n = i + 1} {m = modulus} (omega arith))

slot_end : (i n cap : ℕ) → i < cap → i * n + n ≤ cap * n
slot_end i n cap h = grind arith

pub int_product-lem : (a b c : ℕ) → a < c → 0 < b → c * b ≤ 2 ^ 31 → int_product a b ≡ done (a * b)
unfolding int_product
int_product-lem a b c h p k =
    let small : a * b < 2 ^ 31 = omega (arith, slot_end a b c h) in
    rw (lt→ltb (a * b) (2 ^ 31) small)

module _ {modulus : ℕ} {f : Fifo} {buffer : List ℕ} (v : IsValid modulus f buffer) where
  open f use {head, tail, size, capacity, item_size}

  pub slot_in : (i : ℕ) → i < capacity → i * item_size + item_size ≤ length buffer
  slot_in i h = omega (arith, slot_end i item_size capacity h, v.room)

  pub head_always : head < capacity
  head_always = ground (arith, v.head_at, v.tail_in, v.fits)

  pub length-slot : (i : ℕ) → i < capacity → length (slot buffer item_size i) ≡ item_size
  length-slot i h =
      length-take item_size (drop (i * item_size) buffer)
        (omega (arith, slot_in i h, length-drop {0} (i * item_size) buffer))

  pub push_item-eq :
      (item : List ℕ) (n : ℕ)
      → size < capacity
      → 0 < n
      → n ≤ item_size
      → n ≤ length item
      → push_item modulus f buffer item n ≡ done (true, pushed f buffer item n)
  unfolding push_item pushed store
  push_item-eq item n h p q r =
      rw (int_product-lem head item_size capacity head_always v.positive v.indexed) (
        rw
          (
            mem_copy-eq (drop (head * item_size) buffer) item item_size n v.positive p room_dst
                (omega arith),
            smaller,
          )
          (cc (advance-lem modulus capacity head head_always v.word, counted, bytes)))
    where
      smaller : min item_size n ≡ n
      smaller = omega arith

      room_dst : min item_size n ≤ length (drop (head * item_size) buffer)
      room_dst = omega (arith, slot_in head head_always, length-drop {0} (head * item_size) buffer)

      counted : (size + 1) % modulus ≡ size + 1
      counted = mod-eq_of_lt (omega (arith, v.word, v.fits))

      bytes :
          take n item ++ drop n (drop (head * item_size) buffer)
          ≡ filled f buffer item n ++ drop (head * item_size + item_size) buffer
      bytes = rw (
        append_assoc,
        ← drop-drop item_size (head * item_size) buffer,
        drop-split n item_size (drop (head * item_size) buffer) q,
      )

  pub pop_item-eq :
      (item : List ℕ) (n : ℕ)
      → 0 < size
      → item_size ≤ n
      → n ≤ length item
      → pop_item modulus f buffer item n
        ≡ done (true, some (slot buffer item_size tail ++ drop item_size item), popped f)
  unfolding pop_item popped
  pop_item-eq item n h q r =
      rw (int_product-lem tail item_size capacity v.tail_in v.positive v.indexed) (
        rw
          (
            mem_copy-eq item (drop (tail * item_size) buffer) n item_size
                (omega (arith, v.positive)) v.positive (omega arith) room_src,
            smaller,
          )
          (cc (advance-lem modulus capacity tail v.tail_in v.word, counted)))
    where
      smaller : min n item_size ≡ item_size
      smaller = omega arith

      room_src : min n item_size ≤ length (drop (tail * item_size) buffer)
      room_src = omega (arith, slot_in tail v.tail_in, length-drop {0} (tail * item_size) buffer)

      counted : (size + modulus - 1) % modulus ≡ size - 1
      counted = omega (
        arith,
        mod-eq-sub-mod {n = size + modulus - 1} {m = modulus} (omega arith),
        mod-eq_of_lt {n = size + modulus - 1 - modulus} {m = modulus}
            (omega (arith, v.word, v.fits)),
      )
