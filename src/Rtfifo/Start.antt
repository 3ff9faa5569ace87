-- ===== src/Rtfifo/Start.antt =====
-- Initialised FIFOs, and the queries.
use rtsys.Base.{
  ℕ, ◌*◌, ◌^◌, ◌≤◌, ◌<◌, ◌≡◌, refl, some, List, [], arith, length, done, ◌>>=◌, leb, ◌==◌, lt→ltb,
}
use native.Mathlib.Nat.{mod-eq_of_lt}
use rtsys.Rtfifo.{Fifo, init, static_init, size, is_empty, is_full}
use rtsys.Rtfifo.Inv.{IsValid}
use rtsys.Rtfifo.Contents.{contents, length-contents}
use rtsys.Rtfifo.Run.{Op, run, run_queue, AllOfSize, run_refines}

-- The sizes with which a buffer can be used.
pub record Fits (modulus count n : ℕ) (buffer : List ℕ) : Type 0 where
  pub some_items : 0 < count
  pub word : count < modulus
  pub some_bytes : 0 < n
  pub item_word : n < modulus
  pub room : count * n ≤ length buffer
  pub indexed : count * n ≤ 2 ^ 31

-- The FIFO that both ways of initialising lead to.
abbrev pub empty_fifo : ℕ → ℕ → List ℕ → Fifo
empty_fifo count n buffer = record {
  head = 0;
  tail = 0;
  size = 0;
  capacity = count;
  item_size = n;
  buffer = some buffer;
}

pub empty_fifo-IsValid :
    {modulus count n : ℕ} {buffer : List ℕ}
    → Fits modulus count n buffer
    → IsValid modulus (empty_fifo count n buffer) buffer
empty_fifo-IsValid h = record {
  storage = refl;
  room = h.room;
  word = h.word;
  indexed = h.indexed;
  positive = h.some_bytes;
  tail_in = h.some_items;
  fits = omega arith;
  head_at = ground (arith, h.some_items);
}

pub init-eq :
    (modulus : ℕ) (raw : Fifo) (count n : ℕ) (buffer : List ℕ)
    → Fits modulus count n buffer
    → init (some raw) count n (some buffer) ≡ done (empty_fifo count n buffer)
unfolding init
init-eq modulus raw count n buffer h = rw (lt→ltb 0 count h.some_items, lt→ltb 0 n h.some_bytes)

static_init-eq :
    (modulus count n : ℕ) (buffer : List ℕ)
    → Fits modulus count n buffer
    → static_init modulus count n buffer ≡ empty_fifo count n buffer
unfolding static_init
static_init-eq modulus count n buffer h = rw (mod-eq_of_lt h.word, mod-eq_of_lt h.item_word)

-- A FIFO of `count` items of `n` bytes, both positive and in the type of the fields,
-- initialised in either way in an array with room for them and of which every index is an
-- `int`, answers any calls of a client whose items have `n` bytes as the empty bounded queue
-- does.
pub init-run :
    (modulus count n : ℕ) (raw : Fifo) (buffer : List ℕ) (ops : List Op)
    → Fits modulus count n buffer
    → AllOfSize n ops
    → ((init (some raw) count n (some buffer) >>= λ f. run modulus f ops)
        ≡ done (run_queue count [] ops))
      × (run modulus (static_init modulus count n buffer) ops ≡ done (run_queue count [] ops))
init-run modulus count n raw buffer ops h a = (
  rw (init-eq modulus raw count n buffer h) from_empty,
  rw (static_init-eq modulus count n buffer h) from_empty,
)
  where
    from_empty : run modulus (empty_fifo count n buffer) ops ≡ done (run_queue count [] ops)
    from_empty = run_refines ops (empty_fifo-IsValid h) a

-- The queries of a valid FIFO tell the number of its items, whether there is none, and whether
-- there are as many as its capacity.
pub queries :
    {modulus : ℕ} {f : Fifo} {buffer : List ℕ}
    → IsValid modulus f buffer
    → (size (some f) ≡ done (length (contents f buffer)))
      × (is_empty (some f) ≡ done (length (contents f buffer) == 0))
      × (is_full (some f) ≡ done (leb f.capacity (length (contents f buffer))))
unfolding size is_empty is_full
queries {f} {buffer} v = let e = length-contents f buffer in (rw e, rw e, rw e)
