-- ===== src/Rtfifo/Small.antt =====
-- The functions of src/rtfifo/src/rtfifo.c on `RTSmallFifo`, whose numbers are `uint8_t`.
use rtsys.Base.{
  ℕ, ◌*◌, ◌^◌, ◌<◌, ◌≤◌, ◌≡◌, refl, ap, ◌∙◌, ◌∷◌, none, Bool, Option, some, List, [], arith, length,
  Outcome, done, panic, fault, timeout, ◌>>=◌,
}
use rtsys.Rtfifo
use rtsys.Rtfifo.{Fifo}
use rtsys.Rtfifo.Run
use rtsys.Rtfifo.Run.{Op, put, get, Reply, run_queue, AllOfSize, blank, delivered}
use rtsys.Rtfifo.Start.{init-run}

abbrev pub u8_modulus : ℕ
u8_modulus = 2 ^ 8

pub init : Option Fifo → ℕ → ℕ → Option (List ℕ) → Outcome Fifo
init fifo capacity item_size buffer = Rtfifo.init fifo capacity item_size buffer

pub static_init : ℕ → ℕ → List ℕ → Fifo
static_init count element_size array = Rtfifo.static_init u8_modulus count element_size array

pub size : Option Fifo → Outcome ℕ
size fifo = Rtfifo.size fifo

pub capacity : Option Fifo → Outcome ℕ
capacity fifo = Rtfifo.capacity fifo

pub is_empty : Option Fifo → Outcome Bool
is_empty fifo = Rtfifo.is_empty fifo

pub is_full : Option Fifo → Outcome Bool
is_full fifo = Rtfifo.is_full fifo

pub push : Option Fifo → Option (List ℕ) → ℕ → Outcome (Bool × Fifo)
push fifo item item_size = Rtfifo.push u8_modulus fifo item item_size

pub pop : Option Fifo → Option (List ℕ) → ℕ → Outcome (Bool × Option (List ℕ) × Fifo)
pop fifo item item_size = Rtfifo.pop u8_modulus fifo item item_size

-- A client's calls in order.
pub run : Fifo → List Op → Outcome (List Reply)
unfolding push pop
run f [] = done []
run f (put x ∷ ops) = do
  (accepted, f') ← push (some f) (some x) (length x)
  rest ← run f' ops
  done ((accepted, none) ∷ rest)
run f (get ∷ ops) = do
  (taken, item, f') ← pop (some f) (some (blank f.item_size)) f.item_size
  rest ← run f' ops
  done ((taken, delivered taken item) ∷ rest)

>>=-cong :
    {A : Type 0} {B : Type 0} (m : Outcome A) {f g : A → Outcome B}
    → ((a : A) → f a ≡ g a)
    → (m >>= f) ≡ (m >>= g)
>>=-cong (done a) h = h a
>>=-cong panic h = refl
>>=-cong fault h = refl
>>=-cong timeout h = refl

run-eq : (ops : List Op) (f : Fifo) → run f ops ≡ Run.run u8_modulus f ops
unfolding run Run.run
run-eq [] f = refl
run-eq (put x ∷ ops) f =
    >>=-cong (Rtfifo.push u8_modulus (some f) (some x) (length x))
      (λ r. ap (λ m. m >>= λ rest. done ((r.0, none) ∷ rest)) (run-eq ops r.1))
run-eq (get ∷ ops) f =
    >>=-cong (Rtfifo.pop u8_modulus (some f) (some (blank f.item_size)) f.item_size)
      (λ r. ap (λ m. m >>= λ rest. done ((r.0, delivered r.0 r.1) ∷ rest)) (run-eq ops r.2))

product_small : (a b : ℕ) → a < 2 ^ 8 → b < 2 ^ 8 → a * b ≤ 2 ^ 31
product_small a b h k = grind arith

-- A small FIFO of `count` items of `n` bytes, both positive and below 256, initialised in
-- either way in an array with room for them, answers any calls of a client whose items have `n`
-- bytes as the empty bounded queue does.
pub init_small_run :
    (count n : ℕ) (raw : Fifo) (buffer : List ℕ) (ops : List Op)
    → 0 < count
    → count < 2 ^ 8
    → 0 < n
    → n < 2 ^ 8
    → count * n ≤ length buffer
    → AllOfSize n ops
    → ((init (some raw) count n (some buffer) >>= λ f. run f ops) ≡ done (run_queue count [] ops))
      × (run (static_init count n buffer) ops ≡ done (run_queue count [] ops))
unfolding init static_init
init_small_run count n raw buffer ops p q r s room a =
    let (created, static) =
      init-run u8_modulus count n raw buffer ops
        (record {
          some_items = p;
          word = q;
          some_bytes = r;
          item_word = s;
          room = room;
          indexed = product_small count n q s;
        })
        a in
    (
      >>=-cong (Rtfifo.init (some raw) count n (some buffer)) (run-eq ops) ∙ created,
      run-eq ops (Rtfifo.static_init u8_modulus count n buffer) ∙ static,
    )
