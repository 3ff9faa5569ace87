-- ===== src/Rtfifo/Tests.antt =====
-- FIFOs on concrete bytes.
use rtsys.Base.{
  ℕ, ◌^◌, ◌≡◌, refl, Bool, true, false, Option, some, none, List, [], ◌∷◌, arith, done, ◌>>=◌,
}
use rtsys.Rtfifo.{Fifo, int_product, store, advance, init, static_init, push_item, push, pop}
use rtsys.Rtplf.Memory.{copy_bytes, mem_copy}
use rtsys.Rtfifo.Inv.{IsValid, filled}
use rtsys.Rtfifo.Refine.{Pushed, Popped, push_refines, pop_refines}
use rtsys.Rtfifo.Run.{Op, put, get, run, run_queue, run_refines}
use rtsys.Rtfifo.Start.{init-run}
use rtsys.Rtfifo.Reached.{Reached, declared, pushes, InRange, Reached-InRange}
use rtsys.Rtfifo.Small
use rtsys.Rtfifo.Small.{init_small_run}

-- Room for two items of two bytes; the second slot holds the oldest item.
abbrev bytes : List ℕ
bytes = 5 ∷ 6 ∷ 7 ∷ 8 ∷ []

abbrev fifo : Fifo
fifo = record { head = 0; tail = 1; size = 1; capacity = 2; item_size = 2; buffer = some bytes }

fifo-IsValid : IsValid (2 ^ 16) fifo bytes
fifo-IsValid = record {
  storage = refl;
  room = omega arith;
  word = omega arith;
  indexed = omega arith;
  positive = omega arith;
  tail_in = omega arith;
  fits = omega arith;
  head_at = refl;
}

abbrev item : List ℕ
item = 1 ∷ 2 ∷ []

abbrev calls : List Op
calls = put item ∷ put item ∷ get ∷ get ∷ get ∷ []

push_refines_example :
    (accepted : Bool) × (f' : Fifo) × (buffer' : List ℕ) × (push (2 ^ 16) (some fifo) (some item) 1
      ≡ done (accepted, f'))
    × Pushed (2 ^ 16) fifo bytes (filled fifo bytes item 1) accepted f' buffer'
push_refines_example = push_refines item 1 fifo-IsValid (omega arith) (omega arith) (omega arith)

pop_refines_example :
    (taken : Bool) × (x : Option (List ℕ)) × (item' : List ℕ) × (f' : Fifo) × (pop
        (2 ^ 16)
        (some fifo)
        (some item)
        2
      ≡ done (taken, some item', f'))
    × Popped (2 ^ 16) fifo bytes item taken x item' f'
pop_refines_example = pop_refines item 2 fifo-IsValid (omega arith) (omega arith)

run_refines_example :
    run (2 ^ 16) fifo calls
    ≡ done (
        (true, none)
        ∷ (false, none)
        ∷ (true, some (7 ∷ 8 ∷ []))
        ∷ (true, some item)
        ∷ (false, none)
        ∷ [])
unfolding run_queue
run_refines_example = run_refines calls fifo-IsValid (refl, (refl, tt))

init-run_example :
    ((init (some fifo) 2 2 (some bytes) >>= λ f. run (2 ^ 16) f calls)
      ≡ done (run_queue 2 [] calls))
    × (run (2 ^ 16) (static_init (2 ^ 16) 2 2 bytes) calls ≡ done (run_queue 2 [] calls))
init-run_example =
    init-run (2 ^ 16) 2 2 fifo bytes calls
      (record {
        some_items = omega arith;
        word = omega arith;
        some_bytes = omega arith;
        item_word = omega arith;
        room = omega arith;
        indexed = omega arith;
      })
      (refl, (refl, tt))

init_small_run_example :
    ((Small.init (some fifo) 2 2 (some bytes) >>= λ f. Small.run f calls)
      ≡ done (run_queue 2 [] calls))
    × (Small.run (Small.static_init 2 2 bytes) calls ≡ done (run_queue 2 [] calls))
init_small_run_example =
    init_small_run 2 2 fifo bytes calls (omega arith) (omega arith) (omega arith) (omega arith)
      (omega arith) (refl, (refl, tt))

-- A declared FIFO with one item in it.
abbrev one_item : Fifo
one_item = record {
  head = 1;
  tail = 0;
  size = 1;
  capacity = 2;
  item_size = 2;
  buffer = some (1 ∷ 2 ∷ 7 ∷ 8 ∷ []);
}

one_item-Reached : Reached 256 one_item
unfolding push push_item advance store int_product static_init mem_copy copy_bytes
one_item-Reached = pushes (some (1 ∷ 2 ∷ [])) 2 true (declared 2 2 bytes) refl

Reached-InRange_example : InRange 256 one_item
Reached-InRange_example = Reached-InRange 256 (omega arith) one_item-Reached
