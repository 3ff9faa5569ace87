-- ===== src/Rthsm/Tests.antt =====
-- A machine with a composite state, run on concrete events.
use rtsys.Base.{ℕ, ◌≡◌, refl, ◌+◌, Bool, true, Option, none, some, List, [], ◌∷◌, arith, done}
use rtsys.Rthsm.Types.{null, ok, Event, Transition, State, Hsm, deref}
use rtsys.Rthsm.Tree.{PathTo, top, up, IsTree}
use rtsys.Rthsm.Setup.{
  init, lookup_from, lookup_state_from_id, check_unique, link_parent, link_initial, link_states,
  belongs_to_global, check_initial, check_nesting, check_state, check_hierarchy, link_transition,
  link_transitions, link_all,
}
use rtsys.Rthsm.Setup.Accepted.{init-Decides}
use rtsys.Rthsm.Setup.Accepts.{built}
use rtsys.Rthsm.Setup.Decides.{Decides}
use rtsys.Rthsm.Setup.Hierarchy.{IsHierarchy}
use rtsys.Rthsm.Setup.Tree.{init-IsTree}
use rtsys.Rthsm.Step.{World, step, handle, push_event, bytes_of_event, event_of_bytes, Stepped}
use rtsys.Rthsm.Engine.{
  descend, traverse_to_childmost, scan_transitions, climb, get_best_transition, dst_parents,
  scan_origin, is_common, find_common, leave_up, enter_down, do_transition,
}
use rtsys.Rthsm.Engine.Choose.{candidates, first_enabled, last_verdict, get_best_transition-first}
use rtsys.Rthsm.Engine.Move.{Moved, do_transition-Moved}
use rtsys.Rthsm.Step.Spec.{IsReady, IsQueue, Steps}
use rtsys.Rthsm.Step.Refine.{step_refines}
use rtsys.Rthsm.Step.Ready.{Kept, init-IsReady, step-Kept}
use rtsys.Rthsm.Step.Deliver.{Parcel}
use rtsys.Rthsm.Step.Push.{push_event-queued}
use rtsys.Rtfifo.Contents.{contents}
use rtsys.Rtfifo.Queue
use rtsys.Rtfifo.{Fifo, pop, pop_item, int_product, advance}
use rtsys.Rtplf.Memory.{copy_bytes, mem_copy}

-- The user's data: the cookies of the actions that ran, the last one first.
abbrev pub Log : Type 0
Log = List ℕ

abbrev pub record_cookie : ℕ → World Log → World Log
record_cookie cookie w = record w { user = cookie ∷ w.user }

abbrev action : Event → ℕ → World Log → World Log
action event cookie w = record_cookie cookie w

abbrev pub node : ℕ → ℕ → ℕ → ℕ → List (Transition (World Log)) → State (World Log)
node id parent_id initial_id flags transitions = record {
  id = id;
  flags = flags;
  parent_id = parent_id;
  initial_id = initial_id;
  entry_action = some record_cookie;
  exit_action = some (λ cookie. record_cookie (cookie + 100));
  cookie = id;
  transitions = transitions;
  parent = null;
  initial = null;
}

abbrev pub arrow : ℕ → ℕ → Option (Event → ℕ → World Log → ℕ) → Transition (World Log)
arrow event_id to_state_id guard = record {
  to_state_id = to_state_id;
  event_id = event_id;
  flags = 0;
  guard = guard;
  action = some action;
  cookie = 50;
  to_state = null;
}

-- The global state 1 around the composite state 2, which is around 3, and around the final state 4.
abbrev pub global_node : State (World Log)
global_node = node 1 0 2 0 []

abbrev pub composite : State (World Log)
composite = node 2 1 3 0 (arrow 10 4 none ∷ [])

abbrev pub inner : State (World Log)
inner = node 3 2 0 0 (arrow 10 4 (some (λ event cookie w. 7)) ∷ arrow 11 3 none ∷ [])

abbrev pub last_node : State (World Log)
last_node = node 4 1 0 1 []

abbrev pub given : List (State (World Log))
given = global_node ∷ composite ∷ inner ∷ last_node ∷ []

abbrev pub raw : Hsm (World Log)
raw = record { states = []; global = null; current = null }

abbrev to_last : Transition (World Log)
to_last = record (arrow 10 4 none) { to_state = 4 }

abbrev pub linked_global : State (World Log)
linked_global = record global_node { initial = 2 }

abbrev pub linked_composite : State (World Log)
linked_composite = record composite { parent = 1; initial = 3; transitions = to_last ∷ [] }

abbrev pub linked_inner : State (World Log)
linked_inner = record inner {
  parent = 2;
  transitions =
      record (arrow 10 4 (some (λ event cookie w. 7))) { to_state = 4 }
      ∷ record (arrow 11 3 none) { to_state = 3 }
      ∷ [];
}

abbrev pub linked_last : State (World Log)
linked_last = record last_node { parent = 1 }

abbrev pub machine : Hsm (World Log)
machine = record {
  states = linked_global ∷ linked_composite ∷ linked_inner ∷ linked_last ∷ [];
  global = 1;
  current = null;
}

pub machine_init : init (some raw) (some given) true ≡ done machine
unfolding init lookup_from lookup_state_from_id check_unique link_parent link_initial link_states
    belongs_to_global check_initial check_nesting check_state check_hierarchy link_transition
    link_transitions link_all deref
machine_init = refl

init-Decides_example : Decides (IsHierarchy given) (init (some raw) (some given) true) (built given)
init-Decides_example = init-Decides raw given

init-IsTree_example : IsTree machine.states machine.global × (machine.current ≡ null)
init-IsTree_example = init-IsTree raw given true machine_init

pub machine-IsReady : IsReady machine
machine-IsReady = init-IsReady raw given true machine_init

-- A queue for two events, which holds one of id 10.
abbrev pub queue_bytes : List ℕ
queue_bytes =
    10 ∷ 0 ∷ 0 ∷ 0 ∷ 1 ∷ 0 ∷ 0 ∷ 0 ∷ 2 ∷ 0 ∷ 0 ∷ 0 ∷ 0 ∷ 0 ∷ 0 ∷ 0 ∷ 0 ∷ 0 ∷ 0 ∷ 0 ∷ 0 ∷ 0 ∷ 0 ∷ 0
    ∷ []

abbrev pub queue : Fifo
queue = record {
  head = 1;
  tail = 0;
  size = 1;
  capacity = 2;
  item_size = 12;
  buffer = some queue_bytes;
}

abbrev pub world : World Log
world = record { queue = queue; user = [] }

pub world-IsQueue : IsQueue world queue_bytes
world-IsQueue = record {
  valid = record {
    storage = refl;
    room = omega arith;
    word = omega arith;
    indexed = omega arith;
    positive = omega arith;
    tail_in = omega arith;
    fits = omega arith;
    head_at = refl;
  };
  events = refl;
}

-- The first step runs the entry actions of 2 and 3.
first_step :
    step (some machine) (some 9) world
    ≡ done (record {
      result = ok;
      guard_result = some 9;
      machine = record machine { current = 3 };
      world = record world { user = 3 ∷ 2 ∷ [] };
    })
unfolding step traverse_to_childmost descend deref
first_step = refl

abbrev pub running : Hsm (World Log)
running = record machine { current = 3 }

step-Kept_example : Kept machine running
step-Kept_example = step-Kept machine (some 9) world machine-IsReady world-IsQueue first_step

pub running-IsReady : IsReady running
running-IsReady = (step-Kept machine (some 9) world machine-IsReady world-IsQueue first_step).ready

step_refines_example :
    (r : Stepped Log) × (step (some running) (some 9) world ≡ done r)
    × Steps running (some 9) world queue_bytes r
step_refines_example = step_refines running (some 9) world running-IsReady world-IsQueue

-- The guard of 3 refuses, so that 2 moves to 4: the exit actions of 3 and 2, the transition's
-- action, the entry action of 4.
second_step :
    step (some running) (some 9) world
    ≡ done (record {
      result = ok;
      guard_result = some 9;
      machine = record machine { current = 4 };
      world = record {
        queue = record queue { tail = 1; size = 0 };
        user = 4 ∷ 50 ∷ 102 ∷ 103 ∷ [];
      };
    })
unfolding step handle traverse_to_childmost descend deref pop pop_item int_product advance mem_copy
    copy_bytes event_of_bytes scan_transitions climb get_best_transition dst_parents scan_origin
    is_common find_common leave_up enter_down do_transition
second_step = refl

composite_at : deref machine.states 2 ≡ done linked_composite
unfolding deref
composite_at = refl

inner_at : deref machine.states 3 ≡ done linked_inner
unfolding deref
inner_at = refl

last_at : deref machine.states 4 ≡ done linked_last
unfolding deref
last_at = refl

-- The ways up from 3 and from 4.
abbrev from_inner : PathTo machine.states 1 3 (3 ∷ 2 ∷ 1 ∷ [])
from_inner =
    up linked_inner (omega arith) inner_at refl
      (up linked_composite (omega arith) composite_at refl (top refl))

abbrev from_last : PathTo machine.states 1 4 (4 ∷ 1 ∷ [])
from_last = up linked_last (omega arith) last_at refl (top refl)

abbrev pub ten : Event
ten = record { id = 10; param0 = 1; param1 = 2 }

get_best_transition-first_example :
    (result : ℕ) × (get_best_transition running ten world
      ≡ done (first_enabled ten world (candidates from_inner), result))
    × (first_enabled ten world (candidates from_inner) ≡ none
        → result ≡ last_verdict ten world 0 (candidates from_inner))
get_best_transition-first_example =
    get_best_transition-first ten world running from_inner (omega arith) (omega arith)

do_transition-Moved_example : Moved running to_last ten world (3 ∷ 2 ∷ 1 ∷ []) (4 ∷ 1 ∷ [])
do_transition-Moved_example =
    do_transition-Moved running to_last ten world running-IsReady.tree from_inner from_last
      (omega arith) (omega arith) (omega arith) (linked_last, last_at)

abbrev parcel : Event → Parcel
parcel event = record { pad0 = 0; pad1 = 0; pad2 = 0; event = event }

abbrev eleven : Event
eleven = record { id = 11; param0 = 0; param1 = 0 }

push_event-queued_example :
    (accepted : Bool) × (w' : World Log) × (buffer' : List ℕ) × (push_event world
        (some (bytes_of_event 0 0 0 ten))
      ≡ done (accepted, w'))
    × IsQueue w' buffer'
    × ((accepted, contents w'.queue buffer')
        ≡ Queue.push 2 (contents queue queue_bytes) (bytes_of_event 0 0 0 ten))
    × (w'.user ≡ [])
push_event-queued_example = push_event-queued world 0 0 0 ten world-IsQueue
