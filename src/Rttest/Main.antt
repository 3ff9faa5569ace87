-- ===== src/Rttest/Main.antt =====
-- The program that runs the registered test groups, src/rtplf/x64-linux/src/rttestmain.c. The calls
-- of `write` and `calloc` are parameters: `write` changes the world by an octet on the standard
-- output, and `calloc` gives an array of so many numbers, or NULL.
pub mod Select
pub mod Runs
pub mod Zero
mod Tests
use rtsys.Base.{
  ℕ, zero, suc, ◌+◌, ◌-◌, ◌%◌, ◌^◌, Bool, true, false, Option, none, some, List, [], ◌∷◌, ◌++◌, ltb,
  if◌then◌else◌, length, get_elem?, take, drop, is_negative, Outcome, done, panic, fault, ◌>>=◌,
  ◌>>◌, assert, non_null,
}
use rtsys.Rtplf.Convert.{base_auto, string_to_u32}
use rtsys.Rttest.{WriteOctet, Group, run}

-- A round of the loop over the arguments: `argv[i + 1]` is parsed into `groups[i]`.
unfoldable pub parse_argument : List (List ℕ) → ℕ → List ℕ → Outcome (List ℕ)
parse_argument argv i groups = elim (get_elem? argv (i + 1)) [
  | none ↦ fault
  | some argument ↦ elim (get_elem? groups i) [
    | none ↦ fault
    | some old ↦ (do
      (ok, x) ← string_to_u32 (some argument) base_auto (some old)
      assert ok
      id ← non_null x
      done (take i groups ++ (id ∷ drop (i + 1) groups)))
  ]
]

-- The loop from index `i` on, for so many rounds.
unfoldable pub parse_arguments : ℕ → ℕ → List (List ℕ) → List ℕ → Outcome (List ℕ)
parse_arguments zero i argv groups = done groups
parse_arguments (suc rounds) i argv groups =
    parse_argument argv i groups >>= parse_arguments rounds (i + 1) argv

module _ {W : Type 0} (write : ℕ → W → W) (calloc : ℕ → Option (List ℕ)) where
  -- `writeOctet` does not look at what `write` returns.
  unfoldable pub write_octet : WriteOctet W
  write_octet octet w = (true, write octet w)

  -- The ids on the command line, in an array with their number.
  unfoldable pub selection : List (List ℕ) → Outcome (Option (List ℕ) × ℕ)
  selection argv =
      if ltb 1 (length argv)
      then (do
        let ngroups = (length argv - 1) % 2 ^ 16
        groups ← non_null (calloc ngroups)
        ids ← parse_arguments ngroups 0 argv groups
        done (some ids, ngroups))
      else done (none, 0)

  -- `main`: the exit status, for the groups that are registered.
  unfoldable pub main : List (Group W) → List (List ℕ) → W → Outcome (ℕ × W)
  main first argv w = do
    (groups, ngroups) ← selection argv
    (ret, w') ← run first (some write_octet) groups ngroups w
    done (if is_negative ret then 1 else 0, w')
