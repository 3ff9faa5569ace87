-- ===== src/Rttest/Main/Runs.antt =====
-- `main` of src/rtplf/x64-linux/src/rttestmain.c as a whole.
use rtsys.Base.{
  ℕ, suc, ◌-◌, ◌%◌, ◌^◌, ◌<◌, ◌≡◌, refl, ap, ◌∙◌, Bool, true, false, Option, none, some, List, [],
  ◌∷◌, ◌++◌, ◌&&◌, if◌then◌else◌, length, arith, is_negative, done, ◌>>=◌, lt→ltb, ℤ, pos,
}
use rtsys.Rttest.{run_group, WriteOctet, Group, four_cc, end_of_file, run_groups}
use rtsys.Rttest.Register.{occurs, is_in-occurs}
use rtsys.Rttest.Logged.{
  Logged, log_octet, on_user_group, on_user_groups, sections, users_after, AllRun,
}
use rtsys.Rttest.Report.{sections_octets, run-sections}
use rtsys.Rttest.Main.{write_octet, selection, main}
use rtsys.Rttest.Main.Select.{AllPositive, arguments, length-arguments, parse_arguments-ids}

-- The groups whose ids are among the given ones.
unfoldable pub selected : {W : Type 0} → List ℕ → List (Group W) → List (Group W)
selected ids [] = []
selected ids (g ∷ gs) = if occurs g.id ids then g ∷ selected ids gs else selected ids gs

module _ {W : Type 0} where
  run_groups-selected :
      (write : WriteOctet W) (ids : List ℕ) (gs : List (Group W)) (ret : ℤ) (w : W)
      → 0 < length ids
      → run_groups write gs (some ids) (length ids) ret w
        ≡ run_groups write (selected ids gs) none 0 ret w
  unfolding run_groups selected
  run_groups-selected write ids [] ret w h = refl
  run_groups-selected write ids (g ∷ gs) ret w h =
      ap
        (λ m. m >>= λ chosen.
          (if chosen then run_group write g w else done (ret, w)) >>= λ (r : ℤ × W).
          (let later = run_groups write gs (some ids) (length ids) r.0 r.1 in
            if chosen && is_negative r.0 then done (r.0, r.1) else later))
        ((is_in-occurs g.id (length ids) ids).2 h)
      ∙ by_case (occurs g.id ids) (run_groups-selected write ids gs)
    where
      by_case :
          (b : Bool)
          → ((ret' : ℤ) (w' : W)
              → 0 < length ids
              → run_groups write gs (some ids) (length ids) ret' w'
                ≡ run_groups write (selected ids gs) none 0 ret' w')
          → ((if b then run_group write g w else done (ret, w)) >>= λ (r : ℤ × W).
              (let later = run_groups write gs (some ids) (length ids) r.0 r.1 in
                if b && is_negative r.0 then done (r.0, r.1) else later))
            ≡ run_groups write (if b then g ∷ selected ids gs else selected ids gs) none 0 ret w
      by_case true ih =
          ap (λ f. run_group write g w >>= f)
            (λ i r. if is_negative r.0 then done (r.0, r.1) else ih r.0 r.1 h i)
      by_case false ih = ih ret w h

module _ {U : Type 0} where
  selected-on_user_groups :
      (ids : List ℕ) (gs : List (Group U))
      → selected ids (on_user_groups gs) ≡ on_user_groups (selected ids gs)
  unfolding selected
  selected-on_user_groups ids [] = refl
  selected-on_user_groups ids (g ∷ gs) = by_case (occurs g.id ids) (selected-on_user_groups ids gs)
    where
      by_case :
          (b : Bool)
          → selected ids (on_user_groups gs) ≡ on_user_groups (selected ids gs)
          → (if b
              then on_user_group g ∷ selected ids (on_user_groups gs)
              else selected ids (on_user_groups gs))
            ≡ on_user_groups (if b then g ∷ selected ids gs else selected ids gs)
      by_case true e = ap (λ hs. on_user_group g ∷ hs) e
      by_case false e = e

  length-on_user_groups : (gs : List (Group U)) → length (on_user_groups gs) ≡ length gs
  length-on_user_groups [] = refl
  length-on_user_groups (g ∷ gs) = ap suc (length-on_user_groups gs)

  -- A standard output that stores every octet.
  unfoldable pub store : ℕ → Logged U → Logged U
  store octet w = record w { octets = w.octets ++ (octet ∷ []) }

  write_octet-store : (calloc : ℕ → Option (List ℕ)) → write_octet store calloc ≡ log_octet
  unfolding write_octet store log_octet
  write_octet-store calloc = refl

module _ (calloc : ℕ → Option (List ℕ)) (ids slots behind name : List ℕ) (some_ids : 0 < length ids)
    (few : length ids < 2 ^ 16) (positive : AllPositive ids)
    (allocated : calloc (length ids) ≡ some slots) (zeroed : length slots ≡ length ids) where
  selection-ids :
      {W : Type 0} (write : ℕ → W → W)
      → selection write calloc (name ∷ arguments ids behind) ≡ done (some ids, length ids)
  unfolding selection
  selection-ids write =
      simp
        (
          length-arguments ids behind,
          lt→ltb 1 (suc (length ids)) (omega (arith, some_ids)),
          count,
          allocated,
          parse_arguments-ids ids [] slots behind (name ∷ []) refl zeroed positive,
        )
        refl
    where
      count : (suc (length ids) - 1) % 2 ^ 16 ≡ length ids
      count = omega (arith, few)

  -- The program, given the decimal text of some positive 32-bit ids, fewer than 2 ^ 16, on its
  -- command line, with an array from `calloc` and a standard output that stores every octet,
  -- runs exactly the registered groups with those ids, in the order of the chain, if their ids
  -- are 32-bit words, their numbers of test cases are positive and fit an `int32_t`, and their
  -- actions succeed; it writes their sections and exits with 0.
  pub main-selected :
      {U : Type 0} (gs : List (Group U)) (u : U)
      → 0 < length gs
      → AllRun (selected ids gs) u
      → main store calloc
          (on_user_groups gs)
          (name ∷ arguments ids behind)
          (record { user = u; octets = [] })
        ≡ done (
          0,
          record {
            user = users_after (selected ids gs) u;
            octets =
                four_cc ++ (sections_octets (sections (selected ids gs) u) ++ (end_of_file ∷ []));
          },
        )
  unfolding main
  main-selected gs u p a =
      simp
        (
          selection-ids store,
          write_octet-store calloc,
          run-sections (on_user_groups gs) (some ids) (length ids) (selected ids gs) u
              (omega (arith, length-on_user_groups gs, p))
              (run_groups-selected log_octet ids (on_user_groups gs) (pos 0) _ some_ids
                ∙ ap
                    (λ hs.
                      run_groups log_octet hs none 0 (pos 0)
                        (record { user = u; octets = four_cc }))
                    (selected-on_user_groups ids gs))
              a,
        )
        refl
