-- ===== src/Lib.antt =====
-- The rtsys library: FIFOs, a hierarchical state machine engine, a unit test runner, and the platform
-- layer under them.
--
-- How the parts interact. The engine (Rthsm) takes its events from an RTFifo (Rtfifo), which copies
-- them with RTMemcpy (Rtplf); all of them stop in RTASSERT, which calls RTPanic and does not return.
-- The test runner (Rttest) writes octets that src/rttest/scripts/rttest2text.py reads.
--
-- Which file models what.
--   Base, Base/*: numbers, lists, and how a call of a C function ends (Base/Calls: `Outcome`).
--   Rtplf/Memory: RTMemcpy of src/rtplf/x64-linux/src/rtplf.c, over lists of bytes.
--   Rtplf/Text: the string functions of the same file, RTStrlen (`str_len`), RTStrncpy (`str_ncpy`),
--     RTStrcmp (`str_cmp`), RTStrncmp (`str_ncmp`), and rtplfPrintBase2 and rtplfScanBase2.
--   Rtplf/Convert: RT32ToString (`s32_to_string`), RTU32ToString (`u32_to_string`), RTStringTo32
--     (`string_to_s32`), RTStringToU32 (`string_to_u32`). Rtplf/Stdio is what they use of sprintf and
--     sscanf of the C library: the formats ld, lu, lo and lx.
--   Rtplf/Clock: RTNow_tick (`now_tick`), RTNow_us and RTTickFrequency_Hz.
--   Rtfifo: src/rtfifo/src/rtfifo.c and src/rtfifo/include/rtfifo_priv.h. RTSmallFifo* and RTFifo* are
--     one function each, over the modulus of the type of the fields; Rtfifo/Small has the former under
--     their own names. RTFifoPush is `push`, RTFifoPop is `pop`, and so on. Rtfifo/Queue is the
--     bounded queue that a FIFO stands for, Rtfifo/Inv the representation invariant, Rtfifo/Contents the
--     items in the slots, Rtfifo/Refine and Rtfifo/Run the refinement, Rtfifo/Start initialisation
--     and queries, Rtfifo/Reached the range of the fields of any FIFO.
--   Rthsm/Types: the structures of src/rthsm/include/rthsm.h. Rthsm/Setup: RTHsmInit of
--     src/rthsm/src/rthsm.c; Rthsm/Setup/Hierarchy says by ids which arrays describe a hierarchy,
--     and the files beside it compare the assertions of each pass with that.
--     Rthsm/Engine: rthsmGetBestTransition (`get_best_transition`), rthsmDoTransition
--     (`do_transition`), rthsmDoSelfTransition, rthsmTraverseToChildmostState.
--     Rthsm/Step: RTHsmPushEvent (`push_event`) and RTHsmStep (`step`). Rthsm/Tree says what a
--     hierarchy is; Rthsm/Step/Spec is the step relation, Rthsm/Step/Deliver how events travel through the queue. Rthsm/Run is a client that pushes events and
--     makes steps in any order, Rthsm/Run/Trace the relation for what it sees, and Rthsm/Run/System the
--     initialisation of queue and machine with such a client behind it.
--   Rttest: src/rttest/src/rttest.c. RTPrivTestRegisterGroup is `register_group`, RTTestRun is `run`,
--     rttestRunGroup `run_group`, rttestRunTestCases `run_test_cases`, rttestIsIn `is_in`.
--     Rttest/Script: the script as a whole, of which Rttest/MapBuilder is the class that reads C source
--     files, Rttest/Parser the class RttParser, and Rttest/GroupMap the dictionary between them;
--     Rttest/Strings is what they use of Python's strings. What is printed before a RuntimeError is not
--     kept. Rttest/MapBuilder/Sources says what the source files look like that Rttest/MapBuilder/Builds
--     is about, Rttest/Verdict what RttParser makes of a run's output.
--     Rttest/Logged, Rttest/Report and Rttest/Stops are about an output that stores every octet,
--     Rttest/Lost about any output.
--     Rttest/Checks: the macros of src/rttest/include/rttest_priv.h, RTTPRIV_EXPECT (`expect`),
--     RTTPRIV_ASSERT (`assert_cond`), RTTPRIV_TEST_END (`test_end`), and the constructors of
--     RTTPRIV_GROUP_END (Rttest/Checks/Chain). Rttest/Main: src/rtplf/x64-linux/src/rttestmain.c.
--
-- State. A pointer into the array of states is a number, 0 for NULL; what a pointer to bytes points to
-- is a list of bytes, `none` for NULL. A FIFO owns its buffer. Actions, guards and test cases are
-- functions on a world `W` that the client chooses; for the engine the world has the event queue in
-- it, since actions push events. Guards read the world and do not change it, and actions do not touch
-- the state machine structure itself. A registered group is an object of its own whose `next` is NULL.
--
-- Bounds and fuel. The three loops along a branch of the hierarchy take `path_rounds` rounds, one more
-- than RTHSM_MAX_NESTED_STATES: a tree that RTHsmInit accepts is not deeper. Numbers that the source
-- keeps in `uint8_t`, `uint16_t` or `uint32_t` wrap where the source's do; a product or a count that
-- overflows an `int` is a fault. The parser's rounds are one for each group and one for the end; one
-- more than the bytes of the file is always enough (Rttest/Parser/Ends). A test group has fewer than 2 ^ 32 test cases, so that the index of the loop does not wrap.
--
-- The functions gettimeofday, write and calloc are parameters; a `long` has 64 bits.
--
-- Not modelled: the unit tests, the script's command line and its reading of files, and the build
-- files. RTHsmReset is declared and has no body.
pub mod Base
pub mod Rtplf
pub mod Rtfifo
pub mod Rthsm
pub mod Rttest
