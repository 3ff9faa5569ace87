-- ===== src/Rtplf/Memory.antt =====
-- `RTMemcpy` (src/rtplf/x64-linux/src/rtplf.c) over lists of bytes.
use rtsys.Base.{
  ℕ, zero, suc, ◌≤◌, ◌≡◌, refl, ◌&&◌, Option, none, some, List, [], ◌∷◌, ◌++◌, arith, ltb, lt→ltb,
  ◌<◌, if◌then◌else◌, length, take, drop, Outcome, done, fault, ◌>>=◌,
}
use Prim.Native.Nat.{min}

-- `memcpy` of the C library on what two pointers point to: a list of bytes up to the end of the
-- object. An access outside either object is a fault.
unfoldable pub copy_bytes : List ℕ → List ℕ → ℕ → Outcome (List ℕ)
copy_bytes dst src zero = done dst
copy_bytes [] src (suc n) = fault
copy_bytes (d ∷ dst) [] (suc n) = fault
copy_bytes (d ∷ dst) (s ∷ src) (suc n) = copy_bytes dst src n >>= λ rest. done (s ∷ rest)

-- `RTMemcpy`; `none` is NULL. The result is what `dst` points to afterwards.
unfoldable pub mem_copy : Option (List ℕ) → ℕ → Option (List ℕ) → ℕ → Outcome (Option (List ℕ))
mem_copy none dst_size src src_size = done none
mem_copy (some dst) dst_size none src_size = done (some dst)
mem_copy (some dst) dst_size (some src) src_size =
    if ltb 0 dst_size && ltb 0 src_size
    then (copy_bytes dst src (if ltb dst_size src_size then dst_size else src_size) >>= λ copied.
        done (some copied))
    else done (some dst)

pub copy_bytes_lem :
    (dst src : List ℕ) (n : ℕ)
    → n ≤ length dst
    → n ≤ length src
    → copy_bytes dst src n ≡ done (take n src ++ drop n dst)
unfolding copy_bytes
copy_bytes_lem dst src zero h k = refl
copy_bytes_lem [] src (suc n) h k = absurd (omega arith)
copy_bytes_lem (d ∷ dst) [] (suc n) h k = absurd (omega arith)
copy_bytes_lem (d ∷ dst) (s ∷ src) (suc n) h k =
    rw (copy_bytes_lem dst src n (omega arith) (omega arith))

-- With positive sizes and room in both objects, `RTMemcpy` copies as many bytes as the smaller
-- of the two sizes says, and leaves the rest of the destination.
pub mem_copy-eq :
    (dst src : List ℕ) (dst_size src_size : ℕ)
    → 0 < dst_size
    → 0 < src_size
    → min dst_size src_size ≤ length dst
    → min dst_size src_size ≤ length src
    → mem_copy (some dst) dst_size (some src) src_size
      ≡ done (some (take (min dst_size src_size) src ++ drop (min dst_size src_size) dst))
unfolding mem_copy
mem_copy-eq dst src a b p q h k =
    rw (lt→ltb 0 a p, lt→ltb 0 b q, smaller, copy_bytes_lem dst src (min a b) h k)
  where
    smaller : (if ltb a b then a else b) ≡ min a b
    smaller = ground arith
