-- ===== src/Rtplf/Tests.antt =====
-- The platform functions on concrete bytes.
use rtsys.Base.{
  ℕ, ◌≡◌, ◌≢◌, some, none, List, [], ◌∷◌, ◌++◌, ℤ, pos, negsuc, arith, done, true, false, ◌<◌, ◌%◌,
  ◌+◌, ◌-◌, ◌^◌, refl,
}
use rtsys.Rtplf.Text.{str_ncpy, str_len, str_cmp, print_digits, str_ncmp, print_base2, scan_base2}
use rtsys.Rtplf.Memory.{mem_copy, mem_copy-eq}
use rtsys.Rtplf.Text.Strings.{str_len-terminated, str_ncmp-prefix, str_cmp-ne_zero}
use rtsys.Rtplf.Text.Base2.{scan_base2-print_base2}
use rtsys.Rtplf.Text.Copy.{str_ncpy-stored}
use rtsys.Rtplf.Stdio.{format_unsigned}
use rtsys.Rtplf.Convert.{
  base_10, base_16, base_auto, u32_to_string, s32_to_string, string_to_u32, string_to_s32,
}
use rtsys.Rtplf.Convert.Unsigned.{u32_to_string-text}
use rtsys.Rtplf.Convert.Guess.{string_to_u32-guess}
use rtsys.Rtplf.Convert.Signed.{string_to_s32-s32_to_string}
use rtsys.Rtplf.Convert.RoundTrip.{string_to_u32-u32_to_string}
use rtsys.Rtplf.Clock.{now_tick, now_us, now_tick-elapsed, tick_frequency}

mem_copy-eq_example :
    mem_copy (some (1 ∷ 2 ∷ 3 ∷ [])) 3 (some (7 ∷ 8 ∷ [])) 2 ≡ done (some (7 ∷ 8 ∷ 3 ∷ []))
mem_copy-eq_example =
    mem_copy-eq (1 ∷ 2 ∷ 3 ∷ []) (7 ∷ 8 ∷ []) 3 2 (omega arith) (omega arith) (omega arith)
      (omega arith)

scan_base2-print_base2_example :
    (str : List ℕ) × (print_base2 37 40 ≡ done (32, str)) × (scan_base2 (some str) ≡ done (some 37))
scan_base2-print_base2_example = scan_base2-print_base2 37 40 (omega arith) (omega arith)

str_len-terminated_example :
    (str_len none ≡ done 0) × (str_len (some (65 ∷ 66 ∷ 0 ∷ 67 ∷ [])) ≡ done 2)
str_len-terminated_example =
    str_len-terminated (65 ∷ 66 ∷ []) (67 ∷ []) (omega arith, (omega arith, tt))

-- 200 is a negative `char`.
str_ncmp-prefix_example :
    (str_cmp (some (65 ∷ 200 ∷ 0 ∷ [])) (some (65 ∷ 66 ∷ 0 ∷ [])) ≡ done (negsuc 0))
    × (str_cmp (some (65 ∷ 66 ∷ 0 ∷ [])) (some (65 ∷ 200 ∷ 0 ∷ [])) ≡ done (pos 1))
    × (str_ncmp (some (65 ∷ 200 ∷ 0 ∷ [])) (some (65 ∷ 66 ∷ 0 ∷ [])) 1 ≡ done (negsuc 0))
    × (str_ncmp (some (65 ∷ 66 ∷ 0 ∷ [])) (some (65 ∷ 200 ∷ 0 ∷ [])) 1 ≡ done (pos 1))
str_ncmp-prefix_example =
    str_ncmp-prefix (65 ∷ []) (0 ∷ []) (0 ∷ []) 200 66 1 (omega arith) (omega arith) (omega arith)
      (omega arith)

str_cmp-ne_zero_example :
    (str_cmp (some (65 ∷ 0 ∷ [])) (some (65 ∷ 0 ∷ [])) ≢ done (pos 0))
    × ((result : ℤ) → str_cmp (some (65 ∷ 0 ∷ [])) (some (65 ∷ 0 ∷ [])) ≢ done result)
str_cmp-ne_zero_example = str_cmp-ne_zero (65 ∷ 0 ∷ []) (65 ∷ 0 ∷ [])

-- Three characters of "10" and "abcd" in a buffer with room for more.
str_ncpy-stored_example :
    str_ncpy (some (9 ∷ 9 ∷ 9 ∷ 9 ∷ [])) 3 (some (97 ∷ 98 ∷ 99 ∷ 100 ∷ 0 ∷ []))
    ≡ done (true, some (97 ∷ 98 ∷ 0 ∷ 9 ∷ []))
str_ncpy-stored_example =
    str_ncpy-stored (97 ∷ 98 ∷ 99 ∷ 100 ∷ []) [] (9 ∷ 9 ∷ 9 ∷ 9 ∷ []) 3
      (omega arith, (omega arith, (omega arith, (omega arith, tt)))) (omega arith) (omega arith)
      (omega arith) (omega arith)

-- A buffer of 40 characters.
abbrev room : List ℕ
room =
    1 ∷ 1 ∷ 1 ∷ 1 ∷ 1 ∷ 1 ∷ 1 ∷ 1 ∷ 1 ∷ 1 ∷ 1 ∷ 1 ∷ 1 ∷ 1 ∷ 1 ∷ 1 ∷ 1 ∷ 1 ∷ 1 ∷ 1 ∷ 1 ∷ 1 ∷ 1 ∷ 1
    ∷ 1 ∷ 1 ∷ 1 ∷ 1 ∷ 1 ∷ 1 ∷ 1 ∷ 1 ∷ 1 ∷ 1 ∷ 1 ∷ 1 ∷ 1 ∷ 1 ∷ 1 ∷ 1 ∷ []

u32_to_string-text_example :
    u32_to_string 1234 base_10 (some (9 ∷ 9 ∷ 9 ∷ [])) 3 ≡ done (2, some (49 ∷ 50 ∷ 0 ∷ []))
unfolding format_unsigned
u32_to_string-text_example =
    u32_to_string-text 1234 base_10 (9 ∷ 9 ∷ 9 ∷ []) 3 (omega arith) (λ e. cc)
      (record { some_room = omega arith; limited = omega arith; room = omega arith })

string_to_u32-u32_to_string_example :
    (n : ℕ) × (buffer' : List ℕ) × (u32_to_string 61453 base_16 (some room) 40
      ≡ done (n, some buffer'))
    × (n < 40)
    × (string_to_u32 (some buffer') base_16 (some 5) ≡ done (true, some 61453))
string_to_u32-u32_to_string_example =
    string_to_u32-u32_to_string 61453 base_16 room 40 5 (omega arith) (λ e. cc) (omega arith)
      (record { some_room = omega arith; limited = omega arith; room = omega arith })

string_to_s32-s32_to_string_example :
    (n : ℕ) × (buffer' : List ℕ) × (s32_to_string (negsuc 41) (some room) 12
      ≡ done (n, some buffer'))
    × (n < 12)
    × (string_to_s32 (some buffer') (some (pos 7)) ≡ done (true, some (negsuc 41)))
string_to_s32-s32_to_string_example =
    string_to_s32-s32_to_string (negsuc 41) room 12 (pos 7) (omega arith) (omega arith)
      (record { some_room = omega arith; limited = omega arith; room = omega arith })

string_to_u32-guess_example :
    (0 < 8 → string_to_u32 (some (56 ∷ 0 ∷ 1 ∷ [])) base_auto (some 5) ≡ done (true, some 8))
    × (string_to_u32 (some (48 ∷ 0 ∷ 1 ∷ [])) base_auto (some 5) ≡ done (false, some 5))
    × (string_to_u32 (some (48 ∷ 49 ∷ 48 ∷ 0 ∷ 1 ∷ [])) base_auto (some 5) ≡ done (true, some 8))
    × (string_to_u32 (some (48 ∷ 120 ∷ 56 ∷ 0 ∷ 1 ∷ [])) base_auto (some 5) ≡ done (true, some 8))
    × (string_to_u32 (some (98 ∷ (print_digits 32 8 32 ++ (0 ∷ 1 ∷ [])))) base_auto (some 5)
        ≡ done (true, some 8))
unfolding format_unsigned
string_to_u32-guess_example = string_to_u32-guess 8 (1 ∷ []) 5 (omega arith)

now_tick-elapsed_example :
    (t t' : ℕ) × (now_tick (λ (n : ℕ). ((pos 0, n, 5), n)) 4294 ≡ done (t, 4294))
    × (now_us (λ (n : ℕ). ((pos 0, n, 5), n)) 4296 ≡ done (t', 4296))
    × ((t' + (2 ^ 32 - t)) % 2 ^ 32 ≡ 2000000)
unfolding tick_frequency
now_tick-elapsed_example =
    now_tick-elapsed (λ (n : ℕ). ((pos 0, n, 5), n)) 4294 4296 4294 5 4296 5 2000000
      (record { stored = refl }) (record { stored = refl }) (omega arith) (omega arith)
