-- ===== src/Metrics/Decimal.antt =====
-- The conversions of `printf` that src/metrics.c writes its files with: `%` PRIu64, `%` PRIu32 and `%d`.
use packet_analyzer.Prelude.{ℕ, zero, suc, ◌+◌, ◌/◌, ◌%◌, [], ◌∷◌, ltb, if◌then◌else◌}
use packet_analyzer.Prelude.Int.{ℤ, pos, negsuc}
use packet_analyzer.Metrics.Metadata.{Text}

-- The digits of a number, from the last on, in front of a text. A number below 10^(fuel + 1) gets all
-- its digits.
unfoldable pub digits_loop : ℕ → ℕ → Text → Text
digits_loop zero n text = (48 + n % 10) ∷ text
digits_loop (suc fuel) n text =
    let rest = digits_loop fuel (n / 10) ((48 + n % 10) ∷ text) in
    if ltb n 10 then (48 + n % 10) ∷ text else rest

-- A `uint64_t` has at most 20 digits.
unfoldable pub printed : ℕ → Text
printed n = digits_loop 19 n []

unfoldable pub printed_int : ℤ → Text
printed_int (pos n) = printed n
printed_int (negsuc n) = 45 ∷ printed (n + 1)
