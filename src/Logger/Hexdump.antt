-- ===== src/Logger/Hexdump.antt =====
-- `logger_hexdump` of src/logger.c.
use packet_analyzer.Prelude.{
  ℕ, zero, suc, ◌+◌, ◌/◌, ◌%◌, Option, none, some, List, [], ◌∷◌, ◌++◌, ◌&&◌, ltb, leb, ◌==◌,
  if◌then◌else◌, take, drop, length, codes,
}
use packet_analyzer.Metrics.Metadata.{Text}
use packet_analyzer.Logger.{
  debug, rank, State, print, flush, emit, colored, stamped, get_color_code, no_color,
}

abbrev pub hex_digit : ℕ → ℕ
hex_digit d = if ltb d 10 then 48 + d else 87 + d

-- `%02x ` of a byte.
abbrev pub hex_byte : ℕ → Text
hex_byte b = hex_digit (b / 16) ∷ hex_digit (b % 16) ∷ 32 ∷ []

unfoldable pub hex_bytes : List ℕ → Text
hex_bytes [] = []
hex_bytes (b ∷ bytes) = hex_byte b ++ hex_bytes bytes

-- The digits above the lowest four of a `size_t`, which has 16 of them.
unfoldable pub high_digits : ℕ → ℕ → Text
high_digits zero n = []
high_digits (suc fuel) n =
    let rest = high_digits fuel (n / 16) in if n == 0 then [] else rest ++ (hex_digit (n % 16) ∷ [])

-- `  %04zx: `
unfoldable pub offset_column : ℕ → Text
offset_column i =
    32
    ∷ 32
    ∷ (high_digits 12 (i / 65536)
        ++ (hex_digit (i / 4096 % 16)
            ∷ hex_digit (i / 256 % 16)
            ∷ hex_digit (i / 16 % 16)
            ∷ hex_digit (i % 16)
            ∷ 58
            ∷ 32
            ∷ []))

-- `(c >= 32 && c < 127) ? c : '.'`
abbrev pub printable : ℕ → ℕ
printable c = if leb 32 c && ltb c 127 then c else 46

unfoldable pub printables : List ℕ → Text
printables [] = []
printables (c ∷ bytes) = printable c ∷ printables bytes

unfoldable pub row : ℕ → List ℕ → Text
row i bytes =
    offset_column i ++ (hex_bytes bytes ++ (32 ∷ 124 ∷ 32 ∷ (printables bytes ++ (10 ∷ []))))

-- The loop over `i`, with the bytes from `i` on left. It stops when they are used up, which takes
-- fewer rounds than there are bytes.
unfoldable pub dump_loop : ℕ → ℕ → List ℕ → Text
dump_loop zero i rest = []
dump_loop (suc fuel) i [] = []
dump_loop (suc fuel) i (b ∷ rest) =
    row i (take 16 (b ∷ rest)) ++ dump_loop fuel (i + 16) (drop 16 (b ∷ rest))

-- The rows' `fprintf` calls are one action.
unfoldable pub logger_hexdump : Text → Text → Option (List ℕ) → State → State
logger_hexdump timestamp label bytes s = elim s.global_logger [
  | none ↦ s
  | some c ↦ elim bytes [
    | none ↦ s
    | some bs ↦
        if ltb (rank debug) (rank c.min_level)
        then s
        else (if length bs == 0
            then s
            else emit
                (colored c (get_color_code debug)
                  ++ (stamped c timestamp
                      ++ (print c.output_file (codes "[HEXDUMP] " ++ (label ++ codes ":\n"))
                          ∷ print c.output_file (dump_loop (length bs) 0 bs)
                          ∷ (colored c no_color ++ (flush c.output_file ∷ [])))))
                s)
  ]
]
