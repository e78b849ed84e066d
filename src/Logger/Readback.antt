-- ===== src/Logger/Readback.antt =====
-- Reading back what `logger_hexdump` of src/logger.c prints.
use packet_analyzer.Prelude.{
  ℕ, ◌≢◌, ◌⊎◌, Option-cases, inl, inr, ap₂, Bool-cases, zero, suc, ◌+◌, ◌-◌, ◌*◌, ◌/◌, ◌%◌, ◌<◌,
  ◌≤◌, ◌≡◌, ◌∙◌, ap, refl, arith, Bool, false, none, some, List, [], ◌∷◌, ◌++◌, append_assoc, ltb,
  ◌==◌, if◌then◌else◌, take, drop, length, length-drop, take-append-drop, codes,
}
use packet_analyzer.Metrics.Metadata.{Text}
use packet_analyzer.Logger.{
  Level, info, warn, error, critical, other, Config, debug, rank, State, print, flush, emit,
  colored, stamped, get_color_code, no_color,
}
use packet_analyzer.Logger.Hexdump.{
  hex_digit, hex_byte, hex_bytes, high_digits, offset_column, printable, printables, row, dump_loop,
  logger_hexdump,
}

-- Reading a dump: the offset up to its colon, a space, the bytes' digits with a space behind each
-- pair, and from a second space on the characters up to the end of the line.
pub data Column : Type 0 where
  offset colon digits gap text : Column
  low : ℕ → Column

abbrev pub digit_value : ℕ → ℕ
digit_value c = if ltb c 58 then c - 48 else c - 87

unfoldable pub read_dump : Column → Text → List ℕ
read_dump _ [] = []
read_dump offset (c ∷ rest) = read_dump (if c == 58 then colon else offset) rest
read_dump colon (c ∷ rest) = read_dump digits rest
read_dump digits (c ∷ rest) = read_dump (if c == 32 then text else low (digit_value c)) rest
read_dump (low high) (c ∷ rest) = (high * 16 + digit_value c) ∷ read_dump gap rest
read_dump gap (c ∷ rest) = read_dump digits rest
read_dump text (c ∷ rest) = read_dump (if c == 10 then offset else text) rest

abbrev pub Bytes : List ℕ → Type 0
Bytes [] = Unit {0}
Bytes (b ∷ bytes) = (b < 256) × Bytes bytes

-- A digit is neither a colon nor a space, and is read back.
hex_digit-Digit :
    (d : ℕ)
    → d < 16
    → ((hex_digit d == 58) ≡ false)
      × ((hex_digit d == 32) ≡ false)
      × (digit_value (hex_digit d) ≡ d)
hex_digit-Digit d h = ground arith

-- One digit of an offset.
read_dump-offset_digit :
    (d : ℕ) (rest : Text) → d < 16 → read_dump offset (hex_digit d ∷ rest) ≡ read_dump offset rest
unfolding read_dump
read_dump-offset_digit d rest h =
    ap (λ (b : Bool). read_dump (if b then colon else offset) rest) ((hex_digit-Digit d h).0)

-- The two digits of a byte and the space.
read_dump-hex_byte :
    (b : ℕ) (rest : Text)
    → b < 256
    → read_dump digits (hex_byte b ++ rest) ≡ b ∷ read_dump digits rest
unfolding read_dump
read_dump-hex_byte b rest h =
    let high = hex_digit-Digit (b / 16) (omega (arith, h)) in
    let lower = hex_digit-Digit (b % 16) (omega arith) in
    let same : b / 16 * 16 + b % 16 ≡ b = omega arith in
    ap
      (λ (t : Bool).
        read_dump (if t then text else low (digit_value (hex_digit (b / 16))))
          (hex_digit (b % 16) ∷ 32 ∷ rest))
      (high.1)
    ∙ ap (λ n. n ∷ read_dump digits rest) (ap₂ (λ (a c : ℕ). a * 16 + c) (high.2) (lower.2) ∙ same)

read_dump-high_digits :
    (fuel n : ℕ) (rest : Text)
    → read_dump offset (high_digits fuel n ++ rest) ≡ read_dump offset rest
unfolding high_digits
read_dump-high_digits zero n rest = refl
read_dump-high_digits (suc fuel) n rest = elim (Bool-cases (n == 0)) [
  | inl e ↦ rw e refl
  | inr e ↦ rw e (
      ap (read_dump offset)
        (append_assoc (high_digits fuel (n / 16)) (hex_digit (n % 16) ∷ []) rest)
      ∙ (read_dump-high_digits fuel (n / 16) (hex_digit (n % 16) ∷ rest)
          ∙ read_dump-offset_digit (n % 16) rest (omega arith)))
]

read_dump-offset_column :
    (i : ℕ) (rest : Text) → read_dump offset (offset_column i ++ rest) ≡ read_dump digits rest
unfolding read_dump offset_column
read_dump-offset_column i rest =
    let tail = 58 ∷ 32 ∷ rest in
    let t0 = hex_digit (i % 16) ∷ tail in
    let t1 = hex_digit (i / 16 % 16) ∷ t0 in
    let t2 = hex_digit (i / 256 % 16) ∷ t1 in
    let t3 = hex_digit (i / 4096 % 16) ∷ t2 in
    ap (read_dump offset) (append_assoc (high_digits 12 (i / 65536)) _ rest)
    ∙ (read_dump-high_digits 12 (i / 65536) t3
        ∙ (read_dump-offset_digit (i / 4096 % 16) t2 (omega arith)
            ∙ (read_dump-offset_digit (i / 256 % 16) t1 (omega arith)
                ∙ (read_dump-offset_digit (i / 16 % 16) t0 (omega arith)
                    ∙ read_dump-offset_digit (i % 16) tail (omega arith)))))

read_dump-hex_bytes :
    (bytes : List ℕ) (rest : Text)
    → Bytes bytes
    → read_dump digits (hex_bytes bytes ++ rest) ≡ bytes ++ read_dump digits rest
unfolding hex_bytes
read_dump-hex_bytes [] rest h = refl
read_dump-hex_bytes (b ∷ bytes) rest h =
    read_dump-hex_byte b (hex_bytes bytes ++ rest) h.0
    ∙ ap (λ (bs : List ℕ). b ∷ bs) (read_dump-hex_bytes bytes rest h.1)

-- No printed character ends the line.
read_dump-printable :
    (bytes : List ℕ) (rest : Text)
    → read_dump text (printables bytes ++ (10 ∷ rest)) ≡ read_dump offset rest
unfolding read_dump printables
read_dump-printable [] rest = refl
read_dump-printable (b ∷ bytes) rest =
    let visible : (printable b == 10) ≡ false = ground arith in
    ap (λ (t : Bool). read_dump (if t then offset else text) (printables bytes ++ (10 ∷ rest)))
      (visible)
    ∙ read_dump-printable bytes rest

read_dump-row :
    (i : ℕ) (bytes : List ℕ) (rest : Text)
    → Bytes bytes
    → read_dump offset (row i bytes ++ rest) ≡ bytes ++ read_dump offset rest
unfolding row read_dump
read_dump-row i bytes rest h =
    let tail = printables bytes ++ (10 ∷ rest) in
    let flat : row i bytes ++ rest
        ≡ offset_column i ++ (hex_bytes bytes ++ (32 ∷ 124 ∷ 32 ∷ tail)) =
      simp append_assoc in
    ap (read_dump offset) flat
    ∙ (read_dump-offset_column i (hex_bytes bytes ++ (32 ∷ 124 ∷ 32 ∷ tail))
        ∙ (read_dump-hex_bytes bytes (32 ∷ 124 ∷ 32 ∷ tail) h
            ∙ ap (λ r. bytes ++ r) (read_dump-printable bytes rest)))

Bytes-take : (n : ℕ) (bytes : List ℕ) → Bytes bytes → Bytes (take n bytes)
Bytes-take zero bytes h = tt
Bytes-take (suc n) [] h = tt
Bytes-take (suc n) (b ∷ bytes) h = (h.0, Bytes-take n bytes h.1)

Bytes-drop : (n : ℕ) (bytes : List ℕ) → Bytes bytes → Bytes (drop n bytes)
Bytes-drop zero bytes h = h
Bytes-drop (suc n) [] h = tt
Bytes-drop (suc n) (b ∷ bytes) h = Bytes-drop n bytes h.1

-- The loop's rounds are enough.
read_dump-dump_loop :
    (fuel i : ℕ) (bytes : List ℕ)
    → Bytes bytes
    → length bytes ≤ fuel
    → read_dump offset (dump_loop fuel i bytes) ≡ bytes
unfolding dump_loop read_dump
read_dump-dump_loop zero i [] h enough = refl
read_dump-dump_loop zero i (b ∷ bytes) h enough = absurd (omega arith)
read_dump-dump_loop (suc fuel) i [] h enough = refl
read_dump-dump_loop (suc fuel) i (b ∷ bytes) h enough =
    let all = b ∷ bytes in
    read_dump-row i (take 16 all) (dump_loop fuel (i + 16) (drop 16 all)) (Bytes-take 16 all h)
    ∙ (ap (λ r. take 16 all ++ r)
          (read_dump-dump_loop fuel (i + 16) (drop 16 all) (Bytes-drop 16 all h)
            (omega (arith, length-drop {0} 16 all)))
        ∙ take-append-drop 16 all)

rank_zero : (l : Level) → ltb (rank debug) (rank l) ≡ false → l ≡ debug
rank_zero debug h = refl
rank_zero info h = absurd cc
rank_zero warn h = absurd cc
rank_zero error h = absurd cc
rank_zero critical h = absurd cc
rank_zero (other n) h = absurd (ground (arith, h))

-- With a logger at the debug level, `logger_hexdump` prints for any bytes the label and rows from
-- which the bytes can be read back, all of them and in order: nothing in the character column is taken
-- for a byte. Without a logger, above that level, or with no bytes it prints nothing.
pub logger_hexdump-Bytes :
    (s : State) (timestamp label : Text) (bytes : List ℕ)
    → Bytes bytes
    → ((c : Config) × (s.global_logger ≡ some c)
        × (c.min_level ≡ debug)
        × (bytes ≢ [])
        × ((rows : Text) × (logger_hexdump timestamp label (some bytes) s
              ≡ emit
                  (colored c (get_color_code debug)
                    ++ (stamped c timestamp
                        ++ (print c.output_file (codes "[HEXDUMP] " ++ (label ++ codes ":\n"))
                            ∷ print c.output_file rows
                            ∷ (colored c no_color ++ (flush c.output_file ∷ [])))))
                  s)
            × (read_dump offset rows ≡ bytes)))
      ⊎ (((s.global_logger ≡ none)
            ⊎ (((c : Config) × (s.global_logger ≡ some c) × (c.min_level ≢ debug)) ⊎ (bytes ≡ [])))
          × (logger_hexdump timestamp label (some bytes) s ≡ s))
unfolding logger_hexdump
logger_hexdump-Bytes s timestamp label [] h = inr (inr (inr refl), ground arith)
logger_hexdump-Bytes s timestamp label (b ∷ bytes) h = elim (Option-cases s.global_logger) [
  | inl e ↦ inr (inl e, rw e refl)
  | inr (c, e) ↦ elim (Bool-cases (ltb (rank debug) (rank c.min_level))) [
    | inl above ↦ inr (inr (inl (c, e, λ d. ground (arith, d, above))), ground (arith, e, above))
    | inr at ↦ inl (
      c,
      e,
      rank_zero c.min_level at,
      λ d. cc,
      (
        dump_loop (suc (length bytes)) 0 (b ∷ bytes),
        ground (arith, e, at),
        read_dump-dump_loop (suc (length bytes)) 0 (b ∷ bytes) h (omega arith),
      ),
    )
  ]
]
