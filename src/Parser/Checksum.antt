-- ===== src/Parser/Checksum.antt =====
-- `validate_ipv4_checksum` against the arithmetic of ones' complement sums, modulo 65535.
use packet_analyzer.Prelude.{
  ℕ, zero, suc, ◌+◌, ◌-◌, ◌*◌, ◌/◌, ◌%◌, ◌^◌, ◌≤◌, ◌<◌, ◌≡◌, ◌↔◌, refl, none, some, List, arith,
  ltb, ◌&&◌, ◌==◌, if◌then◌else◌, length, u16, u32, ap, dec_lt,
}
use packet_analyzer.Packet.Headers.{ntohs, load16, byte_at}
use packet_analyzer.Parser.{word?, sum_words, fold, validate_ipv4_checksum}

-- The carry loop ends within two rounds. Its result fits 16 bits, is the sum modulo 65535, and is 0
-- for the sum 0 only.
pub fold_lem :
    (sum : ℕ)
    → sum < 2 ^ 32
    → (r : ℕ) × (fold 3 sum ≡ some r)
      × (r < 65536)
      × (r % 65535 ≡ sum % 65535)
      × ((r ≡ 0) ↔ (sum ≡ 0))
unfolding fold
fold_lem sum h =
    let once = λ (s : ℕ). s % 65536 + s / 65536 in
    elim (dec_lt sum 65536) [
      | yes p ↦ (sum, ground arith, p, refl, (λ e. e, λ e. e))
      | no p ↦ elim (dec_lt (once sum) 65536) [
        | yes q ↦ (once sum, ground arith, q, omega arith, (λ e. omega arith, λ e. omega arith))
        | no q ↦ (
          once (once sum),
          ground arith,
          omega arith,
          omega arith,
          (λ e. omega arith, λ e. omega arith),
        )
      ]
    ]

-- The sum that the standard asks for: the first `n` words in network order, but for word 5.
abbrev pub word_sum : List ℕ → ℕ → ℕ
word_sum bytes zero = 0
word_sum bytes (suc n) = word_sum bytes n + (if n == 5 then 0 else ntohs (load16 bytes (2 * n)))

ntohs-lt : (n : ℕ) → ntohs n < 65536
unfolding ntohs
ntohs-lt n = omega arith

word_sum-le : (bytes : List ℕ) (n : ℕ) → word_sum bytes n ≤ n * 65535
word_sum-le bytes zero = omega arith
word_sum-le bytes (suc n) = ground (arith, word_sum-le bytes n, ntohs-lt (load16 bytes (2 * n)))

sum_words_lem :
    (bytes : List ℕ) (n i k : ℕ)
    → i + n ≡ k
    → k ≤ 30
    → 2 * k ≤ length bytes
    → sum_words bytes n i (word_sum bytes i) ≡ some (word_sum bytes k)
unfolding sum_words word?
sum_words_lem bytes zero i k e small long =
    let i0 : i ≡ k = omega arith in ap (λ j. some (word_sum bytes j)) i0
sum_words_lem bytes (suc n) i k e small long =
    let s : i + 1 ≡ suc i = omega arith in
    let ih = sum_words_lem bytes n (suc i) k (omega arith) small long in
    let low = word_sum-le bytes i in
    let word = ntohs-lt (load16 bytes (2 * i)) in ground (arith, s, ih, low, word)

-- The number of 16-bit words that the header counts, and its checksum.
abbrev pub words : List ℕ → ℕ
words bytes = byte_at bytes 0 % 16 * 2

abbrev pub checksum : List ℕ → ℕ
checksum bytes = ntohs (load16 bytes 10)

word_sum-ge_first : (bytes : List ℕ) (n : ℕ) → 0 < n → ntohs (load16 bytes 0) ≤ word_sum bytes n
word_sum-ge_first bytes zero h = elim h [ ]
word_sum-ge_first bytes (suc zero) h = omega arith
word_sum-ge_first bytes (suc (suc n)) h =
    omega (arith, word_sum-ge_first bytes (suc n) (omega arith))

ntohs_pos : (a b : ℕ) → 0 < a → a < 256 → 0 < ntohs (a + b * 256)
unfolding ntohs
ntohs_pos a b h k = omega arith

-- Folded sum plus checksum is all ones exactly when the whole sum vanishes modulo 65535.
complement_iff :
    (r sum c : ℕ)
    → r < 65536
    → c < 65536
    → r % 65535 ≡ sum % 65535
    → ((r ≡ 0) ↔ (sum ≡ 0))
    → 0 < sum
    → ((65535 - u16 r) == c) ≡ (ltb c 65535 && ((sum + c) % 65535 == 0))
complement_iff r sum c hr hc e z pos = ground arith

-- A header of at least one 32-bit word that lies inside its memory is never read out of bounds. It is
-- accepted exactly when the ones' complement sum of its words, the checksum among them, vanishes
-- modulo 65535 and the checksum is not 0xFFFF.
pub validate_lem :
    (bytes : List ℕ)
    → byte_at bytes 0 < 256
    → 0 < byte_at bytes 0 % 16
    → 20 ≤ length bytes
    → 2 * words bytes ≤ length bytes
    → validate_ipv4_checksum (some bytes)
      ≡ some (
          ltb (checksum bytes) 65535
          && ((word_sum bytes (words bytes) + checksum bytes) % 65535 == 0))
unfolding validate_ipv4_checksum word?
validate_lem bytes byte pos long inside =
    let w = words bytes in
    let total = word_sum bytes w in
    let summed = sum_words_lem bytes w 0 w (omega arith) (omega arith) inside in
    let fits : total < 2 ^ 32 = omega (arith, word_sum-le bytes w) in
    let (r, folded, small, same, zeros) = fold_lem total fits in
    let first = ntohs_pos (byte_at bytes 0) (byte_at bytes 1) (omega arith) byte in
    let positive : 0 < total = omega (arith, word_sum-ge_first bytes w (omega arith)) in
    let test =
      complement_iff r total (checksum bytes) small (ntohs-lt (load16 bytes 10)) same zeros
        positive in
    rw (summed, folded) (ground (arith, test))

-- In the 20 bytes of the structure, word 10 is the first that is not there.
sum_words-none :
    (bytes : List ℕ) (n i sum : ℕ)
    → length bytes ≡ 20
    → i ≤ 10
    → 10 < i + n
    → sum_words bytes n i sum ≡ none
unfolding sum_words word?
sum_words-none bytes zero i sum e h k = absurd (omega arith)
sum_words-none bytes (suc n) i sum e h k =
    let next =
      λ (s : ℕ) (lt : i < 10). sum_words-none bytes n (i + 1) s e (omega arith) (omega arith) in
    ground (arith, next sum, next (u32 (sum + ntohs (load16 bytes (2 * i)))))

-- Of a header structure of 20 bytes the validation reads past the end exactly when the header
-- counts more than five 32-bit words, that is when it has options.
pub validate-none :
    (bytes : List ℕ)
    → length bytes ≡ 20
    → (validate_ipv4_checksum (some bytes) ≡ none) ↔ (5 < byte_at bytes 0 % 16)
unfolding validate_ipv4_checksum word?
validate-none bytes e =
    let w = words bytes in
    elim (dec_lt 5 (byte_at bytes 0 % 16)) [
      | yes long ↦
          let gone = sum_words-none bytes w 0 0 e (omega arith) (omega arith) in
          (λ h. long, λ h. rw gone refl)
      | no short ↦
          let summed = sum_words_lem bytes w 0 w (omega arith) (omega arith) (omega arith) in
          let fits : word_sum bytes w < 2 ^ 32 = omega (arith, word_sum-le bytes w) in
          let (r, folded, _, _, _) = fold_lem (word_sum bytes w) fits in
          (λ h. ground (arith, summed, folded), λ h. absurd (short h))
    ]
