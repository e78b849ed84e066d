-- ===== src/Regression/JsonTests.antt =====
-- Small baseline files, and the theorems on extraction and loading at these.
use packet_analyzer.Prelude.{◌≡◌, refl, some, [], ◌∷◌, ◌++◌}
use packet_analyzer.Metrics.Metadata.{Text}
use packet_analyzer.Regression.Json.{
  quote, skip_whitespace, strip_prefix, behind, find_value, copy_string, json_extract_string,
  json_extract_uint64, read_digits, strtoull,
}
use packet_analyzer.Regression.Extract.{member}
use packet_analyzer.Regression.Keys.{filter_key, p95_key}

abbrev icmp : Text
icmp = b'i' ∷ b'c' ∷ b'm' ∷ b'p' ∷ []

-- {"filter": "icmp"}
abbrev filter_file : Text
filter_file = member (b'{' ∷ []) filter_key [] (b' ' ∷ []) (quote ∷ (icmp ++ (quote ∷ (b'}' ∷ []))))

filter_read : json_extract_string filter_file filter_key 64 ≡ some icmp
unfolding json_extract_string find_value behind strip_prefix skip_whitespace copy_string
filter_read = refl

-- {"p95" : 4500}
abbrev p95_file : Text
p95_file =
    member (b'{' ∷ []) p95_key (b' ' ∷ []) (b' ' ∷ [])
      (b'4' ∷ ((b'5' ∷ b'0' ∷ b'0' ∷ []) ++ (b'}' ∷ [])))

p95_read : json_extract_uint64 p95_file p95_key ≡ some 4500
unfolding json_extract_uint64 find_value behind strip_prefix skip_whitespace read_digits strtoull
p95_read = refl
