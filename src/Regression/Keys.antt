-- ===== src/Regression/Keys.antt =====
-- The keys of a baseline file that src/regression.c looks for.
use packet_analyzer.Prelude.{[], ◌∷◌}
use packet_analyzer.Metrics.Metadata.{Text}

abbrev pub elapsed_sec_key : Text
elapsed_sec_key = b'e' ∷ b'l' ∷ b'a' ∷ b'p' ∷ b's' ∷ b'e' ∷ b'd' ∷ b'_' ∷ b's' ∷ b'e' ∷ b'c' ∷ []

abbrev pub processed_key : Text
processed_key = b'p' ∷ b'r' ∷ b'o' ∷ b'c' ∷ b'e' ∷ b's' ∷ b's' ∷ b'e' ∷ b'd' ∷ []

abbrev pub rate_pps_key : Text
rate_pps_key = b'r' ∷ b'a' ∷ b't' ∷ b'e' ∷ b'_' ∷ b'p' ∷ b'p' ∷ b's' ∷ []

abbrev pub bytes_processed_key : Text
bytes_processed_key =
    b'b' ∷ b'y' ∷ b't' ∷ b'e' ∷ b's' ∷ b'_' ∷ b'p' ∷ b'r' ∷ b'o' ∷ b'c' ∷ b'e' ∷ b's' ∷ b's' ∷ b'e'
    ∷ b'd' ∷ []

abbrev pub bytes_key : Text
bytes_key = b'b' ∷ b'y' ∷ b't' ∷ b'e' ∷ b's' ∷ []

abbrev pub rate_mbps_key : Text
rate_mbps_key = b'r' ∷ b'a' ∷ b't' ∷ b'e' ∷ b'_' ∷ b'm' ∷ b'b' ∷ b'p' ∷ b's' ∷ []

abbrev pub p95_key : Text
p95_key = b'p' ∷ b'9' ∷ b'5' ∷ []

abbrev pub queue_drops_key : Text
queue_drops_key = b'q' ∷ b'u' ∷ b'e' ∷ b'u' ∷ b'e' ∷ b'_' ∷ b'd' ∷ b'r' ∷ b'o' ∷ b'p' ∷ b's' ∷ []

abbrev pub capture_drops_key : Text
capture_drops_key =
    b'c' ∷ b'a' ∷ b'p' ∷ b't' ∷ b'u' ∷ b'r' ∷ b'e' ∷ b'_' ∷ b'd' ∷ b'r' ∷ b'o' ∷ b'p' ∷ b's' ∷ []

abbrev pub captured_key : Text
captured_key = b'c' ∷ b'a' ∷ b'p' ∷ b't' ∷ b'u' ∷ b'r' ∷ b'e' ∷ b'd' ∷ []

abbrev pub metadata_key : Text
metadata_key = b'm' ∷ b'e' ∷ b't' ∷ b'a' ∷ b'd' ∷ b'a' ∷ b't' ∷ b'a' ∷ []

abbrev pub interface_key : Text
interface_key = b'i' ∷ b'n' ∷ b't' ∷ b'e' ∷ b'r' ∷ b'f' ∷ b'a' ∷ b'c' ∷ b'e' ∷ []

abbrev pub filter_key : Text
filter_key = b'f' ∷ b'i' ∷ b'l' ∷ b't' ∷ b'e' ∷ b'r' ∷ []

abbrev pub os_key : Text
os_key = b'o' ∷ b's' ∷ []

abbrev pub git_sha_key : Text
git_sha_key = b'g' ∷ b'i' ∷ b't' ∷ b'_' ∷ b's' ∷ b'h' ∷ b'a' ∷ []

abbrev pub threads_key : Text
threads_key = b't' ∷ b'h' ∷ b'r' ∷ b'e' ∷ b'a' ∷ b'd' ∷ b's' ∷ []

abbrev pub bpf_buffer_size_key : Text
bpf_buffer_size_key =
    b'b' ∷ b'p' ∷ b'f' ∷ b'_' ∷ b'b' ∷ b'u' ∷ b'f' ∷ b'f' ∷ b'e' ∷ b'r' ∷ b'_' ∷ b's' ∷ b'i' ∷ b'z'
    ∷ b'e' ∷ []

abbrev pub duration_sec_key : Text
duration_sec_key =
    b'd' ∷ b'u' ∷ b'r' ∷ b'a' ∷ b't' ∷ b'i' ∷ b'o' ∷ b'n' ∷ b'_' ∷ b's' ∷ b'e' ∷ b'c' ∷ []

abbrev pub warmup_sec_key : Text
warmup_sec_key = b'w' ∷ b'a' ∷ b'r' ∷ b'm' ∷ b'u' ∷ b'p' ∷ b'_' ∷ b's' ∷ b'e' ∷ b'c' ∷ []

abbrev pub traffic_mode_key : Text
traffic_mode_key =
    b't' ∷ b'r' ∷ b'a' ∷ b'f' ∷ b'f' ∷ b'i' ∷ b'c' ∷ b'_' ∷ b'm' ∷ b'o' ∷ b'd' ∷ b'e' ∷ []

abbrev pub traffic_target_key : Text
traffic_target_key =
    b't' ∷ b'r' ∷ b'a' ∷ b'f' ∷ b'f' ∷ b'i' ∷ b'c' ∷ b'_' ∷ b't' ∷ b'a' ∷ b'r' ∷ b'g' ∷ b'e' ∷ b't'
    ∷ []

abbrev pub traffic_rate_key : Text
traffic_rate_key =
    b't' ∷ b'r' ∷ b'a' ∷ b'f' ∷ b'f' ∷ b'i' ∷ b'c' ∷ b'_' ∷ b'r' ∷ b'a' ∷ b't' ∷ b'e' ∷ []
