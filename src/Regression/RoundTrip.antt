-- ===== src/Regression/RoundTrip.antt =====
-- A file that `metrics_snapshot_json` of src/metrics.c writes, read by `regression_load_baseline` of
-- src/regression.c.
use packet_analyzer.Prelude.{
  ℕ, zero, suc, ◌≤◌, ◌≡◌, ◌∙◌, ap, sym, refl, arith, Bool, true, false, ◌||◌, some, List, [], ◌∷◌,
  take, drop, length,
}
use packet_analyzer.Prelude.Int.{ℤ}
use packet_analyzer.Metrics.Metadata.{Text, Metadata}
use packet_analyzer.Metrics.Json.{
  Line, section, uint, int, real, string, item, bare, written, render, metadata_lines,
}
use packet_analyzer.Regression.Json.{json_extract_string, json_extract_int}
use packet_analyzer.Regression.Keys.{
  metadata_key, interface_key, filter_key, os_key, git_sha_key, threads_key, bpf_buffer_size_key,
  duration_sec_key, warmup_sec_key, traffic_mode_key, traffic_target_key, traffic_rate_key,
  bytes_processed_key,
}
use packet_analyzer.Regression.Load.{metadata_of}
use packet_analyzer.Regression.Numbers.{IsInt}
use packet_analyzer.Regression.Lines.{no_quote, is_equal}
use packet_analyzer.Regression.Documents.{
  all_differ, AllFree, Searched, json_extract_int-written, json_extract_string-written,
}

-- The keys that are looked for among the metadata or beyond them.
abbrev pub is_searched_key : Text → Bool
is_searched_key t =
    is_equal interface_key t
    || is_equal filter_key t
    || is_equal os_key t
    || is_equal git_sha_key t
    || is_equal threads_key t
    || is_equal bpf_buffer_size_key t
    || is_equal duration_sec_key t
    || is_equal warmup_sec_key t
    || is_equal traffic_mode_key t
    || is_equal traffic_target_key t
    || is_equal traffic_rate_key t
    || is_equal bytes_processed_key t

-- A string without quotes that fits its array and is not one of those keys.
abbrev pub IsStored : Text → Type 0
IsStored t = (no_quote t ≡ true) × (length t ≤ 63) × (is_searched_key t ≡ false)

pub record Writable (m : Metadata) : Type 0 where
  pub interface : IsStored m.interface
  pub filter : IsStored m.filter
  pub os : IsStored m.os
  pub git_sha : IsStored m.git_sha
  pub traffic_mode : IsStored m.traffic_mode
  pub traffic_target : IsStored m.traffic_target
  pub threads : IsInt m.threads
  pub bpf_buffer_size : IsInt m.bpf_buffer_size
  pub duration_sec : IsInt m.duration_sec
  pub warmup_sec : IsInt m.warmup_sec
  pub traffic_rate : IsInt m.traffic_rate
  pub valid : m.valid ≡ true

-- A key that is sure to differ from every stored string.
abbrev pub Distinguished : Text → Type 0
Distinguished key = Searched key × ((t : Text) → is_searched_key t ≡ false → is_equal key t ≡ false)

unfoldable pub metadata_document : Metadata → List Line
metadata_document m = section 0 metadata_key 123 ∷ metadata_lines m

pub AllFree-take :
    (key : Text) (n : ℕ) (lines : List Line) → AllFree key lines → AllFree key (take n lines)
AllFree-take key zero lines f = tt
AllFree-take key (suc n) [] f = f
AllFree-take key (suc n) (real i other value last ∷ lines) f = (f.0, AllFree-take key n lines f.1)
AllFree-take key (suc n) (string i other value last ∷ lines) f = (f.0, AllFree-take key n lines f.1)
AllFree-take key (suc n) (section i other bracket ∷ lines) f = AllFree-take key n lines f
AllFree-take key (suc n) (uint i other value last ∷ lines) f = AllFree-take key n lines f
AllFree-take key (suc n) (int i other value last ∷ lines) f = AllFree-take key n lines f
AllFree-take key (suc n) (item value last ∷ lines) f = AllFree-take key n lines f
AllFree-take key (suc n) (bare text ∷ lines) f = AllFree-take key n lines f

pub metadata-AllFree :
    (key : Text) (m : Metadata) → Distinguished key → Writable m → AllFree key (metadata_document m)
unfolding metadata_document
metadata-AllFree key m k w = (
  (w.interface.0, k.1 _ w.interface.2),
  (
    (w.filter.0, k.1 _ w.filter.2),
    (
      (w.traffic_mode.0, k.1 _ w.traffic_mode.2),
      (
        (w.traffic_target.0, k.1 _ w.traffic_target.2),
        ((w.os.0, k.1 _ w.os.2), ((w.git_sha.0, k.1 _ w.git_sha.2), tt)),
      ),
    ),
  ),
)

-- The text from the key "metadata" on.
abbrev pub metadata_text : Metadata → Text
metadata_text m = written (metadata_document m) []

string_found :
    (m : Metadata) (key value : Text) (n : ℕ) (last : Bool)
    → Distinguished key
    → Writable m
    → all_differ key (take n (metadata_document m)) ≡ true
    → IsStored value
    → written (metadata_document m) []
      ≡ written
          (take n (metadata_document m))
          (render (string 4 key value last) (written (drop (suc n) (metadata_document m)) []))
    → json_extract_string (metadata_text m) key 64 ≡ some value
string_found m key value n last k w d stored e =
    ap (λ (t : Text). json_extract_string t key 64) e
    ∙ json_extract_string-written key _ 4 value last (take n (metadata_document m)) k.0 d
        (AllFree-take key n (metadata_document m) (metadata-AllFree key m k w)) stored.0 stored.1

int_found :
    (m : Metadata) (key : Text) (value : ℤ) (n : ℕ) (last : Bool)
    → Distinguished key
    → Writable m
    → all_differ key (take n (metadata_document m)) ≡ true
    → IsInt value
    → written (metadata_document m) []
      ≡ written
          (take n (metadata_document m))
          (render (int 4 key value last) (written (drop (suc n) (metadata_document m)) []))
    → json_extract_int (metadata_text m) key ≡ some value
int_found m key value n last k w d small e =
    ap (λ (t : Text). json_extract_int t key) e
    ∙ json_extract_int-written key _ 4 value last (take n (metadata_document m)) k.0 d
        (AllFree-take key n (metadata_document m) (metadata-AllFree key m k w)) small

metadata_of-fields :
    (text : Text) (m : Metadata)
    → m.valid ≡ true
    → json_extract_string text interface_key 64 ≡ some m.interface
    → json_extract_string text filter_key 64 ≡ some m.filter
    → json_extract_string text os_key 64 ≡ some m.os
    → json_extract_string text git_sha_key 64 ≡ some m.git_sha
    → json_extract_string text traffic_mode_key 64 ≡ some m.traffic_mode
    → json_extract_string text traffic_target_key 64 ≡ some m.traffic_target
    → json_extract_int text threads_key ≡ some m.threads
    → json_extract_int text bpf_buffer_size_key ≡ some m.bpf_buffer_size
    → json_extract_int text duration_sec_key ≡ some m.duration_sec
    → json_extract_int text warmup_sec_key ≡ some m.warmup_sec
    → json_extract_int text traffic_rate_key ≡ some m.traffic_rate
    → metadata_of text ≡ m
unfolding metadata_of
metadata_of-fields text m v e1 e2 e3 e4 e5 e6 e7 e8 e9 e10 e11 =
    rw (e1, e2, e3, e4, e5, e6, e7, e8, e9, e10, e11)
      (ap (λ (b : Bool). record m { valid = b }) (sym v))

none_of :
    (a b c d e f g h i j k l : Bool)
    → a || b || c || d || e || f || g || h || i || j || k || l ≡ false
    → (a ≡ false)
      × (b ≡ false)
      × (c ≡ false)
      × (d ≡ false)
      × (e ≡ false)
      × (f ≡ false)
      × (g ≡ false)
      × (h ≡ false)
      × (i ≡ false)
      × (j ≡ false)
      × (k ≡ false)
      × (l ≡ false)
none_of a b c d e f g h i j k l n = ground (arith, n)

pub no_key :
    (t : Text)
    → is_searched_key t ≡ false
    → (is_equal interface_key t ≡ false)
      × (is_equal filter_key t ≡ false)
      × (is_equal os_key t ≡ false)
      × (is_equal git_sha_key t ≡ false)
      × (is_equal threads_key t ≡ false)
      × (is_equal bpf_buffer_size_key t ≡ false)
      × (is_equal duration_sec_key t ≡ false)
      × (is_equal warmup_sec_key t ≡ false)
      × (is_equal traffic_mode_key t ≡ false)
      × (is_equal traffic_target_key t ≡ false)
      × (is_equal traffic_rate_key t ≡ false)
      × (is_equal bytes_processed_key t ≡ false)
no_key t h = none_of _ _ _ _ _ _ _ _ _ _ _ _ h

pub metadata_of-written : (m : Metadata) → Writable m → metadata_of (metadata_text m) ≡ m
unfolding metadata_document written
metadata_of-written m w =
    metadata_of-fields (metadata_text m) m w.valid
      (string_found m interface_key m.interface 1 false ((refl, refl), λ t h. (no_key t h).0) w refl
        w.interface refl)
      (string_found m filter_key m.filter 2 false ((refl, refl), λ t h. (no_key t h).1) w refl
        w.filter refl)
      (string_found m os_key m.os 10 false ((refl, refl), λ t h. (no_key t h).2) w refl w.os refl)
      (string_found m git_sha_key m.git_sha 11 true ((refl, refl), λ t h. (no_key t h).3) w refl
        w.git_sha refl)
      (string_found m traffic_mode_key m.traffic_mode 7 false ((refl, refl), λ t h. (no_key t h).8)
        w refl w.traffic_mode refl)
      (string_found m traffic_target_key m.traffic_target 8 false
        ((refl, refl), λ t h. (no_key t h).9) w refl w.traffic_target refl)
      (int_found m threads_key m.threads 3 false ((refl, refl), λ t h. (no_key t h).4) w refl
        w.threads refl)
      (int_found m bpf_buffer_size_key m.bpf_buffer_size 4 false
        ((refl, refl), λ t h. (no_key t h).5) w refl w.bpf_buffer_size refl)
      (int_found m duration_sec_key m.duration_sec 5 false ((refl, refl), λ t h. (no_key t h).6) w
        refl w.duration_sec refl)
      (int_found m warmup_sec_key m.warmup_sec 6 false ((refl, refl), λ t h. (no_key t h).7) w refl
        w.warmup_sec refl)
      (int_found m traffic_rate_key m.traffic_rate 9 false ((refl, refl), λ t h. (no_key t h).10) w
        refl w.traffic_rate refl)
