-- ===== src/Regression/Reload.antt =====
-- The whole of a file written by src/metrics.c, as src/regression.c loads it.
use packet_analyzer.Prelude.{
  ℕ, if◌then◌else◌, ◌>>=◌, u64, ◌+◌, ap₂, suc, ◌<◌, ◌^◌, ◌≡◌, ◌∙◌, ap, refl, arith, Bool, true,
  false, ◌&&◌, ◌||◌, Option, none, some, List, [], ◌∷◌, ltb, ◌==◌, take, drop, codes, lt→ltb,
}
use packet_analyzer.Floating.{Floating}
use packet_analyzer.Metrics.Counters.{Metrics}
use packet_analyzer.Metrics.Metadata.{Text, Metadata}
use packet_analyzer.Metrics.Snapshot.{Snapshot, snapshot, percentile_ns}
use packet_analyzer.Metrics.Json.{
  Line, section, uint, bare, written, render, histogram_lines, metadata_lines, counter_lines,
  rate_pps, rate_mbps, snapshot_text, snapshot_json,
}
use packet_analyzer.Regression.Baseline.{Baseline}
use packet_analyzer.Regression.Json.{
  behind, strip_prefix, find_value, at_value, skip_whitespace, strtoull, unquoted,
  json_extract_uint64, is_digit,
}
use packet_analyzer.Regression.Keys.{
  captured_key, bytes_key, bytes_processed_key, processed_key, p95_key, queue_drops_key,
  capture_drops_key, metadata_key,
}
use packet_analyzer.Regression.Load.{
  bytes_of, drop_rate_of, strstr, quoted, metadata_of, baseline_of, load_baseline, or_zero,
  no_metadata,
}
use packet_analyzer.Regression.Lines.{no_quote, is_equal, is_key}
use packet_analyzer.Regression.Documents.{
  all_differ, AllFree, Searched, behind-written, behind-written_found, all_differ-histogram_lines,
  json_extract_uint64-written, strstr-behind,
}
use packet_analyzer.Regression.NestedBytes.{nested_bytes-written}
use packet_analyzer.Regression.RoundTrip.{
  no_key, metadata-AllFree, Writable, AllFree-take, metadata_text, metadata_document,
  metadata_of-written,
}

-- What `printf` writes for a finite `double`: digits, a point and a sign.
abbrev pub is_numeral : Text → Bool
is_numeral [] = true
is_numeral (c ∷ text) = (is_digit c || c == 45 || c == 46) && is_numeral text

is_numeral-no_quote : (t : Text) → is_numeral t ≡ true → no_quote t ≡ true
is_numeral-no_quote [] h = refl
is_numeral-no_quote (c ∷ t) h = ground (arith, h, is_numeral-no_quote t)

is_numeral-is_equal :
    (key t : Text) → is_key key ≡ true → is_numeral t ≡ true → is_equal key t ≡ false
is_numeral-is_equal [] t k h = absurd cc
is_numeral-is_equal (b ∷ key) [] k h = refl
is_numeral-is_equal (b ∷ key) (c ∷ t) k h = ground (arith, k, h)

or_true : (a b : Bool) → b ≡ true → a || b ≡ true
or_true a b h = ground (arith, h)

module _ (F : Floating) (format : ℕ → F.Double → Text) where
  open F use {Double, of_u64, div, lt}

  -- The doubles of a snapshot that are written.
  pub record Finite (s : Snapshot Double) : Type 0 where
    pub timestamp :
        is_numeral (format 3 (div (of_u64 s.snapshot_time_ns) (of_u64 1000000000))) ≡ true
    pub elapsed : is_numeral (format 3 s.elapsed_sec) ≡ true
    pub capture_elapsed : is_numeral (format 3 s.capture_elapsed_sec) ≡ true
    pub pps : is_numeral (format 2 (rate_pps F format s)) ≡ true
    pub mbps : is_numeral (format 4 (rate_mbps F format s)) ≡ true

  counters-AllFree :
      (key : Text) (s : Snapshot Double) (half ninety_five ninety_nine : Double)
      → is_key key ≡ true
      → Finite s
      → AllFree key (counter_lines F format s half ninety_five ninety_nine)
  counters-AllFree key s half ninety_five ninety_nine k f =
      let stamp = format 3 (div (of_u64 s.snapshot_time_ns) (of_u64 1000000000)) in
      (
        (is_numeral-no_quote stamp f.timestamp, is_numeral-is_equal key stamp k f.timestamp),
        (
          is_numeral-no_quote (format 3 s.elapsed_sec) f.elapsed,
          (
            is_numeral-no_quote (format 3 s.capture_elapsed_sec) f.capture_elapsed,
            (
              is_numeral-no_quote (format 2 (rate_pps F format s)) f.pps,
              (is_numeral-no_quote (format 4 (rate_mbps F format s)) f.mbps, tt),
            ),
          ),
        ),
      )

  -- The part of the captured packets, if there are any.
  abbrev pub drops_per : ℕ → ℕ → Double
  drops_per drops captured =
      if ltb 0 captured then div (of_u64 drops) (of_u64 captured) else of_u64 0

  -- The fields that are read back.
  abbrev pub Reloaded : Snapshot Double → Double → Metadata → Baseline Double → Type 0
  Reloaded s ninety_five m b =
      (b.pkts_processed ≡ s.pkts_processed)
      × (b.bytes_processed ≡ s.bytes_processed)
      × (b.latency_p95_ns ≡ percentile_ns F (some s) ninety_five)
      × (b.queue_drops ≡ s.queue_drops)
      × (b.capture_drops ≡ s.capture_drops)
      × (b.drop_rate ≡ drops_per (u64 (s.queue_drops + s.capture_drops)) s.pkts_captured)
      × (b.metadata ≡ m)
      × (b.valid ≡ true)

  module _ (s : Snapshot Double) (half ninety_five ninety_nine : Double) (m : Metadata)
      (f : Finite s) where
    abbrev lines : List Line
    lines = counter_lines F format s half ninety_five ninety_nine

    -- What follows the counters.
    abbrev tail : Text
    tail =
        written (histogram_lines 0 s.latency_histogram)
          (written (bare (codes "  ],\n") ∷ section 2 (codes "metadata") 123 ∷ metadata_lines m) [])

    abbrev text : Text
    text = snapshot_text F format s half ninety_five ninety_nine m

    counter_found :
        (key : Text) (value n : ℕ) (last : Bool)
        → Searched key
        → all_differ key (take n lines) ≡ true
        → value < 2 ^ 64
        → written lines tail
          ≡ written
              (take n lines)
              (render (uint 4 key value last) (written (drop (suc n) lines) tail))
        → json_extract_uint64 text key ≡ some value
    unfolding snapshot_text
    counter_found key value n last k d small e =
        ap (λ (t : Text). json_extract_uint64 t key) e
        ∙ json_extract_uint64-written key (written (drop (suc n) lines) tail) 4 value last
            (take n lines) k d
            (AllFree-take key n lines (counters-AllFree key s half ninety_five ninety_nine k.0 f))
            small

    metadata_found : strstr (quoted metadata_key) text ≡ some (metadata_text m)
    unfolding snapshot_text metadata_document written render
    metadata_found =
        let histogram = all_differ-histogram_lines metadata_key 0 s.latency_histogram in
        let rest = 123 ∷ 10 ∷ written (metadata_lines m) [] in
        let found =
          behind-written metadata_key tail lines refl refl
            (counters-AllFree metadata_key s half ninety_five ninety_nine refl f)
          ∙ (behind-written metadata_key _ (histogram_lines 0 s.latency_histogram) refl histogram.0
                histogram.1
              ∙ behind-written_found metadata_key rest 2 (bare (codes "  ],\n") ∷ []) refl refl
                  tt) in
        strstr-behind (quoted metadata_key) text (58 ∷ 32 ∷ rest) found

    bytes_processed_absent : Writable m → json_extract_uint64 text bytes_processed_key ≡ none
    unfolding json_extract_uint64 find_value snapshot_text behind strip_prefix metadata_document
    bytes_processed_absent w =
        let key = bytes_processed_key in
        let histogram = all_differ-histogram_lines key 0 s.latency_histogram in
        let free = metadata-AllFree key m ((refl, refl), λ t h. (no_key t h).11) w in
        let absent =
          behind-written key tail lines refl refl
            (counters-AllFree key s half ninety_five ninety_nine refl f)
          ∙ (behind-written key _ (histogram_lines 0 s.latency_histogram) refl histogram.0
                histogram.1
              ∙ behind-written key []
                  (bare (codes "  ],\n") ∷ section 2 (codes "metadata") 123 ∷ metadata_lines m) refl
                  refl free) in
        ap
          (λ (o : Option Text).
            (o >>= λ rest. at_value (skip_whitespace rest)) >>= λ t. some (strtoull (unquoted t)))
          absent

    bytes_found : Writable m → s.bytes_processed < 2 ^ 64 → bytes_of text ≡ s.bytes_processed
    unfolding bytes_of snapshot_text written
    bytes_found w small =
        rw (bytes_processed_absent w, bytes_of)
          (nested_bytes-written (take 9 lines) s.bytes_captured s.bytes_processed
            (written (drop 12 lines) tail) refl
            (AllFree-take bytes_key 9 lines
              (counters-AllFree bytes_key s half ninety_five ninety_nine refl f))
            small)

    reloaded :
        (strtod : Text → Double)
        → Writable m
        → 0 < s.pkts_processed
        → s.pkts_processed < 2 ^ 64
        → s.pkts_captured < 2 ^ 64
        → s.bytes_processed < 2 ^ 64
        → s.queue_drops < 2 ^ 64
        → s.capture_drops < 2 ^ 64
        → percentile_ns F (some s) ninety_five < 2 ^ 64
        → Reloaded s ninety_five m (baseline_of F strtod text)
    unfolding baseline_of drop_rate_of written
    reloaded strtod w positive processed captured bytes queue capture p95 =
        let pkts =
          counter_found processed_key s.pkts_processed 6 false (refl, refl) refl processed refl in
        let latency =
          counter_found p95_key (percentile_ns F (some s) ninety_five) 41 false (refl, refl) refl
            p95 refl in
        let queued =
          counter_found queue_drops_key s.queue_drops 17 false (refl, refl) refl queue refl in
        let dropped =
          counter_found capture_drops_key s.capture_drops 18 true (refl, refl) refl capture refl in
        let taken =
          counter_found captured_key s.pkts_captured 5 false (refl, refl) refl captured refl in
        (
          ap or_zero pkts,
          bytes_found w bytes,
          ap or_zero latency,
          ap or_zero queued,
          ap or_zero dropped,
          ap₂ drops_per (ap₂ (λ (a b : ℕ). u64 (a + b)) (ap or_zero queued) (ap or_zero dropped))
              (ap or_zero taken),
          ap
                (λ (o : Option Text). elim o as (λ x. Metadata) [
                  | none ↦ no_metadata
                  | some t ↦ metadata_of t
                ])
                metadata_found
              ∙ metadata_of-written m w,
          or_true _ _
              (ap (λ (o : Option ℕ). ltb 0 (or_zero o)) pkts ∙ lt→ltb 0 s.pkts_processed positive),
        )

  -- What `metrics_snapshot_json` has written, `regression_load_baseline` accepts as a baseline with the
  -- same numbers of processed packets and bytes, 95th percentile, queue drops, capture drops and
  -- metadata, and with the drops over the captured packets as its drop rate. It does so if packets were
  -- processed, no count exceeds 64 bits, the doubles that are printed are finite, and the metadata are
  -- numbers of the range of `int` and strings without quotes that fit their arrays and are none of
  -- the twelve keys that are looked for. It does not matter what `strtod` makes of the printed rates.
  pub load_baseline-snapshot_json :
      (strtod : Text → Double) (c : Metrics) (now_ns : ℕ) (half ninety_five ninety_nine : Double)
      (m : Metadata)
      → let s = snapshot F c now_ns in
        Finite s
        → Writable m
        → 0 < c.pkts_processed
        → c.pkts_processed < 2 ^ 64
        → c.pkts_captured < 2 ^ 64
        → c.bytes_processed < 2 ^ 64
        → c.queue_drops < 2 ^ 64
        → c.capture_drops < 2 ^ 64
        → percentile_ns F (some s) ninety_five < 2 ^ 64
        → (b : Baseline Double) × (load_baseline F strtod
              (snapshot_json F format true true c now_ns half ninety_five ninety_nine m)
            ≡ some b)
          × Reloaded s ninety_five m b
  unfolding load_baseline snapshot_json snapshot
  load_baseline-snapshot_json strtod c now_ns half ninety_five ninety_nine m f w positive processed
        captured bytes queue capture p95 =
      let s = snapshot F c now_ns in
      let text = snapshot_text F format s half ninety_five ninety_nine m in
      let r =
        reloaded s half ninety_five ninety_nine m f strtod w positive processed captured bytes queue
          capture p95 in
      (baseline_of F strtod text, rw r.7 refl, r)
