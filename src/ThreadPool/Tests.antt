-- ===== src/ThreadPool/Tests.antt =====
-- A pool through its operations and its threads' steps, and the theorems at these runs.
use packet_analyzer.Prelude.{
  ℕ, ◌+◌, ◌≡◌, ◌⊎◌, inr, refl, arith, true, none, some, [], ◌∷◌, get_elem?, u32, u64,
}
use packet_analyzer.Prelude.Int.{pos}
use packet_analyzer.Packet.{Packet}
use packet_analyzer.Packet.Headers.{EthernetHeader, ntohs}
use packet_analyzer.Metrics.Counters.{Metrics, init, start, is_active}
use packet_analyzer.ThreadPool.Queue.{
  update, Pool, create, link, enqueue, dequeue, get_processed_count,
}
use packet_analyzer.ThreadPool.Fifo.{Holds}
use packet_analyzer.ThreadPool.Worker.{record_packet}
use packet_analyzer.ThreadPool.Recording.{
  ethertype_count, protocol_count, shown_protocols, record_packet_counts,
}
use packet_analyzer.ThreadPool.System.{
  holding, System, nobody, initial, accept, take, Reachable, here, after,
}
use packet_analyzer.ThreadPool.Safety.{Orderly}
use packet_analyzer.ThreadPool.Reach.{reachable-Orderly}
use packet_analyzer.ThreadPool.Counting.{one_worker_counts, lost_update}

abbrev bytes_only : ℕ → Packet
bytes_only byte = record {
  timestamp = 1;
  capture_ts_ns = 500;
  packet_length = 1;
  raw_data = some (byte ∷ []);
  ethernet = some (record { dst_mac = []; src_mac = []; ethertype = 8 });
  ipv4 = none;
  tcp = none;
  udp = none;
  payload = none;
  payload_length = 0;
}

-- A pool for two packets, and the same pool with one in its queue.
abbrev fresh : ℕ → Pool
fresh threads = record {
  heap = λ a. none;
  num_threads = threads;
  queue_head = none;
  queue_tail = none;
  queue_size = 0;
  max_queue_size = 2;
  is_running = true;
  packets_processed = 0;
}

abbrev one_queued : Pool
one_queued = record (fresh 1) {
  heap = update (λ a. none) 16 (some (record { packet = bytes_only 7; next = none }));
  queue_head = some 16;
  queue_tail = some 16;
  queue_size = 1;
}

one_queued-Holds : Holds one_queued ((16, bytes_only 7) ∷ [])
one_queued-Holds = record {
  linked = (refl, refl, refl);
  distinct = (tt, tt);
  counted = refl;
  bounded = ground arith;
}

created : create (pos 4) (pos 2) ≡ some (fresh 4)
unfolding create
created = refl

two_workers : create (pos 2) (pos 2) ≡ some (fresh 2)
unfolding create
two_workers = refl

single : create (pos 1) (pos 2) ≡ some (fresh 1)
unfolding create
single = refl

started : Metrics
unfolding start init
started = start init 100

record_packet_counts_example :
    (m' : Metrics) × (record_packet [] 900 started (bytes_only 7) ≡ some m')
    × (m'.pkts_processed ≡ started.pkts_processed + 1)
    × (m'.bytes_processed ≡ u64 (started.bytes_processed + 1))
    × (m'.latency_count ≡ started.latency_count + 1)
    × ((((bytes_only 7).ethernet ≡ none)
          × (ethertype_count m' ≡ ethertype_count started)
          × (protocol_count m' ≡ protocol_count started))
        ⊎ ((eth : EthernetHeader) × ((bytes_only 7).ethernet ≡ some eth)
            × (ethertype_count m' ≡ ethertype_count started + 1)
            × (protocol_count m'
                ≡ protocol_count started + shown_protocols (bytes_only 7) (ntohs eth.ethertype))))
unfolding started start init is_active
record_packet_counts_example =
    record_packet_counts [] 900 started (bytes_only 7) refl
      (record {
        ethertypes = ground arith;
        protocols = ground arith;
        packets = ground arith;
        latencies = ground arith;
      })
      (inr ((7 ∷ []), refl, refl))

-- Two workers, two packets accepted and both taken.
both_hold :
    (s : System) × Reachable (initial (fresh 2) init) s
    × (get_elem? s.workers 0 ≡ some (holding (bytes_only 7)))
    × (get_elem? s.workers 1 ≡ some (holding (bytes_only 9)))
unfolding enqueue dequeue link
both_hold = (
  _,
  after _ _
      (after _ _
        (after _ _ (after _ _ here (accept (bytes_only 7) 16 [] _ _ _ refl refl (nobody tt)))
          (accept (bytes_only 9) 32 [] _ _ _ refl refl (nobody tt)))
        (take 0 (bytes_only 7) _ refl refl refl))
      (take 1 (bytes_only 9) _ refl refl refl),
  refl,
  refl,
)

reachable-Orderly_example : Orderly both_hold.0
reachable-Orderly_example =
    reachable-Orderly (pos 2) (pos 2) (fresh 2) init both_hold.0 two_workers both_hold.1

lost_update_example :
    (t : System) × Reachable (initial (fresh 2) init) t
    × (t.finished ≡ both_hold.0.finished + 2)
    × (t.pool.packets_processed ≡ u32 (both_hold.0.pool.packets_processed + 1))
lost_update_example =
    lost_update (initial (fresh 2) init) both_hold.0 0 1 (bytes_only 7) (bytes_only 9) both_hold.1
      (ground arith) both_hold.2 both_hold.3

-- One worker, one packet, taken.
one_holds : (s : System) × Reachable (initial (fresh 1) init) s
unfolding enqueue dequeue link
one_holds = (
  _,
  after _ _ (after _ _ here (accept (bytes_only 7) 16 [] _ _ _ refl refl (nobody tt)))
      (take 0 (bytes_only 7) _ refl refl refl),
)

one_worker_counts_example : get_processed_count (some one_holds.0.pool) ≡ pos one_holds.0.finished
unfolding one_holds
one_worker_counts_example =
    one_worker_counts (pos 2) (fresh 1) init one_holds.0 single one_holds.1 (omega arith)
