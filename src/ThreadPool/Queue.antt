-- ===== src/ThreadPool/Queue.antt =====
-- The thread pool's structure and the operations on its linked queue, each under the lock.
use packet_analyzer.Prelude.{
  ℕ, ◌+◌, ◌-◌, ◌^◌, ltb, Bool, true, false, Option, none, some, List, ◌>>=◌, leb, ◌==◌,
  if◌then◌else◌, u32,
}
use packet_analyzer.Prelude.Int.{ℤ, pos, negsuc, ltb_ℤ, pos_part}
use packet_analyzer.Packet.{Packet}
use packet_analyzer.Metrics.Counters.{Metrics, inc_queue_drops}
use packet_analyzer.Metrics.Latency.{Attempt, update_queue_depth_max}

-- `work_item_t`. A pointer is an address in the heap.
pub record WorkItem : Type 0 where
  pub packet : Packet
  pub next : Option ℕ

abbrev pub Heap : Type 0
Heap = ℕ → Option WorkItem

abbrev pub update : Heap → ℕ → Option WorkItem → Heap
update heap a item b = if a == b then item else heap b

-- `thread_pool_t`, with the heap that its work items stand in.
pub record Pool : Type 0 where
  pub heap : Heap
  pub num_threads : ℕ
  pub queue_head : Option ℕ
  pub queue_tail : Option ℕ
  pub queue_size : ℕ
  pub max_queue_size : ℕ
  pub is_running : Bool
  -- The 32 bits of an `int`; its overflow, which is undefined in C, is taken to wrap.
  pub packets_processed : ℕ

-- `thread_pool_create` with its `malloc`s successful and its threads started.
unfoldable pub create : ℤ → ℤ → Option Pool
create num_threads max_queue_size =
    if ltb_ℤ (pos 0) num_threads
    then (if ltb_ℤ (pos 0) max_queue_size
        then some (record {
          heap = λ a. none;
          num_threads = pos_part num_threads;
          queue_head = none;
          queue_tail = none;
          queue_size = 0;
          max_queue_size = pos_part max_queue_size;
          is_running = true;
          packets_processed = 0;
        })
        else none)
    else none

-- The `int` results 0 and -1.
pub data Status : Type 0 where
  success failure : Status

-- Where the item at `a` is hooked in: at the head of an empty queue, else behind the tail. `none` is
-- a write through a dangling tail pointer.
unfoldable pub link : Pool → ℕ → Option Pool
link pool a = elim pool.queue_tail [
  | none ↦ some (record pool { queue_head = some a; queue_tail = some a })
  | some tail ↦ pool.heap tail >>= λ last. some (record pool {
    heap = update pool.heap tail (some (record last { next = some a }));
    queue_tail = some a;
  })
]

-- `thread_pool_enqueue`; `address` is what `malloc` returned for the work item. A refused item is
-- freed at once.
unfoldable pub enqueue :
    Pool → Option Packet → Option ℕ → List Attempt → Metrics → Option (Status × Pool × Metrics)
enqueue pool none address attempts m = some (failure, pool, m)
enqueue pool (some packet) none attempts m = some (failure, pool, m)
enqueue pool (some packet) (some a) attempts m =
    if leb pool.max_queue_size pool.queue_size
    then some (failure, pool, inc_queue_drops m)
    else (link
          (record pool {
            heap = update pool.heap a (some (record { packet = packet; next = none }));
          })
          a
        >>= λ linked. some (
          success,
          record linked { queue_size = linked.queue_size + 1 },
          update_queue_depth_max attempts m (u32 (linked.queue_size + 1)),
        ))

-- What a worker does under the lock once the queue is not empty: it unhooks the head. The item is
-- freed when its packet has been processed; here it leaves the heap at once. `none` is an access
-- through a null or dangling head pointer.
unfoldable pub dequeue : Pool → Option (Packet × Pool)
dequeue pool = pool.queue_head >>= λ a. pool.heap a >>= λ item. some (
  item.packet,
  record pool {
    heap = update pool.heap a none;
    queue_head = item.next;
    queue_tail = elim item.next [ none ↦ none | some _ ↦ pool.queue_tail ];
    queue_size = pool.queue_size - 1;
  },
)

unfoldable pub is_running : Option Pool → Bool
is_running none = false
is_running (some pool) = pool.is_running

-- The `int` with these 32 bits.
abbrev pub int_of : ℕ → ℤ
int_of bits = if ltb bits (2 ^ 31) then pos bits else negsuc (2 ^ 32 - 1 - bits)

unfoldable pub get_processed_count : Option Pool → ℤ
get_processed_count none = pos 0
get_processed_count (some pool) = int_of pool.packets_processed
