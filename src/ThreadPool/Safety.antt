-- ===== src/ThreadPool/Safety.antt =====
-- Every state that the threads can reach: the packets accepted, queued, taken and counted.
use packet_analyzer.Prelude.{
  ℕ, zero, suc, ◌+◌, ◌≤◌, ◌≡◌, refl, arith, Option, none, some, List, [], ◌∷◌, ◌++◌, length,
  get_elem?, set,
}
use packet_analyzer.Packet.{Packet}
use packet_analyzer.Metrics.Counters.{Metrics}
use packet_analyzer.Metrics.Latency.{Attempt}
use packet_analyzer.ThreadPool.Queue.{Heap, Pool, Status, link, enqueue, dequeue}
use packet_analyzer.ThreadPool.Chain.{Linked, Apart}
use packet_analyzer.ThreadPool.Fifo.{Holds, packets}
use packet_analyzer.ThreadPool.System.{
  Phase, waiting, sleeping, holding, counting, exited, System, Signalled, nobody, one, broadcast,
}

-- A worker that has a packet.
abbrev has_packet : Phase → ℕ
has_packet waiting = 0
has_packet sleeping = 0
has_packet (holding _) = 1
has_packet (counting _ _) = 1
has_packet exited = 0

abbrev pub busy : List Phase → ℕ
busy [] = 0
busy (w ∷ ws) = has_packet w + busy ws

abbrev pub ReadsBelow : ℕ → Phase → Type 0
ReadsBelow limit (counting _ n) = n ≤ limit
ReadsBelow limit _ = Unit {0}

-- No worker has read a count above the limit.
abbrev pub AllReadsBelow : ℕ → List Phase → Type 0
AllReadsBelow limit [] = Unit {0}
AllReadsBelow limit (w ∷ ws) = ReadsBelow limit w × AllReadsBelow limit ws

-- The queue is well formed; what was accepted is what was taken and then what is queued, in order;
-- each packet taken is counted or with one worker; the pool's count is at most the packets counted.
pub record Orderly (s : System) : Type 0 where
  pub items : List (ℕ × Packet)
  pub holds : Holds s.pool items
  pub in_order : s.accepted ≡ s.taken ++ packets items
  pub each_once : length s.taken ≡ s.finished + busy s.workers
  pub count : s.pool.packets_processed ≤ s.finished
  pub reads : AllReadsBelow s.finished s.workers

pub busy-set :
    (ws : List Phase) (w : ℕ) (x y : Phase)
    → get_elem? ws w ≡ some x
    → busy (set ws w y) + has_packet x ≡ busy ws + has_packet y
busy-set [] w x y e = absurd cc
busy-set (v ∷ ws) zero x y e = ground arith
busy-set (v ∷ ws) (suc w) x y e = omega (arith, busy-set ws w x y e)

pub AllReadsBelow-set :
    (limit : ℕ) (ws : List Phase) (w : ℕ) (y : Phase)
    → AllReadsBelow limit ws
    → ReadsBelow limit y
    → AllReadsBelow limit (set ws w y)
AllReadsBelow-set limit [] w y h b = h
AllReadsBelow-set limit (v ∷ ws) zero y h b = (b, h.1)
AllReadsBelow-set limit (v ∷ ws) (suc w) y h b = (h.0, AllReadsBelow-set limit ws w y h.1 b)

pub AllReadsBelow-suc :
    (limit : ℕ) (ws : List Phase) → AllReadsBelow limit ws → AllReadsBelow (limit + 1) ws
AllReadsBelow-suc limit [] h = tt
AllReadsBelow-suc limit (waiting ∷ ws) h = (tt, AllReadsBelow-suc limit ws h.1)
AllReadsBelow-suc limit (sleeping ∷ ws) h = (tt, AllReadsBelow-suc limit ws h.1)
AllReadsBelow-suc limit (holding _ ∷ ws) h = (tt, AllReadsBelow-suc limit ws h.1)
AllReadsBelow-suc limit (exited ∷ ws) h = (tt, AllReadsBelow-suc limit ws h.1)
AllReadsBelow-suc limit (counting _ n ∷ ws) h = (omega arith, AllReadsBelow-suc limit ws h.1)

-- Waking threads changes nothing of this.
pub Signalled-busy :
    (ws ws' : List Phase) (limit : ℕ)
    → Signalled ws ws'
    → AllReadsBelow limit ws
    → (busy ws' ≡ busy ws) × AllReadsBelow limit ws'
Signalled-busy ws ws' limit (nobody none_asleep) h = (refl, h)
Signalled-busy ws ws' limit (one w at) h =
    (omega (arith, busy-set ws w sleeping waiting at), AllReadsBelow-set limit ws w waiting h tt)

pub broadcast-busy :
    (ws : List Phase) (limit : ℕ)
    → AllReadsBelow limit ws
    → (busy (broadcast ws) ≡ busy ws) × AllReadsBelow limit (broadcast ws)
broadcast-busy [] limit h = (refl, tt)
broadcast-busy (waiting ∷ ws) limit h =
    let ih = broadcast-busy ws limit h.1 in (omega (arith, ih.0), (tt, ih.1))
broadcast-busy (sleeping ∷ ws) limit h =
    let ih = broadcast-busy ws limit h.1 in (omega (arith, ih.0), (tt, ih.1))
broadcast-busy (holding p ∷ ws) limit h =
    let ih = broadcast-busy ws limit h.1 in (omega (arith, ih.0), (tt, ih.1))
broadcast-busy (counting p n ∷ ws) limit h =
    let ih = broadcast-busy ws limit h.1 in (omega (arith, ih.0), (h.0, ih.1))
broadcast-busy (exited ∷ ws) limit h =
    let ih = broadcast-busy ws limit h.1 in (omega (arith, ih.0), (tt, ih.1))

pub read_below :
    (limit : ℕ) (ws : List Phase) (w : ℕ) (p : Packet) (n : ℕ)
    → AllReadsBelow limit ws
    → get_elem? ws w ≡ some (counting p n)
    → n ≤ limit
read_below limit [] w p n h e = absurd cc
read_below limit (v ∷ ws) zero p n h e = ground arith
read_below limit (v ∷ ws) (suc w) p n h e = read_below limit ws w p n h.1 e

-- An unused address is that of no item.
pub Linked-Apart :
    (heap : Heap) (head tail : Option ℕ) (items : List (ℕ × Packet)) (a : ℕ)
    → Linked heap head items tail
    → heap a ≡ none
    → Apart a items
Linked-Apart heap head tail [] a l e = tt
Linked-Apart heap head tail ((b, p) ∷ []) a l e = (λ q. ground arith, tt)
Linked-Apart heap head tail ((b, p) ∷ (c, q) ∷ rest) a l e =
    (λ r. ground arith, Linked-Apart heap (some c) tail ((c, q) ∷ rest) a l.2 e)

pub enqueue-processed :
    (pool pool' : Pool) (packet : Packet) (a : ℕ) (attempts : List Attempt) (m m' : Metrics)
    (r : Status)
    → enqueue pool (some packet) (some a) attempts m ≡ some (r, pool', m')
    → pool'.packets_processed ≡ pool.packets_processed
unfolding enqueue link
enqueue-processed pool pool' packet a attempts m m' r e = ground arith

pub dequeue-processed :
    (pool pool' : Pool) (packet : Packet)
    → dequeue pool ≡ some (packet, pool')
    → pool'.packets_processed ≡ pool.packets_processed
unfolding dequeue
dequeue-processed pool pool' packet e = ground arith

pub dequeue_empty : (pool : Pool) → Holds pool [] → dequeue pool ≡ none
unfolding dequeue
dequeue_empty pool h = rw h.linked.0 refl
