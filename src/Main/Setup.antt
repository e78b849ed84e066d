-- ===== src/Main/Setup.antt =====
-- What `main` of src/main.c acquires for its runs, and releases on the ways out of its set-up; the
-- options, the logger and the end of `main` are in `Main.Lifecycle`. The calls' results
-- are arguments, and so is whether `thread_pool_create` and the allocations succeed; a failed
-- `thread_pool_create` has released what it had.
use packet_analyzer.Prelude.{
  Bool, true, false, Option, none, some, List, [], ◌∷◌, ◌++◌, if◌then◌else◌, Event, acquire,
  release, pool, packet_memory, run_memory,
}
use packet_analyzer.Prelude.Int.{ℤ, pos, ltb_ℤ}
use packet_analyzer.Socket.Config.{
  SocketConfig, filter_icmp, Outcome, Driver, socket_cleanup, driver,
}

-- The socket if the set-up has come to its end, and what was acquired and released on the way. Without
-- it `main` has returned 1.
pub record SetUp : Type 0 where
  pub socket : Option SocketConfig
  pub has_runs : Bool
  pub events : List Event

abbrev pub stop : List Event → SetUp
stop events = record { socket = none; has_runs = false; events = events }

-- The result of a socket call: on with its configuration, or clean up and leave.
abbrev pub checked : List Event → Outcome → (SocketConfig → List Event → SetUp) → SetUp
checked events r next =
    if r.succeeded
    then next r.config (events ++ r.events)
    else stop (events ++ (r.events ++ socket_cleanup (some r.config)))

-- Behind the socket: the thread pool, the packet buffer and, for several runs, the results.
unfoldable pub allocate : Bool → Bool → Bool → ℤ → SocketConfig → List Event → SetUp
allocate create_pool malloc_packet calloc_runs num_runs c events =
    if create_pool
    then (if malloc_packet
        then (if ltb_ℤ (pos 1) num_runs
            then (if calloc_runs
                then record {
                  socket = some c;
                  has_runs = true;
                  events =
                      events ++ (acquire pool ∷ acquire packet_memory ∷ acquire run_memory ∷ []);
                }
                else stop (
                    events
                    ++ (acquire pool
                        ∷ acquire packet_memory
                        ∷ release packet_memory
                        ∷ release pool
                        ∷ socket_cleanup (some c))))
            else record {
              socket = some c;
              has_runs = false;
              events = events ++ (acquire pool ∷ acquire packet_memory ∷ []);
            })
        else stop (events ++ (acquire pool ∷ release pool ∷ socket_cleanup (some c))))
    else stop (events ++ socket_cleanup (some c))

unfoldable pub set_up :
    Driver → Option SocketConfig × List Event → Bool → Bool → Bool → Bool → ℤ → SetUp
set_up driver init icmp create_pool malloc_packet calloc_runs num_runs = elim init.0 [
  | none ↦ stop init.1
  | some c ↦ checked init.1 (driver.bind_raw c) (λ bound bound_events.
      checked bound_events (driver.enable_promiscuous bound) (λ capturing capture_events.
        if icmp
        then checked capture_events (driver.set_filter filter_icmp capturing)
            (allocate create_pool malloc_packet calloc_runs num_runs)
        else allocate create_pool malloc_packet calloc_runs num_runs capturing capture_events))
]
