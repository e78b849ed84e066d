-- ===== src/Main/Lifecycle.antt =====
-- What `main` of src/main.c holds besides, from its command line to its end: the copies of the options
-- and the memory of the logger.
use packet_analyzer.Prelude.{
  ◌≡◌, ◌∙◌, ap, refl, arith, Bool, true, false, not, ◌&&◌, Option, none, some, List, [], ◌∷◌, ◌++◌,
  ◌>>=◌, if◌then◌else◌, Resource, ℕ, name_memory, config_memory, bpf_memory, descriptor, Event,
  acquire, release, pool, packet_memory, run_memory, logger_memory, json_path, baseline_path,
  traffic_mode, traffic_target, settle, settle-append, settle-events,
}
use packet_analyzer.Prelude.Int.{ℤ}
use packet_analyzer.Metrics.Metadata.{Text}
use packet_analyzer.Socket.Config.{
  SocketConfig, socket_init, socket_cleanup, bind_raw_linux, bind_raw_mac, enable_promiscuous_linux,
  enable_promiscuous_mac, set_filter_linux, set_filter_mac, Answers, linux, mac, driver,
}
use packet_analyzer.Main.Setup.{SetUp, set_up, allocate}

-- Which options with a string are given, each at most once, and whether `logger_init` had memory.
pub record Given : Type 0 where
  pub has_json : Bool
  pub has_baseline : Bool
  pub has_mode : Bool
  pub has_target : Bool
  pub has_logger : Bool

abbrev pub released_if : Bool → Resource → List Event
released_if flag r = if flag then release r ∷ [] else []

abbrev pub acquired_if : Bool → Resource → List Event
acquired_if flag r = if flag then acquire r ∷ [] else []

abbrev pub held_if : Bool → Resource → List Resource
held_if flag r = if flag then r ∷ [] else []

-- The `strdup`s of the options, and `logger_init`.
abbrev pub start_up : Given → List Event
start_up g =
    acquired_if g.has_json json_path
    ++ (acquired_if g.has_baseline baseline_path
        ++ (acquired_if g.has_mode traffic_mode
            ++ (acquired_if g.has_target traffic_target ++ acquired_if g.has_logger logger_memory)))

abbrev pub held_by : Given → List Resource
held_by g =
    held_if g.has_logger logger_memory
    ++ (held_if g.has_target traffic_target
        ++ (held_if g.has_mode traffic_mode
            ++ (held_if g.has_baseline baseline_path ++ held_if g.has_json json_path)))

-- The end of `main`, if it came through the set-up. The baseline's path is only freed with a valid
-- sample.
unfoldable pub shut_down : Given → Bool → SetUp → List Event
shut_down g sample_valid s = elim s.socket [
  | none ↦ []
  | some c ↦
      released_if g.has_json json_path
      ++ (released_if (g.has_baseline && sample_valid) baseline_path
          ++ (released_if s.has_runs run_memory
              ++ (released_if g.has_mode traffic_mode
                  ++ (released_if g.has_target traffic_target
                      ++ (release packet_memory
                          ∷ release pool
                          ∷ (socket_cleanup (some c) ++ released_if g.has_logger logger_memory))))))
]

start_up-held : (g : Given) → settle [] (start_up g) ≡ some (held_by g)
start_up-held g = ground arith

-- What is held behind the set-up: nothing, or the parts of the socket, the pool and the buffers.
abbrev held_descriptor : Option ℕ → List Resource
held_descriptor none = []
held_descriptor (some fd) = descriptor fd ∷ []

abbrev held_buffer : Option (List ℕ) → List Resource
held_buffer none = []
held_buffer (some bytes) = bpf_memory ∷ []

abbrev held_name : Option Text → List Resource
held_name none = []
held_name (some name) = name_memory ∷ []

abbrev held_after : SetUp → List Resource
held_after s = elim s.socket [
  | none ↦ []
  | some c ↦
      held_if s.has_runs run_memory
      ++ (packet_memory
          ∷ pool
          ∷ (held_buffer c.bpf_buffer
              ++ (held_descriptor c.socket_fd
                  ++ (held_name c.interface_name ++ (config_memory ∷ [])))))
]

set_up-held :
    (answers : Answers)
    (malloc_config malloc_name icmp create_pool malloc_packet calloc_runs : Bool) (name : Text)
    (num_runs : ℤ)
    → let s =
        set_up
          (driver answers)
          (socket_init malloc_config malloc_name name)
          icmp
          create_pool
          malloc_packet
          calloc_runs
          num_runs in
      settle [] s.events ≡ some (held_after s)
unfolding set_up allocate socket_init socket_cleanup bind_raw_linux enable_promiscuous_linux
    set_filter_linux bind_raw_mac enable_promiscuous_mac set_filter_mac
set_up-held (linux socket if_index bind attach) malloc_config malloc_name icmp false malloc_packet
      calloc_runs name num_runs =
    ground arith
set_up-held (linux socket if_index bind attach) malloc_config malloc_name icmp true false
      calloc_runs name num_runs =
    ground arith
set_up-held (linux socket if_index bind attach) malloc_config malloc_name icmp true true calloc_runs
      name num_runs =
    ground arith
set_up-held
      (mac open_bpf get_len set_len malloc if_index set_interface immediate nonresetting resetting)
      malloc_config malloc_name icmp false malloc_packet calloc_runs name num_runs =
    ground arith
set_up-held
      (mac open_bpf get_len set_len malloc if_index set_interface immediate nonresetting resetting)
      malloc_config malloc_name icmp true false calloc_runs name num_runs =
    ground arith
set_up-held
      (mac open_bpf get_len set_len malloc if_index set_interface immediate nonresetting resetting)
      malloc_config malloc_name icmp true true calloc_runs name num_runs =
    ground arith

-- What the end releases of it, and what it leaves.
abbrev pub leaked : Given → Bool → Option SocketConfig → List Resource
leaked g sample_valid none = held_by g
leaked g sample_valid (some c) = held_if (g.has_baseline && not sample_valid) baseline_path

shut_down-held :
    (socket : Option SocketConfig) (has_runs sample_valid : Bool) (g : Given) (events : List Event)
    → let s : SetUp = record { socket = socket; has_runs = has_runs; events = events } in
      settle (held_after s ++ held_by g) (shut_down g sample_valid s)
      ≡ some (leaked g sample_valid socket)
unfolding shut_down socket_cleanup
shut_down-held none has_runs sample_valid g events = refl
shut_down-held (some c) false false g events = ground arith
shut_down-held (some c) false true g events = ground arith
shut_down-held (some c) true false g events = ground arith
shut_down-held (some c) true true g events = ground arith

-- Whatever the system calls, the thread pool and the allocations return, on Linux and on macOS: `main`
-- never releases what it does not hold, and what it still holds when it returns is exactly this. At its
-- end it is nothing, but for the copy of the baseline's path if the sample was too small. On a
-- return with 1 out of the set-up it is the copies of all options that were given and the logger's
-- memory, and of the socket, the pool and the buffers nothing. Each option is given at most once.
pub main_holds :
    (answers : Answers)
    (malloc_config malloc_name icmp create_pool malloc_packet calloc_runs sample_valid : Bool)
    (name : Text) (num_runs : ℤ) (g : Given)
    → let s =
        set_up
          (driver answers)
          (socket_init malloc_config malloc_name name)
          icmp
          create_pool
          malloc_packet
          calloc_runs
          num_runs in
      settle [] (start_up g ++ (s.events ++ shut_down g sample_valid s))
      ≡ some (leaked g sample_valid s.socket)
main_holds answers malloc_config malloc_name icmp create_pool malloc_packet calloc_runs sample_valid
      name num_runs g =
    let s =
      set_up (driver answers) (socket_init malloc_config malloc_name name) icmp create_pool
        malloc_packet calloc_runs num_runs in
    let before = settle-append s.events [] (held_by g) (held_after s) (
      set_up-held answers malloc_config malloc_name icmp create_pool malloc_packet calloc_runs name
        num_runs) in
    let end = shut_down-held s.socket s.has_runs sample_valid g s.events in
    settle-events (start_up g) (s.events ++ shut_down g sample_valid s) []
    ∙ (ap (λ o. o >>= λ held. settle held (s.events ++ shut_down g sample_valid s))
          (start_up-held g)
        ∙ (settle-events s.events (shut_down g sample_valid s) (held_by g)
            ∙ (ap (λ o. o >>= λ held. settle held (shut_down g sample_valid s)) before ∙ end)))
