-- ===== src/Socket/Config.antt =====
-- `socket_config_t` of include/socket_handler.h, and the functions of src/socket_handler.c that set it
-- up and release it, for Linux and for macOS. What the system calls return are arguments.
use packet_analyzer.Prelude.{
  ℕ, zero, suc, ◌+◌, ◌*◌, Bool, true, false, ◌||◌, ◌==◌, Option, none, some, List, [], ◌∷◌, ◌++◌,
  if◌then◌else◌, Resource, config_memory, name_memory, bpf_memory, descriptor, Event, acquire,
  release,
}
use packet_analyzer.Metrics.Metadata.{Text}

-- `BPF_BUFFER_SIZE`
abbrev pub bpf_buffer_size : ℕ
bpf_buffer_size = 128 * 1024

-- `socket_filter_t`; a C enumeration can hold other numbers.
pub data SocketFilter : Type 0 where
  filter_none filter_icmp : SocketFilter
  other : ℕ → SocketFilter

-- `socket_config_t`. A negative descriptor is `none`.
pub record SocketConfig : Type 0 where
  pub socket_fd : Option ℕ
  pub interface_name : Option Text
  pub promiscuous_mode : Bool
  pub filter : SocketFilter
  pub bpf_buffer : Option (List ℕ)
  pub bpf_size : ℕ
  pub bpf_data_len : ℕ
  pub bpf_offset : ℕ

-- A call's result, 0 or -1, the configuration that it leaves, and what it acquired and released.
pub record Outcome : Type 0 where
  pub succeeded : Bool
  pub config : SocketConfig
  pub events : List Event

-- `socket_init`. The two `malloc`s come first.
unfoldable pub socket_init : Bool → Bool → Text → Option SocketConfig × List Event
socket_init malloc_config malloc_name name =
    if malloc_config
    then (if malloc_name
        then (
          some (record {
            socket_fd = none;
            interface_name = some name;
            promiscuous_mode = false;
            filter = filter_none;
            bpf_buffer = none;
            bpf_size = 0;
            bpf_data_len = 0;
            bpf_offset = 0;
          }),
          acquire config_memory ∷ acquire name_memory ∷ [],
        )
        else (none, acquire config_memory ∷ release config_memory ∷ []))
    else (none, [])

abbrev pub fail : SocketConfig → List Event → Outcome
fail c events = record { succeeded = false; config = c; events = events }

abbrev pub succeed : SocketConfig → List Event → Outcome
succeed c events = record { succeeded = true; config = c; events = events }

-- `close(config->socket_fd); config->socket_fd = -1; return -1;`
abbrev pub close_and_fail : ℕ → SocketConfig → List Event → Outcome
close_and_fail fd c events =
    fail (record c { socket_fd = none }) (events ++ (release (descriptor fd) ∷ []))

-- `socket_bind_raw` on Linux, with what `socket` returns. A null configuration is refused first.
unfoldable pub bind_raw_linux : Option ℕ → SocketConfig → Outcome
bind_raw_linux socket c = elim c.interface_name [
  | none ↦ fail c []
  | some _ ↦ elim socket [
    | none ↦ fail (record c { socket_fd = none }) []
    | some fd ↦ succeed (record c { socket_fd = some fd }) (acquire (descriptor fd) ∷ [])
  ]
]

-- The loop over `/dev/bpf0` to `/dev/bpf255`, with the number of devices left.
unfoldable pub open_loop : (ℕ → Option ℕ) → ℕ → ℕ → Option ℕ
open_loop open_bpf zero i = none
open_loop open_bpf (suc left) i =
    let later = open_loop open_bpf left (i + 1) in
    elim (open_bpf i) [ none ↦ later | some fd ↦ some fd ]

-- The length of the buffer, after `BIOCGBLEN` and `BIOCSBLEN`, each of which may fail.
abbrev pub bpf_len : Option ℕ → Option ℕ → ℕ
bpf_len get_len (some set_len) = set_len
bpf_len (some len) none = len
bpf_len none none = bpf_buffer_size

-- `socket_bind_raw` on macOS. `malloc` gives the buffer's bytes, whatever they are.
unfoldable pub bind_raw_mac :
    (ℕ → Option ℕ) → Option ℕ → Option ℕ → (ℕ → Option (List ℕ)) → SocketConfig → Outcome
bind_raw_mac open_bpf get_len set_len malloc c = elim c.interface_name [
  | none ↦ fail c []
  | some _ ↦ elim (open_loop open_bpf 256 0) [
    | none ↦ fail (record c { socket_fd = none }) []
    | some fd ↦ elim (malloc (bpf_len get_len set_len)) [
      | none ↦ close_and_fail fd (record c { bpf_buffer = none }) (acquire (descriptor fd) ∷ [])
      | some bytes ↦
          succeed
            (record c {
              socket_fd = some fd;
              bpf_buffer = some bytes;
              bpf_size = bpf_len get_len set_len;
              bpf_data_len = 0;
              bpf_offset = 0;
            })
            (acquire (descriptor fd) ∷ acquire bpf_memory ∷ [])
    ]
  ]
]

-- `socket_enable_promiscuous` on Linux: the interface's index, and whether `bind` succeeds.
unfoldable pub enable_promiscuous_linux : ℕ → Bool → SocketConfig → Outcome
enable_promiscuous_linux if_index bind c = elim c.socket_fd [
  | none ↦ fail c []
  | some _ ↦
      if if_index == 0
      then fail c []
      else (if bind then succeed (record c { promiscuous_mode = true }) [] else fail c [])
]

-- On macOS: `BIOCSETIF` and `BIOCIMMEDIATE` must succeed. What `BIOCPROMISC` and `BIOCSSEESENT` return
-- plays no part.
unfoldable pub enable_promiscuous_mac : ℕ → Bool → Bool → SocketConfig → Outcome
enable_promiscuous_mac if_index set_interface set_immediate c = elim c.socket_fd [
  | none ↦ fail c []
  | some fd ↦
      if if_index == 0
      then fail c []
      else (if set_interface
          then (if set_immediate
              then succeed (record c { promiscuous_mode = true }) []
              else close_and_fail fd c [])
          else close_and_fail fd c [])
]

-- `socket_set_filter` on Linux: whether `SO_ATTACH_FILTER` attaches the program.
unfoldable pub set_filter_linux : Bool → SocketFilter → SocketConfig → Outcome
set_filter_linux attach wanted c = elim c.socket_fd [
  | none ↦ fail c []
  | some _ ↦ elim wanted [
    | filter_none ↦ succeed (record c { filter = filter_none }) []
    | filter_icmp ↦ if attach then succeed (record c { filter = filter_icmp }) [] else fail c []
    | other n ↦ fail c []
  ]
]

-- On macOS: `BIOCSETFNR`, and if it fails `BIOCSETF`.
unfoldable pub set_filter_mac : Bool → Bool → SocketFilter → SocketConfig → Outcome
set_filter_mac set_nonresetting set_resetting wanted c = elim c.socket_fd [
  | none ↦ fail c []
  | some _ ↦ elim wanted [
    | filter_none ↦ succeed (record c { filter = filter_none }) []
    | filter_icmp ↦
        if set_nonresetting || set_resetting
        then succeed (record c { filter = filter_icmp }) []
        else fail c []
    | other n ↦ fail c []
  ]
]

abbrev pub released : {A : Type 0} → Option A → Resource → List Event
released none r = []
released (some _) r = release r ∷ []

abbrev pub closed : Option ℕ → List Event
closed none = []
closed (some fd) = release (descriptor fd) ∷ []

-- The functions that differ by platform.
pub record Driver : Type 0 where
  pub bind_raw : SocketConfig → Outcome
  pub enable_promiscuous : SocketConfig → Outcome
  pub set_filter : SocketFilter → SocketConfig → Outcome

-- What the system calls of a platform return, in the order of the functions above.
pub data Answers : Type 0 where
  linux : Option ℕ → ℕ → Bool → Bool → Answers
  mac :
      (ℕ → Option ℕ)
      → Option ℕ
      → Option ℕ
      → (ℕ → Option (List ℕ))
      → ℕ
      → Bool
      → Bool
      → Bool
      → Bool
      → Answers

abbrev pub driver : Answers → Driver
driver (linux socket if_index bind attach) = record {
  bind_raw = bind_raw_linux socket;
  enable_promiscuous = enable_promiscuous_linux if_index bind;
  set_filter = set_filter_linux attach;
}
driver
      (mac open_bpf get_len set_len malloc if_index set_interface immediate nonresetting
        resetting) =
    record {
      bind_raw = bind_raw_mac open_bpf get_len set_len malloc;
      enable_promiscuous = enable_promiscuous_mac if_index set_interface immediate;
      set_filter = set_filter_mac nonresetting resetting;
    }

-- `socket_cleanup`
unfoldable pub socket_cleanup : Option SocketConfig → List Event
socket_cleanup none = []
socket_cleanup (some c) =
    closed c.socket_fd
    ++ (released c.interface_name name_memory
        ++ (released c.bpf_buffer bpf_memory ++ (release config_memory ∷ [])))
