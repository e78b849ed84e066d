-- ===== src/Main/Traffic.antt =====
-- The background traffic generator of src/main.c: starting it, the command it runs, and stopping it.
-- The child process is a state that the signals and `waitpid` act on.
use packet_analyzer.Prelude.{
  ℕ, ◌≡◌, ◌≢◌, refl, arith, Bool, true, false, Option, none, some, List, [], ◌∷◌, ◌++◌,
  if◌then◌else◌, ◌==◌, codes,
}
use packet_analyzer.Floating.{Floating}
use packet_analyzer.Metrics.Metadata.{Text}
use packet_analyzer.Regression.Compatible.{same_text}

-- Parent and child of `fork`, or its failure.
pub data Fork : Type 0 where
  failed : Fork
  parent : ℕ → Fork

-- `traffic_generator_start` in the parent: the result 0, and `traffic_pid`, where `none` is a negative
-- number. A mode that is not "icmp" is refused.
unfoldable pub traffic_generator_start : Option Text → Fork → Option ℕ → Bool × Option ℕ
traffic_generator_start none fork pid = (true, pid)
traffic_generator_start (some mode) fork pid =
    if same_text mode (codes "icmp")
    then (elim fork [ failed ↦ (false, none) | parent child ↦ (true, some child) ])
    else (false, pid)

-- The seconds between two packets, at least 0.002. `traffic_rate` is at least 1.
unfoldable pub ping_interval : (F : Floating) → ℕ → F.Double
ping_interval F traffic_rate =
    let interval = F.div (F.of_u64 1) (F.of_u64 traffic_rate) in
    let shortest = F.div (F.of_u64 2) (F.of_u64 1000) in
    if F.lt interval shortest then shortest else interval

-- What the child executes: `ping`, with the interval as it is printed.
unfoldable pub ping : Bool → Text → Option Text → List Text
ping is_apple interval target =
    let host : Text = elim target [ none ↦ codes "8.8.8.8" | some t ↦ t ] in
    codes "ping" ∷ codes "-i" ∷ interval ∷ (if is_apple then host ∷ [] else codes "-n" ∷ host ∷ [])

pub data Signal : Type 0 where
  interrupt terminate kill : Signal

-- A child that runs, has ended and not been waited for, or is gone.
pub data Child : Type 0 where
  running zombie gone : Child

-- Whether a signal ends the child is up to it. `waitpid` does not wait for a running child with
-- `WNOHANG`, and returns 0 then; else it waits for its end, which `none` never comes to.
abbrev pub signalled : (Signal → Bool) → Signal → Child → Child
signalled ends s running = if ends s then zombie else running
signalled ends s zombie = zombie
signalled ends s gone = gone

abbrev pub waited : Child → Child
waited running = running
waited zombie = gone
waited gone = gone

abbrev pub is_running : Child → Bool
is_running running = true
is_running _ = false

abbrev pub wait_for_end : Child → Option Child
wait_for_end running = none
wait_for_end zombie = some gone
wait_for_end gone = some gone

-- The last resort, and the whole of `traffic_generator_stop` for a child: what becomes of it, and the
-- signals sent.
abbrev stop_by_kill : (Signal → Bool) → Child → List Signal → Option (Child × List Signal)
stop_by_kill ends c sent = elim (wait_for_end (signalled ends kill c)) [
  | none ↦ none
  | some c' ↦ some (c', sent ++ (kill ∷ []))
]

unfoldable pub stop_child : (Signal → Bool) → Child → Option (Child × List Signal)
stop_child ends c =
    let first = signalled ends interrupt c in
    if is_running first
    then (let second = signalled ends terminate first in
        if is_running second
        then stop_by_kill ends second (interrupt ∷ terminate ∷ [])
        else some (waited second, interrupt ∷ terminate ∷ []))
    else some (waited first, interrupt ∷ [])

-- `traffic_generator_stop`: nothing without a positive process id, and the id is forgotten.
unfoldable pub traffic_generator_stop :
    (Signal → Bool) → Option ℕ → Child → Option (Option ℕ × Child × List Signal)
traffic_generator_stop ends none c = some (none, c, [])
traffic_generator_stop ends (some pid) c =
    if pid == 0
    then some (some pid, c, [])
    else (elim (stop_child ends c) [ none ↦ none | some r ↦ some (none, r.0, r.1) ])

-- The signals up to the first that ends the child.
abbrev pub needed : (Signal → Bool) → List Signal
needed ends =
    if ends interrupt
    then interrupt ∷ []
    else (if ends terminate then interrupt ∷ terminate ∷ [] else interrupt ∷ terminate ∷ kill ∷ [])

-- A generator that was started with the mode "icmp" and stopped is gone: it has ended and been waited
-- for, whether it was still running or not, and no process id is kept. A running one gets the signals
-- up to the first that ends it, in the order `SIGINT`, `SIGTERM`, `SIGKILL`. The system ends a process
-- at `SIGKILL`.
pub start-stop :
    (ends : Signal → Bool) (child : ℕ) (pid : Option ℕ)
    → ends kill ≡ true
    → child ≢ 0
    → let started = traffic_generator_start (some (codes "icmp")) (parent child) pid in
      (started.0 ≡ true)
      × (traffic_generator_stop ends started.1 running ≡ some (none, gone, needed ends))
      × (traffic_generator_stop ends started.1 zombie ≡ some (none, gone, interrupt ∷ []))
unfolding traffic_generator_start traffic_generator_stop stop_child same_text
start-stop ends child pid h positive = (refl, ground (arith, h), ground (arith, h))
