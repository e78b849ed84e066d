-- ===== src/Main/Rounds.antt =====
-- The capture loop of src/main.c over rounds that each bring a frame.
use packet_analyzer.Prelude.{
  ℕ, not, Bool-cases, inl, inr, subst, ◌&&◌, ◌+◌, ◌^◌, ◌<◌, ◌≡◌, ◌∙◌, ap, sym, refl, arith, true,
  false, some, List, [], ◌∷◌, ◌++◌, append_assoc, append-nil, ltb, leb, if◌then◌else◌, take,
  take-all, length, length-take, u32,
}
use packet_analyzer.Packet.{Packet, Mallocs, create}
use native.Mathlib.Nat.{mod-eq_of_lt}
use packet_analyzer.Metrics.Counters.{inc_captured}
use packet_analyzer.Packet.Payload.{IsFresh, AllAllocated, create-IsFresh}
use packet_analyzer.Main.Capture.{
  Plan, Received, error, frame, Tick, Loop, queue_effect, end_warmup, take_frame, round, capture,
}
use packet_analyzer.Socket.Frames.{cuts}

-- Packets just made of these frames, one for each and in order.
abbrev pub Carry : List Packet → List (List ℕ) → Type 0
Carry [] [] = Unit {0}
Carry [] (f ∷ frames) = ⊥
Carry (p ∷ packets) [] = ⊥
Carry (p ∷ packets) (f ∷ frames) = IsFresh p f × Carry packets frames

abbrev pub all_cut : ℕ → List (List ℕ) → List (List ℕ)
all_cut size [] = []
all_cut size (f ∷ frames) = take size f ∷ all_cut size frames

abbrev pub all_received : List Tick → List Received
all_received [] = []
all_received (t ∷ ticks) = t.received ∷ all_received ticks

-- No signal, and memory for each packet.
abbrev pub Undisturbed : List Tick → Type 0
Undisturbed [] = Unit {0}
Undisturbed (t ∷ ticks) = ((t.is_running ≡ true) × AllAllocated t.mallocs) × Undisturbed ticks

-- Frames of a size that `recvfrom` and `main` handle.
abbrev pub Sized : List (List ℕ) → Type 0
Sized [] = Unit {0}
Sized (f ∷ frames) = (0 < length f) × (length f < 2 ^ 32) × Sized frames

-- The packet of a frame.
create-frame :
    (m : Mallocs) (time now_ns : ℕ) (bytes : List ℕ)
    → AllAllocated m
    → 0 < length bytes
    → length bytes < 2 ^ 32
    → (p : Packet) × (create m time now_ns (some bytes) (u32 (length bytes)) ≡ some (some p))
      × IsFresh p bytes
create-frame m time now_ns bytes a positive small =
    let (p, made, fresh, at, stamped) =
      create-IsFresh m time now_ns bytes (length bytes) a positive (omega arith) small in
    (
      p,
      ap (create m time now_ns (some bytes)) (mod-eq_of_lt small) ∙ made,
      subst (IsFresh p) (take-all (length bytes) bytes (omega arith)) fresh,
    )

take_frame-frame :
    (plan : Plan) (t : Tick) (l : Loop) (bytes : List ℕ)
    → plan.max_packets ≡ 0
    → AllAllocated t.mallocs
    → 0 < length bytes
    → length bytes < 2 ^ 32
    → (l' : Loop) × (p : Packet) × (take_frame plan t bytes l ≡ some l')
      × (l'.run_is_running ≡ l.run_is_running)
      × (l'.offered ≡ l.offered ++ (p ∷ []))
      × IsFresh p bytes
unfolding take_frame
take_frame-frame plan t l bytes uncounted a positive small =
    let (p, made, fresh) = create-frame t.mallocs t.time t.capture_ns bytes a positive small in
    let off : (ltb 0 plan.max_packets && leb plan.max_packets (u32 (l.packets_captured + 1)))
        ≡ false =
      ground (arith, uncounted) in
    let l' : Loop = record l {
      packets_captured = u32 (l.packets_captured + 1);
      metrics =
          queue_effect t.queued
            (if l.warmup_complete then inc_captured l.metrics (u32 (length bytes)) else l.metrics);
      offered = l.offered ++ (p ∷ []);
    } in
    (l', p, rw (made, off) refl, refl, refl, fresh)

end_warmup-keeps :
    (plan : Plan) (t : Tick) (l : Loop)
    → ((end_warmup plan t l).run_is_running ≡ l.run_is_running)
      × ((end_warmup plan t l).offered ≡ l.offered)
unfolding end_warmup
end_warmup-keeps plan t l =
    elim (Bool-cases (not l.warmup_complete && leb plan.warmup_end_ns t.now_ns)) [
      | inl e ↦ (rw e refl, rw e refl)
      | inr e ↦ (rw e refl, rw e refl)
    ]

abbrev head_of : List Received → Received
head_of [] = error
head_of (r ∷ rs) = r

abbrev tail_of : List Received → List Received
tail_of [] = []
tail_of (r ∷ rs) = rs

round-steps :
    (plan : Plan) (t : Tick) (l l' : Loop) (bytes : List ℕ)
    → plan.measure_end_ns ≡ 0
    → t.received ≡ frame bytes
    → 0 < length bytes
    → take_frame plan t bytes (end_warmup plan t l) ≡ some l'
    → round plan t l ≡ some l'
unfolding round
round-steps plan t l l' bytes unlimited got positive taken =
    ground (arith, unlimited, got, positive, taken)

capture-steps :
    (plan : Plan) (t : Tick) (ticks : List Tick) (l l' : Loop)
    → t.is_running ≡ true
    → l.run_is_running ≡ true
    → round plan t l ≡ some l'
    → capture plan (t ∷ ticks) l ≡ capture plan ticks l'
unfolding capture
capture-steps plan t ticks l l' on running done = ground (arith, on, running, done)

-- A round that takes a frame without limits on time and number.
round-frame :
    (plan : Plan) (t : Tick) (l : Loop) (bytes : List ℕ)
    → plan.measure_end_ns ≡ 0
    → plan.max_packets ≡ 0
    → t.received ≡ frame bytes
    → AllAllocated t.mallocs
    → 0 < length bytes
    → length bytes < 2 ^ 32
    → (l' : Loop) × (p : Packet) × (round plan t l ≡ some l')
      × (l'.run_is_running ≡ l.run_is_running)
      × (l'.offered ≡ l.offered ++ (p ∷ []))
      × IsFresh p bytes
round-frame plan t l bytes unlimited uncounted got a positive small =
    let l1 = end_warmup plan t l in
    let (l2, p, taken, running, offered, fresh) =
      take_frame-frame plan t l1 bytes uncounted a positive small in
    let kept = end_warmup-keeps plan t l in
    (
      l2,
      p,
      round-steps plan t l l2 bytes unlimited got positive taken,
      running ∙ kept.0,
      offered ∙ ap (λ ps. ps ++ (p ∷ [])) kept.1,
      fresh,
    )

-- The loop over ticks that each bring a frame.
pub capture-Carry :
    (size : ℕ) (plan : Plan) (ticks : List Tick) (frames : List (List ℕ)) (l : Loop)
    → plan.measure_end_ns ≡ 0
    → plan.max_packets ≡ 0
    → l.run_is_running ≡ true
    → 0 < size
    → all_received ticks ≡ cuts size frames
    → Undisturbed ticks
    → Sized frames
    → (l' : Loop) × (packets : List Packet) × (capture plan ticks l ≡ some l')
      × (l'.offered ≡ l.offered ++ packets)
      × Carry packets (all_cut size frames)
unfolding capture
capture-Carry size plan [] [] l unlimited uncounted running room got u sized =
    (l, [], refl, sym (append-nil l.offered), tt)
capture-Carry size plan [] (f ∷ frames) l unlimited uncounted running room got u sized = absurd cc
capture-Carry size plan (t ∷ ticks) [] l unlimited uncounted running room got u sized = absurd cc
capture-Carry size plan (t ∷ ticks) (f ∷ frames) l unlimited uncounted running room got u sized =
    let count = length-take {0} size f in
    let (l1, p, done, on, offered, fresh) =
      round-frame plan t l (take size f) unlimited uncounted (ap head_of got) (u.0).1
        (omega (arith, count, room, sized.0)) (omega (arith, count, sized.1)) in
    let (l', packets, rest, all_offered, carry) =
      capture-Carry size plan ticks frames l1 unlimited uncounted (on ∙ running) room
        (ap tail_of got) u.1 sized.2 in
    (
      l',
      p ∷ packets,
      capture-steps plan t ticks l l1 u.0.0 running done ∙ rest,
      all_offered ∙ (ap (λ ps. ps ++ packets) offered ∙ append_assoc l.offered (p ∷ []) packets),
      (fresh, carry),
    )
