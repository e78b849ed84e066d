-- ===== src/ThreadPool/Chain.antt =====
-- The work queue as a chain of items in the heap, from the head to the tail.
use packet_analyzer.Prelude.{sym, ℕ, ◌≡◌, ◌≢◌, refl, arith, Option, none, some, List, [], ◌∷◌, ◌++◌}
use packet_analyzer.Packet.{Packet}
use packet_analyzer.ThreadPool.Queue.{WorkItem, Heap, update}

-- The chain from `head` holds the packets in order, at the distinct addresses listed, and `tail` is
-- the address of the last.
abbrev pub Linked : Heap → Option ℕ → List (ℕ × Packet) → Option ℕ → Type 0
Linked heap head [] tail = (head ≡ none) × (tail ≡ none)
Linked heap head ((a, p) ∷ []) tail =
    (head ≡ some a) × (heap a ≡ some (record { packet = p; next = none })) × (tail ≡ some a)
Linked heap head ((a, p) ∷ (b, q) ∷ rest) tail =
    (head ≡ some a)
    × (heap a ≡ some (record { packet = p; next = some b }))
    × Linked heap (some b) ((b, q) ∷ rest) tail

abbrev pub Apart : ℕ → List (ℕ × Packet) → Type 0
Apart a [] = Unit {0}
Apart a ((b, _) ∷ rest) = (a ≢ b) × Apart a rest

abbrev pub Distinct : List (ℕ × Packet) → Type 0
Distinct [] = Unit {0}
Distinct ((a, _) ∷ rest) = Apart a rest × Distinct rest

-- A write elsewhere leaves a chain.
pub Linked-update :
    (heap : Heap) (a : ℕ) (item : Option WorkItem) (head tail : Option ℕ)
    (items : List (ℕ × Packet))
    → Apart a items
    → Linked heap head items tail
    → Linked (update heap a item) head items tail
Linked-update heap a item head tail [] d l = l
Linked-update heap a item head tail ((b, p) ∷ []) d l = ground arith
Linked-update heap a item head tail ((b, p) ∷ (c, q) ∷ rest) d l =
    let ih = Linked-update heap a item (some c) tail ((c, q) ∷ rest) d.1 l.2 in
    (l.0, ground arith, ih)

-- The tail is the address of an item.
Linked-tail-Apart :
    (heap : Heap) (a last : ℕ) (head : Option ℕ) (b : ℕ) (p : Packet) (rest : List (ℕ × Packet))
    → Apart a ((b, p) ∷ rest)
    → Linked heap head ((b, p) ∷ rest) (some last)
    → a ≢ last
Linked-tail-Apart heap a last head b p [] d l = ground arith
Linked-tail-Apart heap a last head b p ((c, q) ∷ rest) d l =
    Linked-tail-Apart heap a last (some c) c q rest d.1 l.2

-- A new last item: the old tail's `next` is set to it.
pub Linked-append :
    (heap : Heap) (a last : ℕ) (x : WorkItem) (packet : Packet) (head : Option ℕ)
    (items : List (ℕ × Packet))
    → items ≢ []
    → Apart a items
    → Distinct items
    → Linked heap head items (some last)
    → heap a ≡ some (record { packet = packet; next = none })
    → heap last ≡ some x
    → Linked
        (update heap last (some (record x { next = some a })))
        head
        (items ++ ((a, packet) ∷ []))
        (some a)
Linked-append heap a last x packet head [] ne d ds l ha hl = absurd (ne refl)
Linked-append heap a last x packet head ((b, p) ∷ []) ne d ds l ha hl =
    (ground arith, ground arith, (refl, ground arith, refl))
Linked-append heap a last x packet head ((b, p) ∷ (c, q) ∷ rest) ne d ds l ha hl =
    let elsewhere = Linked-tail-Apart heap b last (some c) c q rest ds.0 l.2 in
    let ih =
      Linked-append heap a last x packet (some c) ((c, q) ∷ rest) (λ e. cc) d.1 ds.1 l.2 ha hl in
    (l.0, ground arith, ih)

pub Distinct-append :
    (items : List (ℕ × Packet)) (a : ℕ) (p : Packet)
    → Apart a items
    → Distinct items
    → Distinct (items ++ ((a, p) ∷ []))
Distinct-append [] a p d ds = (tt, tt)
Distinct-append ((b, q) ∷ items) a p d ds = (apart items ds.0, Distinct-append items a p d.1 ds.1)
  where
    apart : (xs : List (ℕ × Packet)) → Apart b xs → Apart b (xs ++ ((a, p) ∷ []))
    apart [] h = (λ e. d.0 (sym e), tt)
    apart ((c, r) ∷ xs) h = (h.0, apart xs h.1)

-- The tail of a chain that is not empty is the address of an item.
pub Linked-tail :
    (heap : Heap) (head tail : Option ℕ) (b : ℕ) (q : Packet) (rest : List (ℕ × Packet))
    → Linked heap head ((b, q) ∷ rest) tail
    → (last : ℕ) × (x : WorkItem) × (tail ≡ some last) × (heap last ≡ some x)
Linked-tail heap head tail b q [] l = (b, _, l.2, l.1)
Linked-tail heap head tail b q ((c, r) ∷ rest) l = Linked-tail heap (some c) tail c r rest l.2
