-- ===== src/Buffer/Tests.antt =====
-- Runs of the circular buffer, and the theorems of `Buffer.Refine` at concrete buffers.
use packet_analyzer.Prelude.{◌≡◌, refl, some, [], ◌∷◌, arith, store}
use packet_analyzer.Buffer.{CircularBuffer, success, write, read, write_loop, read_loop}
use packet_analyzer.Buffer.Window.{IsValid, contents}
use packet_analyzer.Buffer.Refine.{Appends, TakesOff, write-Appends, read-TakesOff}

-- Four bytes, of which the bytes 8 and 9 lie round the end.
abbrev wrapped : CircularBuffer
wrapped = record { bytes = 9 ∷ 0 ∷ 0 ∷ 8 ∷ []; capacity = 4; used = 2; head = 3; tail = 1 }

abbrev fresh : CircularBuffer
fresh = record { bytes = 0 ∷ 0 ∷ 0 ∷ []; capacity = 3; used = 0; head = 2; tail = 2 }

wrapped-IsValid : IsValid wrapped
wrapped-IsValid = omega arith

abbrev created : CircularBuffer
created = record { bytes = 0 ∷ 0 ∷ 0 ∷ []; capacity = 3; used = 0; head = 0; tail = 0 }

fresh-IsValid : IsValid fresh
fresh-IsValid = omega arith

contents-wrapped : contents wrapped ≡ 8 ∷ 9 ∷ []
contents-wrapped = refl

write_two :
    write (some wrapped) (some (5 ∷ 6 ∷ [])) 2
    ≡ some (success, some (record wrapped { bytes = 9 ∷ 5 ∷ 6 ∷ 8 ∷ []; used = 4; tail = 3 }))
unfolding write write_loop store
write_two = refl

read_two :
    read (some wrapped) (some (0 ∷ 0 ∷ 0 ∷ [])) 2
    ≡ some (success, some (record wrapped { used = 0; head = 1 }), some (8 ∷ 9 ∷ 0 ∷ []))
unfolding read read_loop store
read_two = refl

write-Appends_example : Appends wrapped (5 ∷ 6 ∷ []) 2 (write (some wrapped) (some (5 ∷ 6 ∷ [])) 2)
write-Appends_example =
    write-Appends wrapped (5 ∷ 6 ∷ []) 2 wrapped-IsValid (omega arith) (omega arith) (omega arith)

read-TakesOff_example : TakesOff wrapped (0 ∷ []) 1 (read (some wrapped) (some (0 ∷ [])) 1)
read-TakesOff_example =
    read-TakesOff wrapped (0 ∷ []) 1 wrapped-IsValid (omega arith) (omega arith) (omega arith)
