-- ===== src/ThreadPool/Phases.antt =====
-- The list of where the workers stand.
use packet_analyzer.Prelude.{
  ℕ, zero, suc, ◌≡◌, ◌≢◌, refl, ap, some, List, [], ◌∷◌, length, length-set, get_elem?, set,
}
use packet_analyzer.ThreadPool.System.{
  Phase, waiting, sleeping, holding, counting, exited, NoneAsleep, Signalled, nobody, one,
  broadcast,
}

pub get_elem?-set_self :
    (ws : List Phase) (w : ℕ) (x y : Phase)
    → get_elem? ws w ≡ some x
    → get_elem? (set ws w y) w ≡ some y
get_elem?-set_self [] w x y e = absurd cc
get_elem?-set_self (v ∷ ws) zero x y e = refl
get_elem?-set_self (v ∷ ws) (suc w) x y e = get_elem?-set_self ws w x y e

pub get_elem?-set_ne :
    (ws : List Phase) (w v : ℕ) (y : Phase) → w ≢ v → get_elem? (set ws w y) v ≡ get_elem? ws v
get_elem?-set_ne [] w v y d = refl
get_elem?-set_ne (u ∷ ws) zero zero y d = absurd (d refl)
get_elem?-set_ne (u ∷ ws) zero (suc v) y d = refl
get_elem?-set_ne (u ∷ ws) (suc w) zero y d = refl
get_elem?-set_ne (u ∷ ws) (suc w) (suc v) y d = get_elem?-set_ne ws w v y (λ e. d (ap suc e))

-- A worker that has left stays away.
pub exited-set :
    (ws : List Phase) (w j : ℕ) (x y : Phase)
    → get_elem? ws w ≡ some x
    → x ≢ exited
    → get_elem? ws j ≡ some exited
    → get_elem? (set ws w y) j ≡ some exited
exited-set [] w j x y at other h = absurd cc
exited-set (v ∷ ws) zero zero x y at other h = absurd (other cc)
exited-set (v ∷ ws) zero (suc j) x y at other h = h
exited-set (v ∷ ws) (suc w) zero x y at other h = h
exited-set (v ∷ ws) (suc w) (suc j) x y at other h = exited-set ws w j x y at other h

pub exited-Signalled :
    (ws ws' : List Phase) (j : ℕ)
    → Signalled ws ws'
    → get_elem? ws j ≡ some exited
    → get_elem? ws' j ≡ some exited
exited-Signalled ws ws' j (nobody none_asleep) h = h
exited-Signalled ws ws' j (one w at) h = exited-set ws w j sleeping waiting at (λ e. cc) h

pub exited-broadcast :
    (ws : List Phase) (j : ℕ)
    → get_elem? ws j ≡ some exited
    → get_elem? (broadcast ws) j ≡ some exited
exited-broadcast [] j h = absurd cc
exited-broadcast (exited ∷ ws) zero h = refl
exited-broadcast (waiting ∷ ws) zero h = absurd cc
exited-broadcast (sleeping ∷ ws) zero h = absurd cc
exited-broadcast (holding p ∷ ws) zero h = absurd cc
exited-broadcast (counting p n ∷ ws) zero h = absurd cc
exited-broadcast (exited ∷ ws) (suc j) h = exited-broadcast ws j h
exited-broadcast (waiting ∷ ws) (suc j) h = exited-broadcast ws j h
exited-broadcast (sleeping ∷ ws) (suc j) h = exited-broadcast ws j h
exited-broadcast (holding p ∷ ws) (suc j) h = exited-broadcast ws j h
exited-broadcast (counting p n ∷ ws) (suc j) h = exited-broadcast ws j h

pub length-Signalled : (ws ws' : List Phase) → Signalled ws ws' → length ws' ≡ length ws
length-Signalled ws ws' (nobody none_asleep) = refl
length-Signalled ws ws' (one w at) = length-set ws w waiting

pub length-broadcast : (ws : List Phase) → length (broadcast ws) ≡ length ws
length-broadcast [] = refl
length-broadcast (waiting ∷ ws) = ap suc (length-broadcast ws)
length-broadcast (sleeping ∷ ws) = ap suc (length-broadcast ws)
length-broadcast (holding p ∷ ws) = ap suc (length-broadcast ws)
length-broadcast (counting p n ∷ ws) = ap suc (length-broadcast ws)
length-broadcast (exited ∷ ws) = ap suc (length-broadcast ws)

cons : (y : Phase) (ws : List Phase) → NoneAsleep (y ∷ []) → NoneAsleep ws → NoneAsleep (y ∷ ws)
cons waiting ws a h = h
cons sleeping ws a h = a
cons (holding p) ws a h = h
cons (counting p n) ws a h = h
cons exited ws a h = h

-- Nobody falls asleep by another phase, by a signal or by a broadcast.
pub NoneAsleep-set :
    (ws : List Phase) (w : ℕ) (y : Phase)
    → NoneAsleep ws
    → NoneAsleep (y ∷ [])
    → NoneAsleep (set ws w y)
NoneAsleep-set [] w y h a = h
NoneAsleep-set (sleeping ∷ ws) w y h a = absurd h
NoneAsleep-set (waiting ∷ ws) zero y h a = cons y ws a h
NoneAsleep-set (holding p ∷ ws) zero y h a = cons y ws a h
NoneAsleep-set (counting p n ∷ ws) zero y h a = cons y ws a h
NoneAsleep-set (exited ∷ ws) zero y h a = cons y ws a h
NoneAsleep-set (waiting ∷ ws) (suc w) y h a = NoneAsleep-set ws w y h a
NoneAsleep-set (holding p ∷ ws) (suc w) y h a = NoneAsleep-set ws w y h a
NoneAsleep-set (counting p n ∷ ws) (suc w) y h a = NoneAsleep-set ws w y h a
NoneAsleep-set (exited ∷ ws) (suc w) y h a = NoneAsleep-set ws w y h a

pub NoneAsleep-broadcast : (ws : List Phase) → NoneAsleep (broadcast ws)
NoneAsleep-broadcast [] = tt
NoneAsleep-broadcast (waiting ∷ ws) = NoneAsleep-broadcast ws
NoneAsleep-broadcast (sleeping ∷ ws) = NoneAsleep-broadcast ws
NoneAsleep-broadcast (holding p ∷ ws) = NoneAsleep-broadcast ws
NoneAsleep-broadcast (counting p n ∷ ws) = NoneAsleep-broadcast ws
NoneAsleep-broadcast (exited ∷ ws) = NoneAsleep-broadcast ws

pub NoneAsleep-get : (ws : List Phase) (w : ℕ) → NoneAsleep ws → get_elem? ws w ≢ some sleeping
NoneAsleep-get [] w h e = cc
NoneAsleep-get (sleeping ∷ ws) w h e = absurd h
NoneAsleep-get (waiting ∷ ws) zero h e = cc
NoneAsleep-get (holding p ∷ ws) zero h e = cc
NoneAsleep-get (counting p n ∷ ws) zero h e = cc
NoneAsleep-get (exited ∷ ws) zero h e = cc
NoneAsleep-get (waiting ∷ ws) (suc w) h e = NoneAsleep-get ws w h e
NoneAsleep-get (holding p ∷ ws) (suc w) h e = NoneAsleep-get ws w h e
NoneAsleep-get (counting p n ∷ ws) (suc w) h e = NoneAsleep-get ws w h e
NoneAsleep-get (exited ∷ ws) (suc w) h e = NoneAsleep-get ws w h e

pub NoneAsleep-Signalled : (ws ws' : List Phase) → Signalled ws ws' → NoneAsleep ws → NoneAsleep ws'
NoneAsleep-Signalled ws ws' (nobody none_asleep) h = h
NoneAsleep-Signalled ws ws' (one w at) h = NoneAsleep-set ws w waiting h tt
