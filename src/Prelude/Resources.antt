-- ===== src/Prelude/Resources.antt =====
-- What the program acquires and must release.
use Prim.Native.Nat.{ℕ}
use mathlib.Core.Bool.{Bool, true, false}
use mathlib.Core.Path.{◌≡◌, refl}
use mathlib.Core.Logic.{inl, inr}
use mathlib.Core.List.{List, [], ◌∷◌, ◌++◌}
use native.Mathlib.Omega.{arith}
use mathlib.Core.Option.{Option, none, some}
use packet_analyzer.Prelude.Booleans.{◌==◌, ◌>>=◌, if◌then◌else◌, Bool-cases, Option-cases}

pub data Resource : Type 0 where
  -- Of a socket: the configuration, its interface name, its BPF buffer, its descriptor.
  config_memory name_memory bpf_memory : Resource
  descriptor : ℕ → Resource
  -- Of `main`.
  pool packet_memory run_memory logger_memory : Resource
  json_path baseline_path traffic_mode traffic_target : Resource

pub data Event : Type 0 where
  acquire release : Resource → Event

abbrev pub is_same : Resource → Resource → Bool
is_same config_memory config_memory = true
is_same name_memory name_memory = true
is_same bpf_memory bpf_memory = true
is_same (descriptor a) (descriptor b) = a == b
is_same pool pool = true
is_same packet_memory packet_memory = true
is_same run_memory run_memory = true
is_same logger_memory logger_memory = true
is_same json_path json_path = true
is_same baseline_path baseline_path = true
is_same traffic_mode traffic_mode = true
is_same traffic_target traffic_target = true
is_same _ _ = false

-- Takes one off, `none` if it is not held.
abbrev pub remove : Resource → List Resource → Option (List Resource)
remove r [] = none
remove r (x ∷ held) =
    let rest = remove r held in if is_same r x then some held else rest >>= λ left. some (x ∷ left)

-- What is held after the events, from what is held before; `none` if something is released that is
-- not held at that time.
abbrev pub settle : List Resource → List Event → Option (List Resource)
settle held [] = some held
settle held (acquire r ∷ events) = settle (r ∷ held) events
settle held (release r ∷ events) = remove r held >>= λ left. settle left events

remove-append :
    (r : Resource) (xs ys left : List Resource)
    → remove r xs ≡ some left
    → remove r (xs ++ ys) ≡ some (left ++ ys)
remove-append r [] ys left e = absurd cc
remove-append r (x ∷ xs) ys left e = elim (Bool-cases (is_same r x)) [
  | inl same ↦ ground (arith, same, e)
  | inr other ↦ elim (Option-cases (remove r xs)) [
    | inl absent ↦ absurd (ground (arith, other, e, absent))
    | inr (rest, found) ↦ ground (arith, other, e, found, remove-append r xs ys rest found)
  ]
]

-- What is held besides is not touched.
pub settle-append :
    (events : List Event) (held kept left : List Resource)
    → settle held events ≡ some left
    → settle (held ++ kept) events ≡ some (left ++ kept)
settle-append [] held kept left e = ground (arith, e)
settle-append (acquire r ∷ events) held kept left e = settle-append events (r ∷ held) kept left e
settle-append (release r ∷ events) held kept left e = elim (Option-cases (remove r held)) [
  | inl absent ↦ absurd (ground (arith, e, absent))
  | inr (rest, found) ↦
      rw (remove-append r held kept rest found)
        (settle-append events rest kept left (ground (arith, e, found)))
]

pub settle-events :
    (first second : List Event) (held : List Resource)
    → settle held (first ++ second) ≡ (settle held first >>= λ between. settle between second)
settle-events [] second held = refl
settle-events (acquire r ∷ first) second held = settle-events first second (r ∷ held)
settle-events (release r ∷ first) second held = elim (Option-cases (remove r held)) [
  | inl absent ↦ rw absent refl
  | inr (rest, found) ↦ rw found (settle-events first second rest)
]
