-- ===== src/Examples/Args.antt =====
-- src/examples/baseline.rs: the command line, and the events that are sent.
pub mod Settings
pub mod Printed
use text.Mathlib.Text.{◌==◌ as str_eq}
use lumberjack_protocol.Base.{
  codes, ℕ, zero, suc, String, List, [], ◌∷◌, ◌++◌, Option, some, none, Bool, true, false, ◌≡◌,
  refl, ◌<◌, ◌≤◌, ◌+◌, ◌-◌, ◌*◌, ◌^◌, ◌==◌, ◌&&◌, not, leb, ltb, if◌then◌else◌, All, length, arith,
  Bytes, ◌||◌, ◌∙◌, subst, append-nil,
}

-- `str::parse` into a `usize` or a `u64`, which have 64 bits: a sign `+` if there is one, and one
-- digit or more whose number fits.
parse_digits : ℕ → Bytes → Option ℕ
parse_digits n [] = some n
parse_digits n (c ∷ cs) =
    if leb b'0' c && leb c b'9' && ltb (n * 10 + (c - b'0')) (2 ^ 64)
    then parse_digits (n * 10 + (c - b'0')) cs
    else none

unfoldable pub parse_bytes : Bytes → Option ℕ
unfolding parse_digits
parse_bytes [] = none
parse_bytes (c ∷ []) = parse_digits 0 (c ∷ [])
parse_bytes (c ∷ d ∷ cs) =
    if c == b'+' then parse_digits 0 (d ∷ cs) else parse_digits 0 (c ∷ d ∷ cs)

pub parse_number : String → Option ℕ
unfolding parse_bytes
parse_number s = parse_bytes (codes s)

-- `duration` is a number of seconds.
pub record Args : Type 0 where
  pub clients : ℕ
  pub duration : ℕ
  pub event_size : ℕ
  pub batch : ℕ

abbrev pub defaults : Args
defaults = record { clients = 1; duration = 10; event_size = 250; batch = 128 }

-- The patterns of the `match`.
pub data Knob : Type 0 where
  sets_clients sets_duration sets_event_size sets_batch : Knob

pub data Flag : Type 0 where
  knob : Knob → Flag
  help : Flag
  unknown : Flag

abbrev pub flag_of : String → Flag
flag_of a =
    if str_eq a "--clients"
    then knob sets_clients
    else if str_eq a "--duration"
    then knob sets_duration
    else if str_eq a "--event-size"
    then knob sets_event_size
    else if str_eq a "--batch"
    then knob sets_batch
    else if str_eq a "--help" || str_eq a "-h"
    then help
    else unknown

abbrev pub turn : Knob → ℕ → Args → Args
turn sets_clients n a = record a { clients = n }
turn sets_duration n a = record a { duration = n }
turn sets_event_size n a = record a { event_size = n }
turn sets_batch n a = record a { batch = n }

-- `Args::parse`: the arguments, the end of the program after the usage line, or a panic.
pub data Parsed : Type 0 where
  parsed : Args → Parsed
  exits : Parsed
  panics : Parsed

-- The `while let`; each knob takes the next argument, and both `unwrap`s panic.
pub parse_from : Args → List String → Parsed
unfolding parse_number
parse_from args [] = parsed args
parse_from args (a ∷ []) = elim (flag_of a) [ help ↦ exits | unknown ↦ panics | knob k ↦ panics ]
parse_from args (a ∷ v ∷ rest) = elim (flag_of a) [
  | help ↦ exits
  | unknown ↦ panics
  | knob k ↦ elim (parse_number v) [ none ↦ panics | some n ↦ parse_from (turn k n args) rest ]
]

pub parse : List String → Parsed
unfolding parse_from
parse arguments = parse_from defaults arguments

parse_some :
    parse ("--batch" ∷ "64" ∷ "--clients" ∷ "+4" ∷ "--batch" ∷ "32" ∷ [])
    ≡ parsed (record { clients = 4; duration = 10; event_size = 250; batch = 32 })
unfolding parse
parse_some = refl

-- `make_event`: the four members of the object, whose message is padded.
pub record SyntheticEvent : Type 0 where
  pub timestamp : String
  pub level : String
  pub host : String
  pub msg : Bytes

abbrev skeleton : Bytes
skeleton =
    codes
      "{\"timestamp\":\"2026-04-09T08:30:00Z\",\"level\":\"info\",\"host\":\"server-01\",\"msg\":\"\"}"

abbrev pub replicate : ℕ → ℕ → Bytes
replicate zero c = []
replicate (suc n) c = c ∷ replicate n c

-- `saturating_sub` is the subtraction on ℕ.
pub make_event : ℕ → SyntheticEvent
make_event target_size = record {
  timestamp = "2026-04-09T08:30:00Z";
  level = "info";
  host = "server-01";
  msg = replicate (target_size - length skeleton) b'x';
}

length-replicate : (n c : ℕ) → length (replicate n c) ≡ n
length-replicate zero c = refl
length-replicate (suc n) c = omega (arith, length-replicate n c)

-- The padding makes up for what the rest of the object, without a message, is short of the target.
pub make_event_size :
    (target_size : ℕ)
    → length skeleton ≤ target_size
    → length skeleton + length (make_event target_size).msg ≡ target_size
unfolding make_event
make_event_size target_size h = omega (arith, length-replicate (target_size - length skeleton) b'x')
