-- ===== src/Examples/Usage.antt =====
-- src/examples/baseline.rs: the processor time and the memory that the harness used.
use lumberjack_protocol.Examples.Args.{parse_bytes}
use lumberjack_protocol.Base.{
  codes, ℕ, List, [], ◌∷◌, ◌++◌, Option, some, none, Bool, true, false, ◌≡◌, refl, ◌<◌, ◌+◌, ◌*◌,
  ◌%◌, ◌^◌, ◌==◌, ◌&&◌, ◌||◌, leb, if◌then◌else◌, All, arith, Bytes,
}

-- What `getrusage` fills in: seconds and microseconds of either kind.
pub record Rusage : Type 0 where
  pub user_sec : ℕ
  pub user_usec : ℕ
  pub sys_sec : ℕ
  pub sys_usec : ℕ

-- `Duration::new`, in nanoseconds.
abbrev duration_new : ℕ → ℕ → ℕ
duration_new secs nanos = secs * 1_000_000_000 + nanos

-- `tv_usec as u32` cuts, and the product wraps.
abbrev nanos_of : ℕ → ℕ
nanos_of usec = usec % 2 ^ 32 * 1000 % 2 ^ 32

pub cpu_time : Rusage → ℕ
cpu_time ru =
    duration_new ru.user_sec (nanos_of ru.user_usec)
    + duration_new ru.sys_sec (nanos_of ru.sys_usec)

-- Where the microseconds are less than a second, as they are documented to be, nothing is cut or
-- wraps: the result is all the time, in nanoseconds.
pub cpu_time_lem :
    (ru : Rusage)
    → ru.user_usec < 1_000_000
    → ru.sys_usec < 1_000_000
    → cpu_time ru ≡ ((ru.user_sec + ru.sys_sec) * 1_000_000 + ru.user_usec + ru.sys_usec) * 1000
unfolding cpu_time
cpu_time_lem ru h k = omega arith

-- The white space of an ASCII text.
abbrev pub is_space : ℕ → Bool
is_space c = c == b' ' || (leb 9 c && leb c 13)

pub strip_prefix : Bytes → Bytes → Option Bytes
strip_prefix [] line = some line
strip_prefix (p ∷ ps) [] = none
strip_prefix (p ∷ ps) (c ∷ cs) = if p == c then strip_prefix ps cs else none

trim_start : Bytes → Bytes
trim_start [] = []
trim_start (c ∷ cs) = if is_space c then trim_start cs else c ∷ cs

word_at_front : Bytes → Bytes
word_at_front [] = []
word_at_front (c ∷ cs) = if is_space c then [] else c ∷ word_at_front cs

-- `rest.trim().split_whitespace().next()`, parsed; the empty word does not parse either.
parse_first : Bytes → ℕ
unfolding trim_start word_at_front
parse_first rest = elim (parse_bytes (word_at_front (trim_start rest))) [ none ↦ 0 | some n ↦ n ]

-- The lines of `/proc/self/status`, of which there are none if it cannot be read.
pub peak_rss_kib : List Bytes → ℕ
unfolding strip_prefix parse_first
peak_rss_kib [] = 0
peak_rss_kib (line ∷ lines) =
    let later = peak_rss_kib lines in
    elim (strip_prefix (codes "VmHWM:") line) [ some rest ↦ parse_first rest | none ↦ later ]

peak_rss_kib_some :
    peak_rss_kib (codes "VmPeak:\t  9000 kB" ∷ codes "VmHWM:\t    5120 kB" ∷ []) ≡ 5120
unfolding peak_rss_kib parse_bytes
peak_rss_kib_some = refl

abbrev pub IsWord : Bytes → Type 0
IsWord w = All (λ c. is_space c ≡ false) w

trim_start-append :
    (spaces rest : Bytes)
    → All (λ c. is_space c ≡ true) spaces
    → trim_start (spaces ++ rest) ≡ trim_start rest
unfolding trim_start
trim_start-append [] rest h = refl
trim_start-append (c ∷ cs) rest (h, hs) = rw h (trim_start-append cs rest hs)

word_at_front-append :
    (w : Bytes) (space : ℕ) (rest : Bytes)
    → IsWord w
    → is_space space ≡ true
    → word_at_front (w ++ space ∷ rest) ≡ w
unfolding word_at_front
word_at_front-append [] space rest h k = rw k refl
word_at_front-append (c ∷ cs) space rest (h, hs) k =
    rw (h, word_at_front-append cs space rest hs k) refl

trim_start_word : (c : ℕ) (cs : Bytes) → is_space c ≡ false → trim_start (c ∷ cs) ≡ c ∷ cs
unfolding trim_start
trim_start_word c cs h = rw h refl

parse_first-word :
    (spaces : Bytes) (c : ℕ) (cs : Bytes) (space : ℕ) (unit : Bytes) (n : ℕ)
    → All (λ s. is_space s ≡ true) spaces
    → IsWord (c ∷ cs)
    → is_space space ≡ true
    → parse_bytes (c ∷ cs) ≡ some n
    → parse_first (spaces ++ (c ∷ (cs ++ space ∷ unit))) ≡ n
unfolding parse_first
parse_first-word spaces c cs space unit n blank word gap reads =
    rw (trim_start-append spaces (c ∷ (cs ++ space ∷ unit)) blank, parse_first)
      (rw (trim_start_word c (cs ++ space ∷ unit) word.0)
        (rw (word_at_front-append (c ∷ cs) space unit word gap) (rw reads refl)))

-- Behind lines that do not begin with `VmHWM:`, the line with the peak, its number between white
-- space: this number is the result, whatever lines follow.
pub peak_rss_kib_lem :
    (before after : List Bytes) (spaces : Bytes) (c : ℕ) (cs : Bytes) (space : ℕ) (unit : Bytes)
    (n : ℕ)
    → All (λ l. strip_prefix (codes "VmHWM:") l ≡ none) before
    → All (λ s. is_space s ≡ true) spaces
    → IsWord (c ∷ cs)
    → is_space space ≡ true
    → parse_bytes (c ∷ cs) ≡ some n
    → peak_rss_kib (before ++ (codes "VmHWM:" ++ (spaces ++ (c ∷ (cs ++ space ∷ unit)))) ∷ after)
      ≡ n
unfolding peak_rss_kib
peak_rss_kib_lem [] after spaces c cs space unit n other blank word gap reads =
    parse_first-word spaces c cs space unit n blank word gap reads
peak_rss_kib_lem (l ∷ before) after spaces c cs space unit n (o, other) blank word gap reads =
    rw o (peak_rss_kib_lem before after spaces c cs space unit n other blank word gap reads)
