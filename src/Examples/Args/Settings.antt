-- ===== src/Examples/Args/Settings.antt =====
-- src/examples/baseline.rs: what the command line comes to.
use lumberjack_protocol.Examples.Args.{
  Args, Knob, parsed, exits, panics, defaults, turn, flag_of, knob, help, unknown, parse_number,
  parse_from, parse, sets_clients, sets_duration, sets_event_size, sets_batch,
}
use lumberjack_protocol.Base.{
  ℕ, String, List, [], ◌∷◌, ◌++◌, some, none, ◌≡◌, refl, ◌∙◌, subst, append-nil,
}

-- A knob with a number behind it.
pub record Setting : Type 0 where
  pub which : Knob
  pub text : String
  pub number : ℕ
  pub reads : parse_number text ≡ some number

abbrev pub name_of : Knob → String
name_of sets_clients = "--clients"
name_of sets_duration = "--duration"
name_of sets_event_size = "--event-size"
name_of sets_batch = "--batch"

abbrev pub words : List Setting → List String
words [] = []
words (s ∷ ss) = name_of s.which ∷ s.text ∷ words ss

abbrev pub turn_all : List Setting → Args → Args
turn_all [] args = args
turn_all (s ∷ ss) args = turn_all ss (turn s.which s.number args)

flag_of-name_of : (k : Knob) → flag_of (name_of k) ≡ knob k
flag_of-name_of sets_clients = refl
flag_of-name_of sets_duration = refl
flag_of-name_of sets_event_size = refl
flag_of-name_of sets_batch = refl

-- Settings are taken one after the other, so that the last one of a knob counts.
parse_from-words :
    (ss : List Setting) (args : Args) (rest : List String)
    → parse_from args (words ss ++ rest) ≡ parse_from (turn_all ss args) rest
unfolding parse_from
parse_from-words [] args rest = refl
parse_from-words (s ∷ ss) args rest =
    rw (flag_of-name_of s.which, parse_from)
      (rw s.reads (parse_from-words ss (turn s.which s.number args) rest))

parse_from_unknown :
    (args : Args) (a : String) (rest : List String)
    → flag_of a ≡ unknown
    → parse_from args (a ∷ rest) ≡ panics
unfolding parse_from
parse_from_unknown args a [] h = rw (h, parse_from)
parse_from_unknown args a (v ∷ rest) h = rw (h, parse_from)

parse_from_help :
    (args : Args) (a : String) (rest : List String)
    → flag_of a ≡ help
    → parse_from args (a ∷ rest) ≡ exits
unfolding parse_from
parse_from_help args a [] h = rw (h, parse_from)
parse_from_help args a (v ∷ rest) h = rw (h, parse_from)

module _ (ss : List Setting) where
  -- Any settings in any order, each with a number that can be read: each knob has the number of its
  -- last setting, or its default.
  pub parse-words : parse (words ss) ≡ parsed (turn_all ss defaults)
  unfolding parse
  parse-words =
      subst (λ ws. parse_from defaults ws ≡ parsed (turn_all ss defaults)) (append-nil (words ss))
        (parse_from-words ss defaults [])

  -- Behind such settings, an argument that is none of the flags is a panic, whatever follows it.
  pub parse_unknown :
      (a : String) (rest : List String)
      → flag_of a ≡ unknown
      → parse (words ss ++ a ∷ rest) ≡ panics
  unfolding parse
  parse_unknown a rest h =
      parse_from-words ss defaults (a ∷ rest) ∙ parse_from_unknown (turn_all ss defaults) a rest h

  -- A request for help ends the program, whatever follows it.
  pub parse_help :
      (a : String) (rest : List String) → flag_of a ≡ help → parse (words ss ++ a ∷ rest) ≡ exits
  unfolding parse
  parse_help a rest h =
      parse_from-words ss defaults (a ∷ rest) ∙ parse_from_help (turn_all ss defaults) a rest h

  -- A knob with nothing behind it, or with a text that is no number, is a panic.
  pub parse_valueless : (k : Knob) → parse (words ss ++ name_of k ∷ []) ≡ panics
  unfolding parse parse_from
  parse_valueless k =
      parse_from-words ss defaults (name_of k ∷ []) ∙ rw (flag_of-name_of k, parse_from) refl

  pub parse_invalid :
      (k : Knob) (v : String) (rest : List String)
      → parse_number v ≡ none
      → parse (words ss ++ name_of k ∷ v ∷ rest) ≡ panics
  unfolding parse parse_from
  parse_invalid k v rest h =
      parse_from-words ss defaults (name_of k ∷ v ∷ rest)
      ∙ rw (flag_of-name_of k, parse_from) (rw h refl)
