-- ===== src/Go/Flag.antt =====
-- Package flag: the arguments of a command, read into a set of flags that exits on an error. A flag
-- is a function that sets a field of the options `S`, or fails.
use Prim.Native.Char.{code}
use eks_ami_operator.Base.{
  ℕ, Bool, true, false, ◌||◌, String, str_eq, ◌==◌, if◌then◌else◌, List, [], ◌∷◌, Option, none,
  some,
}
use eks_ami_operator.Go.Error.{Result, ok, err, plain}

-- One argument: no flag, the end mark "--", bad syntax, or a flag's name with what follows "=".
pub data Arg : Type 0 where
  operand : Arg
  end_mark : Arg
  bad_syntax : Arg
  named : String → Option String → Arg

-- The loop that looks for "=".
abbrev pub cut : String → String × Option String
cut String.[] = (String.[], none)
cut (String.◌∷◌ c s) =
    let (name, value) = cut s in
    if code c == b'=' then (String.[], some s) else (String.◌∷◌ c name, value)

abbrev pub flag_name : String → Arg
flag_name String.[] = Arg.bad_syntax
flag_name (String.◌∷◌ c s) =
    let (name, value) = cut (String.◌∷◌ c s) in
    if code c == b'-' || code c == b'=' then Arg.bad_syntax else Arg.named name value

-- Behind two minuses.
abbrev pub long_name : String → Arg
long_name String.[] = Arg.end_mark
long_name (String.◌∷◌ c s) = flag_name (String.◌∷◌ c s)

-- The head of FlagSet.parseOne.
unfoldable pub classify : String → Arg
classify String.[] = Arg.operand
classify (String.◌∷◌ c String.[]) = Arg.operand
classify (String.◌∷◌ c (String.◌∷◌ d s)) =
    if code c == b'-'
    then (if code d == b'-' then long_name s else flag_name (String.◌∷◌ d s))
    else Arg.operand

-- strconv.ParseBool
unfoldable pub parse_bool : String → Result Bool
parse_bool s =
    if str_eq s "1"
      || str_eq s "t"
      || str_eq s "T"
      || str_eq s "true"
      || str_eq s "TRUE"
      || str_eq s "True"
    then ok true
    else if str_eq s "0"
        || str_eq s "f"
        || str_eq s "F"
        || str_eq s "false"
        || str_eq s "FALSE"
        || str_eq s "False"
    then ok false
    else err (plain "parse error")

-- A flag that needs no argument, and one that takes the next argument if it has no "=".
pub data Flag (S : Type 0) : Type 0 where
  boolean : (Bool → S → S) → Flag S
  valued : (String → S → Result S) → Flag S

-- StringVar
abbrev pub text : {S : Type 0} → (String → S → S) → Flag S
text f = Flag.valued (λ v s. ok (f v s))

-- What the command goes on with: the options and the operands, or the status that it exits with.
pub data Parse (S : Type 0) : Type 0 where
  parsed : S → List String → Parse S
  exits : ℕ → Parse S

-- The flag of a name, among those that were defined.
unfoldable pub find : {S : Type 0} → String → List (String × Flag S) → Option (Flag S)
find n [] = none
find n ((name, f) ∷ flags) = if str_eq n name then some f else find n flags

module _ {S : Type 0} where
  -- A flag is set, and the loop goes on with the options; an error exits.
  abbrev pub go_on : (S → Parse S) → Result S → Parse S
  go_on k (ok s) = k s
  go_on k (err _) = Parse.exits 2

  -- A name that is not defined; "help" and "h" are asked for.
  abbrev pub undefined : String → Parse S
  undefined name = if str_eq name "help" || str_eq name "h" then Parse.exits 0 else Parse.exits 2

  abbrev pub set_boolean : (Bool → S → S) → Option String → S → Result S
  set_boolean f none s = ok (f true s)
  set_boolean f (some v) s = elim (parse_bool v) [ ok b ↦ ok (f b s) | err e ↦ err e ]

  -- The tail of FlagSet.parseOne: `k` goes on, `wait` takes the next argument for the value.
  abbrev pub on_flag :
      (S → Parse S)
      → ((String → S → Result S) → Parse S)
      → S
      → String
      → Option String
      → Option (Flag S)
      → Parse S
  on_flag k wait s name value none = undefined name
  on_flag k wait s name value (some (Flag.boolean f)) = go_on k (set_boolean f value s)
  on_flag k wait s name none (some (Flag.valued f)) = wait f
  on_flag k wait s name (some v) (some (Flag.valued f)) = go_on k (f v s)

module _ {S : Type 0} (flags : String → Option (Flag S)) where
  -- FlagSet.parseOne, on the argument `a` before `args`.
  abbrev pub on_arg :
      (S → Parse S) → ((String → S → Result S) → Parse S) → S → String → List String → Arg → Parse S
  on_arg k wait s a args Arg.operand = Parse.parsed s (a ∷ args)
  on_arg k wait s a args Arg.end_mark = Parse.parsed s args
  on_arg k wait s a args Arg.bad_syntax = Parse.exits 2
  on_arg k wait s a args (Arg.named name value) = on_flag k wait s name value (flags name)

  -- The loop of FlagSet.Parse. A valued flag whose value is the next argument waits for it.
  unfoldable pub parse_loop : Option (String → S → Result S) → List String → S → Parse S
  parse_loop (some f) [] s = Parse.exits 2
  parse_loop (some f) (v ∷ args) s = go_on (parse_loop none args) (f v s)
  parse_loop none [] s = Parse.parsed s []
  parse_loop none (a ∷ args) s =
      on_arg (parse_loop none args) (λ f. parse_loop (some f) args s) s a args (classify a)

  unfoldable pub parse : List String → S → Parse S
  unfolding parse_loop
  parse args s = parse_loop none args s
