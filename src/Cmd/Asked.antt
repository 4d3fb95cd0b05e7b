-- ===== src/Cmd/Asked.antt =====
-- A flag that is not named on the command line keeps its default.
use eks_ami_operator.Base.{
  ◌≡◌, ◌∙◌, refl, arith, Bool, true, false, String, str_eq, str_eq_sound, All, List, [], ◌∷◌,
  Option, none, some, any, Bool-cases, inl, inr,
}
use mathlib.Core.Option
use eks_ami_operator.Go.Error.{Result, ok, err}
use eks_ami_operator.Go.Flag.{
  Arg, Flag, Parse, classify, parse_bool, set_boolean, go_on, on_flag, on_arg, parse_loop, parse,
  find,
}
use eks_ami_operator.Cmd.Flags.{
  Flags, LibraryFlag, library_flag, own_flags, flag_set, parse_flags, defaults,
}

abbrev is_named : String → Arg → Bool
is_named name (Arg.named n _) = str_eq n name
is_named name Arg.operand = false
is_named name Arg.end_mark = false
is_named name Arg.bad_syntax = false

-- An argument spells the flag `name`, as -name, --name, or with a value behind "=".
abbrev pub asks : String → List String → Bool
asks name args = any (λ a. is_named name (classify a)) args

module _ (library : String → Option LibraryFlag) (get : Flags → Bool) where
  -- Setting the flag leaves `get` alone.
  abbrev pub Leaves : Flag Flags → Type 0
  Leaves (Flag.boolean f) = (b : Bool) (s : Flags) → get (f b s) ≡ get s
  Leaves (Flag.valued f) = (v : String) (s s' : Flags) → f v s ≡ ok s' → get s' ≡ get s

  abbrev pub LeavesAny : Option (Flag Flags) → Type 0
  LeavesAny none = Unit
  LeavesAny (some f) = Leaves f

  accepted-Leaves :
      (l : LibraryFlag)
      → Leaves (Flag.valued (λ v s. elim (l.accepts v) [ ok _ ↦ ok s | err e ↦ err e ]))
  accepted-Leaves l v s s' h = ground arith

  library-LeavesAny : (l : LibraryFlag) → LeavesAny (some (library_flag l))
  unfolding library_flag
  library-LeavesAny l = elim (Bool-cases l.is_boolean) [
    | inl yes' ↦ rw yes' (λ b s. refl)
    | inr no' ↦ rw no' (accepted-Leaves l)
  ]

  -- Every flag but `name` leaves it alone.
  abbrev pub Others : String → List (String × Flag Flags) → Type 0
  Others name flags = All (λ (d : String × Flag Flags). str_eq d.0 name ≡ false → Leaves d.1) flags

  find-Leaves :
      (name n : String) (flags : List (String × Flag Flags))
      → Others name flags
      → str_eq n name ≡ false
      → LeavesAny (find n flags)
  unfolding find
  find-Leaves name n [] others other = tt
  find-Leaves name n ((m, f) ∷ flags) (here, others) other = elim (Bool-cases (str_eq n m)) [
    | inl same ↦ rw same (here (rw (← str_eq_sound n m same) other))
    | inr differ ↦ rw differ (find-Leaves name n flags others other)
  ]

  map-LeavesAny : (o : Option LibraryFlag) → LeavesAny (Option.map library_flag o)
  map-LeavesAny none = tt
  map-LeavesAny (some l) = library-LeavesAny l

  pick-LeavesAny :
      (o : Option (Flag Flags)) (n : String)
      → LeavesAny o
      → LeavesAny (elim o [ some f ↦ some f | none ↦ Option.map library_flag (library n) ])
  pick-LeavesAny none n h = map-LeavesAny (library n)
  pick-LeavesAny (some f) n h = h

  flag_set-LeavesAny :
      (name n : String)
      → Others name own_flags
      → str_eq n name ≡ false
      → LeavesAny (flag_set library n)
  unfolding flag_set
  flag_set-LeavesAny name n others other =
      pick-LeavesAny (find n own_flags) n (find-Leaves name n own_flags others other)

module _ (library : String → Option LibraryFlag) (get : Flags → Bool) (name : String)
    (others : Others library get name own_flags) where
  abbrev Waits : Option (String → Flags → Result Flags) → Type 0
  Waits none = Unit
  Waits (some f) = Leaves library get (Flag.valued f)

  -- What the loop does with options that agree with `s`.
  abbrev Keeps : (Flags → Parse Flags) → Type 0
  Keeps k = (s s' : Flags) (rest : List String) → k s ≡ Parse.parsed s' rest → get s' ≡ get s

  go_on-Keeps :
      (k : Flags → Parse Flags) (r : Result Flags) (s s' : Flags) (rest : List String)
      → Keeps k
      → ((t : Flags) → r ≡ ok t → get t ≡ get s)
      → go_on k r ≡ Parse.parsed s' rest
      → get s' ≡ get s
  go_on-Keeps k (ok t) s s' rest keep same h = keep t s' rest h ∙ same t refl
  go_on-Keeps k (err e) s s' rest keep same h = cc

  set_boolean-same :
      (f : Bool → Flags → Flags) (value : Option String) (s t : Flags)
      → ((b : Bool) (s : Flags) → get (f b s) ≡ get s)
      → set_boolean f value s ≡ ok t
      → get t ≡ get s
  set_boolean-same f none s t h e = cc (h true s)
  set_boolean-same f (some v) s t h e = on_bool (parse_bool v) e
    where
      on_bool :
          (r : Result Bool) → (elim r [ ok b ↦ ok (f b s) | err x ↦ err x ]) ≡ ok t → get t ≡ get s
      on_bool (ok b) e' = cc (h b s)
      on_bool (err x) e' = cc

  on_flag-Keeps :
      (k : Flags → Parse Flags) (wait : (String → Flags → Result Flags) → Parse Flags)
      (s s' : Flags) (rest : List String) (n : String) (value : Option String)
      (o : Option (Flag Flags))
      → Keeps k
      → ((f : String → Flags → Result Flags)
          → Leaves library get (Flag.valued f)
          → wait f ≡ Parse.parsed s' rest
          → get s' ≡ get s)
      → LeavesAny library get o
      → on_flag k wait s n value o ≡ Parse.parsed s' rest
      → get s' ≡ get s
  on_flag-Keeps k wait s s' rest n value none keep later same h = ground arith
  on_flag-Keeps k wait s s' rest n value (some (Flag.boolean f)) keep later same h =
      go_on-Keeps k (set_boolean f value s) s s' rest keep
        (λ t e. set_boolean-same f value s t same e) h
  on_flag-Keeps k wait s s' rest n none (some (Flag.valued f)) keep later same h = later f same h
  on_flag-Keeps k wait s s' rest n (some v) (some (Flag.valued f)) keep later same h =
      go_on-Keeps k (f v s) s s' rest keep (λ t e. same v s t e) h

  on_arg-Keeps :
      (k : Flags → Parse Flags) (wait : (String → Flags → Result Flags) → Parse Flags)
      (s s' : Flags) (rest : List String) (a : String) (args : List String) (arg : Arg)
      → Keeps k
      → ((f : String → Flags → Result Flags)
          → Leaves library get (Flag.valued f)
          → wait f ≡ Parse.parsed s' rest
          → get s' ≡ get s)
      → is_named name arg ≡ false
      → on_arg (flag_set library) k wait s a args arg ≡ Parse.parsed s' rest
      → get s' ≡ get s
  on_arg-Keeps k wait s s' rest a args Arg.operand keep later other h = cc
  on_arg-Keeps k wait s s' rest a args Arg.end_mark keep later other h = cc
  on_arg-Keeps k wait s s' rest a args Arg.bad_syntax keep later other h = cc
  on_arg-Keeps k wait s s' rest a args (Arg.named n value) keep later other h =
      on_flag-Keeps k wait s s' rest n value (flag_set library n) keep later
        (flag_set-LeavesAny library get name n others other) h

  parse_loop-Keeps :
      (pending : Option (String → Flags → Result Flags)) (args : List String)
      → Waits pending
      → asks name args ≡ false
      → Keeps (parse_loop (flag_set library) pending args)
  unfolding parse_loop
  parse_loop-Keeps (some f) [] same other s s' rest h = cc
  parse_loop-Keeps (some f) (v ∷ args) same other s s' rest h =
      go_on-Keeps (parse_loop (flag_set library) none args) (f v s) s s' rest
        (parse_loop-Keeps none args tt (ground arith)) (λ t e. same v s t e) h
  parse_loop-Keeps none [] same other s s' rest h = cc
  parse_loop-Keeps none (a ∷ args) same other s s' rest h =
      on_arg-Keeps (parse_loop (flag_set library) none args)
        (λ f. parse_loop (flag_set library) (some f) args s) s s' rest a args (classify a)
        (parse_loop-Keeps none args tt (ground arith))
        (λ f l. parse_loop-Keeps (some f) args l (ground arith) s s' rest) (ground arith) h

  pub unasked :
      (args : List String) (f : Flags) (rest : List String)
      → asks name args ≡ false
      → parse_flags library args ≡ Parse.parsed f rest
      → get f ≡ get defaults
  unfolding parse_flags parse
  unasked args f rest other h = parse_loop-Keeps none args tt other defaults f rest h
