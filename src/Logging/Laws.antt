-- ===== src/Logging/Laws.antt =====
-- pkg/logging/logging.go: which arguments are left, and which flags are set to what.
use rke.Base.{
  Bool, true, false, String, ◌<>◌, Option, none, some, List, [], ◌∷◌, ◌++◌, map, ◌≡◌, refl, sym, ap,
  ◌∙◌, ◌⊎◌, inl, inr, All, arith,
}
use text.Mathlib.TextLemmas.{nil-append, cons-append}
use rke.Base.Dict.{Dict}
use rke.Base.Text.{contains_char, has_prefix, trim_prefix, cut}
use rke.Base.Text.Split.{cut-append, cut-eq_none, char-append}
use rke.Logging.{
  FlagSet, flag_name, split_arg, name_of, value_of, take_arg, filter_args, reset, writer_of,
  extract_from_args,
}

-- An argument as it is written on a command line: `name`, `--name`, `name=value` or `--name=value`.
pub record Argument : Type 0 where
  pub dashed : Bool
  pub name : String
  pub value : Option String

abbrev body : String → Option String → String
body name none = name
body name (some value) = name <> ("=" <> value)

abbrev dashes : Bool → String → String
dashes true s = "--" <> s
dashes false s = s

abbrev pub written : Argument → String
written a = dashes a.dashed (body a.name a.value)

-- A name has no equals sign, and without dashes it does not begin with them.
abbrev pub IsArgument : Argument → Type 0
IsArgument a =
    (contains_char b'=' a.name ≡ false) × ((a.dashed ≡ true) ⊎ (has_prefix a.name "--" ≡ false))

append_nil : (l : List String) → l ++ [] ≡ l
append_nil [] = refl
append_nil (x ∷ xs) = ap (λ l. x ∷ l) (append_nil xs)

append_one : (l : List String) (x : String) (r : List String) → (l ++ (x ∷ [])) ++ r ≡ l ++ (x ∷ r)
append_one [] x r = refl
append_one (y ∷ l) x r = ap (λ l. y ∷ l) (append_one l x r)

dashes-append : (s : String) → "--" <> s ≡ String.◌∷◌ "-" (String.◌∷◌ "-" s)
dashes-append s = cons-append "-" "-" s ∙ ap (String.◌∷◌ "-") (char-append "-" s)

trim_prefix-append : (s : String) → trim_prefix ("--" <> s) "--" ≡ s
unfolding trim_prefix
trim_prefix-append s = rw (dashes-append s) refl

trim_prefix_none : (s : String) → has_prefix s "--" ≡ false → trim_prefix s "--" ≡ s
unfolding trim_prefix
trim_prefix_none s h = rw h refl

has_prefix-body :
    (name : String) (value : Option String)
    → has_prefix name "--" ≡ false
    → has_prefix (body name value) "--" ≡ false
unfolding has_prefix
has_prefix-body name none h = h
has_prefix-body String.[] (some value) h = rw (nil-append, char-append "=" value) refl
has_prefix-body (String.◌∷◌ c String.[]) (some value) h =
    rw (cons-append, nil-append, char-append "=" value) (ground arith)
has_prefix-body (String.◌∷◌ c (String.◌∷◌ d s)) (some value) h = rw (cons-append, cons-append) h

trim_prefix-dashes :
    (dashed : Bool) (name : String) (value : Option String)
    → (dashed ≡ true) ⊎ (has_prefix name "--" ≡ false)
    → trim_prefix (dashes dashed (body name value)) "--" ≡ body name value
trim_prefix-dashes true name value h = trim_prefix-append (body name value)
trim_prefix-dashes false name value (inl e) = absurd cc
trim_prefix-dashes false name value (inr e) =
    trim_prefix_none (body name value) (has_prefix-body name value e)

-- The value of the argument, or that of the flag where none is written.
abbrev pub value_or : String → Option String → String
value_or no_opt_def_val none = no_opt_def_val
value_or no_opt_def_val (some value) = value

cut-body :
    (name : String) (value : Option String) (d : String)
    → contains_char b'=' name ≡ false
    → (name_of (cut b'=' (body name value)) (body name value) ≡ name)
      × (value_of (cut b'=' (body name value)) d ≡ value_or d value)
cut-body name none d h = let e = cut-eq_none b'=' name h in (rw e refl, rw e refl)
cut-body name (some value) d h =
    let e : cut b'=' (name <> ("=" <> value)) ≡ some (name, value) =
      rw (char-append "=" value) (cut-append "=" name value h) in
    (rw e refl, rw e refl)

-- How an argument is read.
read-written :
    (a : Argument) (d : String)
    → IsArgument a
    → (flag_name (written a) ≡ a.name) × (value_of (split_arg (written a)) d ≡ value_or d a.value)
unfolding flag_name
read-written a d h =
    let e = trim_prefix-dashes a.dashed a.name a.value h.1 in
    let both = cut-body a.name a.value d h.0 in (rw e both.0, rw e both.1)

module _ (f : FlagSet) where
  -- The arguments whose name is no flag's.
  abbrev left_if : Argument → Option String → List String → List String
  left_if a none rest = written a ∷ rest
  left_if a (some d) rest = rest

  abbrev pub left : List Argument → List String
  left [] = []
  left (a ∷ args) = left_if a (f.lookup_flag a.name) (left args)

  -- Each of the other ones sets its flag, one after another.
  abbrev set_if : Argument → Option String → f.State → f.State
  set_if a none s = s
  set_if a (some d) s = f.set_value a.name (value_or d a.value) s

  abbrev pub all_set : List Argument → f.State → f.State
  all_set [] s = s
  all_set (a ∷ args) s = all_set args (set_if a (f.lookup_flag a.name) s)

  take_arg-written :
      (a : Argument) (o : Option String) (l : List String) (s : f.State) (rest : List String)
      → IsArgument a
      → ((take_arg f (written a) o (l, s)).0 ++ rest ≡ l ++ left_if a o rest)
        × ((take_arg f (written a) o (l, s)).1 ≡ set_if a o s)
  take_arg-written a none l s rest h = (append_one l (written a) rest, refl)
  take_arg-written a (some d) l s rest h =
      let both = read-written a d h in (refl, rw (both.0, both.1) refl)

  filter_args-written :
      (args : List Argument) (l : List String) (s : f.State)
      → All IsArgument args
      → filter_args f (map written args) (l, s) ≡ (l ++ left args, all_set args s)
  unfolding filter_args
  filter_args-written [] l s h = ap (λ x. (x, s)) (sym (append_nil l))
  filter_args-written (a ∷ args) l s h =
      let o = f.lookup_flag a.name in
      let taken = take_arg f (written a) o (l, s) in
      let both = take_arg-written a o l s (left args) h.0 in
      ap (λ n. filter_args f (map written args) (take_arg f (written a) (f.lookup_flag n) (l, s)))
        ((read-written a "" h.0).0)
      ∙ filter_args-written args taken.0 taken.1 h.1
      ∙ ap (λ x. (x, all_set args taken.1)) both.0
      ∙ ap (λ t. (l ++ left (a ∷ args), all_set args t)) both.1

  -- Of arguments that are written name, --name, name=value or --name=value, ExtractFromArgs leaves those
  -- whose name is no flag's of klog, in their order and as they are written; each of the others sets its
  -- flag to its value, or to the flag's own where none is written, after the flags were reset; and the
  -- writer is the one of the flags then.
  pub extract_from_args-written :
      (default_values : Dict String) (args : List Argument) (s : f.State)
      → All IsArgument args
      → extract_from_args f default_values (map written args) s
        ≡ (left args, writer_of f (all_set args (reset f default_values s)))
  unfolding extract_from_args
  extract_from_args-written default_values args s h =
      let e = filter_args-written args [] (reset f default_values s) h in rw e refl
