-- ===== src/Commands/FlagOptions.antt =====
-- pkg/cli/cmds/k3sopts.go: the flags of a command of k3s, adjusted by the options for each of them.
pub mod Laws
pub mod Wrapping
use rke.Base.{
  ◌||◌, code, ℕ, Bool, true, false, String, Option, none, some, List, [], ◌∷◌, ◌++◌, ◌=ₛ◌,
  if◌then◌else◌, any, ltb,
}
use rke.Base.Dict.{Dict, lookup, insert}
use rke.Base.Text.{split, trim_space}

pub record K3sFlagOption : Type 0 where
  pub hide : Bool
  pub drop_flag : Bool
  pub ignore : Bool
  pub usage : String
  pub default : String

abbrev pub no_option : K3sFlagOption
no_option = record { hide = false; drop_flag = false; ignore = false; usage = ""; default = "" }

-- A pointer that is nil is none.
abbrev pub K3sFlagSet : Type 0
K3sFlagSet = Dict (Option K3sFlagOption)

unfoldable pub copy_into : K3sFlagSet → K3sFlagSet → K3sFlagSet
unfolding insert
copy_into [] d = d
copy_into ((key, val) ∷ k) d = copy_into k (insert key val d)

-- The types of flags of urfave/cli that are told apart.
pub data FlagType : Type 0 where
  string_flag : String → FlagType
  string_slice_flag : List String → FlagType
  int_flag bool_flag duration_flag other_flag : FlagType

-- Names returns at least one name.
pub record Flag : Type 0 where
  pub first_name : String
  pub more_names : List String
  pub usage : String
  pub hidden : Bool
  pub flag_type : FlagType

pub data FlagError : Type 0 where
  missing_options : String → FlagError
  unsupported_type : String → FlagError
  unknown_flag : String → FlagError

-- The length of a text in bytes, as far as it is compared with 1.
abbrev is_long : String → Bool
is_long String.[] = false
is_long (String.◌∷◌ c String.[]) = ltb 0x7f (code c)
is_long (String.◌∷◌ c (String.◌∷◌ d s)) = true

abbrev long_name : String → List String → String
long_name default [] = default
long_name default (n ∷ names) =
    let t = trim_space n in let rest = long_name default names in if is_long t then t else rest

unfoldable pub parse_name : Flag → String
unfolding trim_space
parse_name flag = long_name (trim_space flag.first_name) (flag.first_name ∷ flag.more_names)

abbrev pub is_supported : FlagType → Bool
is_supported other_flag = false
is_supported _ = true

abbrev pub or_no_option : Option K3sFlagOption → K3sFlagOption
or_no_option none = no_option
or_no_option (some opt) = opt

-- newFlags, the names seen, and errs.
pub record Wrapped : Type 0 where
  pub new_flags : List Flag
  pub seen : List String
  pub errs : List FlagError

abbrev pub is_ignored : Option K3sFlagOption → Bool
is_ignored none = false
is_ignored (some opt) = opt.ignore

unfoldable pub unknown_flags : List String → K3sFlagSet → List FlagError
unknown_flags seen [] = []
unknown_flags seen ((k, v) ∷ opts) =
    let rest = unknown_flags seen opts in
    if any (λ n. n =ₛ k) seen || is_ignored v then rest else unknown_flag k ∷ rest

-- StringSlice.Set of urfave/cli is the parameter.
module _ (set_value : String → List String → List String) where
  abbrev pub set_values : List String → List String → List String
  set_values value [] = value
  set_values value (v ∷ vs) = set_values (set_value v value) vs

  abbrev pub with_default : String → FlagType → FlagType
  with_default default (string_flag value) = string_flag (if default =ₛ "" then value else default)
  with_default default (string_slice_flag value) =
      string_slice_flag (if default =ₛ "" then value else set_values [] (split b',' default))
  with_default default other = other

  -- The flag as the options want it; one of another type is not changed.
  unfoldable pub adjusted : K3sFlagOption → Flag → Flag
  unfolding split
  adjusted opt flag =
      if is_supported flag.flag_type
      then record flag {
        usage = if opt.usage =ₛ "" then flag.usage else opt.usage;
        hidden = if opt.hide then true else flag.hidden;
        flag_type = with_default opt.default flag.flag_type;
      }
      else flag

  abbrev pub wrap_with : Flag → K3sFlagOption → Wrapped → Wrapped
  wrap_with flag opt w =
      let name = parse_name flag in
      if opt.drop_flag then record w { seen = name ∷ w.seen } else record {
        new_flags = w.new_flags ++ (adjusted opt flag ∷ []);
        seen = name ∷ w.seen;
        errs =
            if is_supported flag.flag_type then w.errs else w.errs ++ (unsupported_type name ∷ []);
      }

  abbrev pub wrap_flag : Flag → Option (Option K3sFlagOption) → Wrapped → Wrapped
  wrap_flag flag none w = record w { errs = w.errs ++ (missing_options (parse_name flag) ∷ []) }
  wrap_flag flag (some opt) w = wrap_with flag (or_no_option opt) w

  unfoldable pub wrap_flags : K3sFlagSet → List Flag → Wrapped → Wrapped
  unfolding parse_name adjusted lookup
  wrap_flags flag_opts [] w = w
  wrap_flags flag_opts (flag ∷ flags) w =
      wrap_flags flag_opts flags (wrap_flag flag (lookup (parse_name flag) flag_opts) w)

  -- The flags of the wrapped command, and the errors; there is none if this list is empty.
  unfoldable pub command_from_k3s : List Flag → K3sFlagSet → List Flag × List FlagError
  unfolding wrap_flags unknown_flags
  command_from_k3s flags flag_opts =
      let w = wrap_flags flag_opts flags (record { new_flags = []; seen = []; errs = [] }) in
      (w.new_flags, w.errs ++ unknown_flags w.seen flag_opts)
