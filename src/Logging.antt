-- ===== src/Logging.antt =====
-- pkg/logging/logging.go: the flags of klog are taken out of the arguments of a component, and say where
-- its output goes. The flag set of pflag is a parameter.
pub mod Laws
use rke.Base.{
  ℕ, Bool, true, false, not, ◌||◌, String, Option, none, some, List, [], ◌∷◌, ◌++◌, ◌=ₛ◌,
  if◌then◌else◌,
}
use rke.Base.Dict.{Dict}
use rke.Base.Text.{cut, trim_prefix}

-- Lookup gives the value that a flag has where none is written; a getter that fails gives the zero value.
pub record FlagSet : Type 1 where
  pub State : Type 0
  pub lookup_flag : String → Option String
  pub set_flag : String → String → State → State
  pub set_value : String → String → State → State
  pub get_bool : String → State → Bool
  pub get_string : String → State → String
  pub get_uint64 : String → State → ℕ

pub data Writer : Type 0 where
  stderr discard : Writer
  logger : String → ℕ → Writer
  stderr_and : Writer → Writer

-- What stands in front of the first equals sign of an argument without its dashes, and what behind it.
abbrev pub name_of : Option (String × String) → String → String
name_of none text = text
name_of (some (name, value)) text = name

abbrev pub value_of : Option (String × String) → String → String
value_of none no_opt_def_val = no_opt_def_val
value_of (some (name, value)) no_opt_def_val = value

abbrev pub split_arg : String → Option (String × String)
split_arg arg = cut b'=' (trim_prefix arg "--")

unfoldable pub flag_name : String → String
unfolding cut trim_prefix
flag_name arg = name_of (split_arg arg) (trim_prefix arg "--")

-- int(maxSize), on 64 bits: a size from 2 ^ 63 on would be negative, and is not told apart here.
abbrev pub get_logger : String → ℕ → Writer
get_logger = logger

unfoldable pub writer : Bool → Bool → String → ℕ → Writer
writer also_to_stderr to_stderr filename max_size =
    if filename =ₛ ""
    then (if to_stderr || also_to_stderr then stderr else discard)
    else if also_to_stderr
    then stderr_and (get_logger filename max_size)
    else get_logger filename max_size

module _ (f : FlagSet) where
  unfoldable pub reset : Dict String → f.State → f.State
  reset [] s = s
  reset ((name, value) ∷ defaults) s = reset defaults (f.set_flag name value s)

  abbrev pub take_arg : String → Option String → List String × f.State → List String × f.State
  take_arg arg none r = (r.0 ++ (arg ∷ []), r.1)
  take_arg arg (some no_opt_def_val) r =
      (r.0, f.set_value (flag_name arg) (value_of (split_arg arg) no_opt_def_val) r.1)

  unfoldable pub filter_args : List String → List String × f.State → List String × f.State
  unfolding flag_name
  filter_args [] r = r
  filter_args (arg ∷ args) r = filter_args args (take_arg arg (f.lookup_flag (flag_name arg)) r)

  abbrev pub writer_of : f.State → Writer
  writer_of s =
      writer (f.get_bool "alsologtostderr" s) (f.get_bool "logtostderr" s)
        (f.get_string "log-file" s) (f.get_uint64 "log-file-max-size" s)

  unfoldable pub extract_from_args : Dict String → List String → f.State → List String × Writer
  unfolding reset filter_args writer
  extract_from_args default_values args s =
      let r = filter_args args ([], reset default_values s) in (r.0, writer_of r.1)
