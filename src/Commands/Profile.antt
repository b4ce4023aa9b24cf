-- ===== src/Commands/Profile.antt =====
-- pkg/cli/cmds/profile_linux.go: what the CIS and the etcd profile require of the system. An error that is
-- returned and a fatal log entry both end the start, so both are an error here.
pub mod Laws
use rke.Base.{
  ℕ, Bool, true, false, not, ◌&&◌, ◌==◌, String, ◌<>◌, Option, none, some, List, [], ◌∷◌, ◌++◌,
  ◌=ₛ◌, if◌then◌else◌, code,
}
use rke.Base.Decimal.{ℤ, pos, parse_int}
use rke.Base.Os.{Os}
use rke.Base.Result.{Result, ok, err, Error, message, ◌>>=◌, ◌>>◌, annotate}
use rke.Commands.Charts.{Sets, set_flag}
use rke.Commands.CloudProvider.{CliRole, is_server}

abbrev pub kernel_runtime_parameters : List (String × ℕ)
kernel_runtime_parameters =
    ("vm.overcommit_memory", 1)
    ∷ ("vm.panic_on_oom", 0)
    ∷ ("kernel.panic", 10)
    ∷ ("kernel.panic_on_oops", 1)
    ∷ []

-- strings.ReplaceAll(s, ".", "/").
unfoldable pub slashed : String → String
slashed String.[] = ""
slashed (String.◌∷◌ c s) = String.◌∷◌ (if code c == b'.' then "/" else c) (slashed s)

-- strings.Replace(s, "\n", "", -1), and whether the last character is a new line.
unfoldable pub one_line : String → String
one_line String.[] = ""
one_line (String.◌∷◌ c s) =
    let rest = one_line s in if code c == 10 then rest else String.◌∷◌ c rest

unfoldable pub ends_line : String → Bool
ends_line String.[] = false
ends_line (String.◌∷◌ c String.[]) = code c == 10
ends_line (String.◌∷◌ c (String.◌∷◌ d s)) = ends_line (String.◌∷◌ d s)

abbrev is_line : String → Bool
is_line (String.◌∷◌ c (String.◌∷◌ d s)) = ends_line (String.◌∷◌ d s)
is_line _ = false

abbrev pub number : Option ℤ → Result ℤ
number none = err (message "invalid syntax")
number (some n) = ok n

-- strconv.Atoi, on an int of 64 bits.
unfoldable pub setting : String → String → Result ℤ
unfolding ends_line one_line parse_int
setting name v =
    if is_line v
    then number (parse_int 64 (one_line v))
    else err (message ("invalid contents: " <> name))

module _ (os : Os) where
  unfoldable pub sysctl : String → os.State → Result ℤ
  unfolding slashed setting
  sysctl name s =
      let path = slashed name in os.read_file ("/proc/sys/" <> path) s >>= λ v. setting path v

  pub data CisError : Type 0 where
    wrong_parameter : String → ℤ → ℕ → CisError
    missing_required : Error → CisError

  pub data Failure : Type 0 where
    unreadable : Error → Failure
    not_compliant : List CisError → Failure
    flag_refused : Failure
    flag_failed : Error → Failure
    invalid_profile : Failure

  abbrev pub is_value : ℕ → ℤ → Bool
  is_value pv (pos n) = n == pv
  is_value pv _ = false

  abbrev pub add_mismatch : String → ℕ → ℤ → List CisError → List CisError
  add_mismatch kp pv cv ce = if is_value pv cv then ce else wrong_parameter kp cv pv ∷ ce

  -- The range over the parameters, in the order in which they are listed.
  unfoldable pub kernel_errors : List (String × ℕ) → os.State → Result (List CisError)
  unfolding sysctl
  kernel_errors [] s = ok []
  kernel_errors ((kp, pv) ∷ parameters) s =
      sysctl kp s >>= λ cv. kernel_errors parameters s >>= λ ce. ok (add_mismatch kp pv cv ce)

  abbrev pub compliance : List CisError → Option Failure
  compliance [] = none
  compliance (e ∷ ce) = some (not_compliant (e ∷ ce))

  abbrev pub kernel_compliance : Result (List CisError) → Option Failure
  kernel_compliance (err e) = some (unreadable e)
  kernel_compliance (ok ce) = compliance ce

  abbrev pub validate_kernel_reqs : os.State → Option Failure
  validate_kernel_reqs s = kernel_compliance (kernel_errors kernel_runtime_parameters s)

  abbrev pub required : Result (Unit {0}) → List CisError
  required (ok u) = []
  required (err e) = missing_required e ∷ []

  -- user.Lookup and user.LookupGroup of etcd are arguments.
  abbrev pub validate_etcd_reqs : CliRole → Result (Unit {0}) → Result (Unit {0}) → Option Failure
  validate_etcd_reqs role user group =
      compliance (if is_server role then required user ++ required group else [])

  -- Whether the flag is set, its value, and what clx.Set says.
  abbrev pub set_cis_flags : Bool → Bool → Result (Unit {0}) → Option Failure
  set_cis_flags is_set value (ok u) = if is_set && not value then some flag_refused else none
  set_cis_flags is_set value (err e) =
      if is_set && not value then some flag_refused else some (flag_failed e)

  abbrev pub or_else : Option Failure → Option Failure → Option Failure
  or_else none next = next
  or_else (some failure) next = some failure

  unfoldable pub validate_profile :
      String
      → CliRole
      → Bool
      → Bool
      → Result (Unit {0})
      → Result (Unit {0})
      → Result (Unit {0})
      → os.State
      → Option Failure
  unfolding kernel_errors
  validate_profile profile role is_set value set_result user group s =
      let etcd = validate_etcd_reqs role user group in
      if profile =ₛ "cis"
      then or_else (validate_kernel_reqs s) (or_else (set_cis_flags is_set value set_result) etcd)
      else if profile =ₛ "etcd"
      then etcd
      else if profile =ₛ ""
      then none
      else some invalid_profile
