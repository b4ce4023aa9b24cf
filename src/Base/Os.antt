-- ===== src/Base/Os.antt =====
-- The system calls of Go's `os` package that the program makes, over a state of the machine that it
-- does not implement. A call that changes the machine returns the new state, also where it fails.
use Prim.Native.Nat.{ℕ}
use Prim.Native.String.{String}
use mathlib.Core.Bool.{Bool, true, false}
use mathlib.Core.List.{List}
use rke.Base.Result.{Result}

-- What `os.Stat` tells of a file, as far as the program looks.
pub data FileKind : Type 0 where
  regular directory socket special : FileKind

abbrev pub is_dir : FileKind → Bool
is_dir directory = true
is_dir _ = false

abbrev pub is_regular_file : FileKind → Bool
is_regular_file regular = true
is_regular_file _ = false

pub record DirEntry : Type 0 where
  pub name : String
  pub kind : FileKind

pub record Os : Type 1 where
  pub State : Type 0
  pub stat : String → State → Result FileKind
  pub read_dir : String → State → Result (List DirEntry)
  pub read_file : String → State → Result String
  pub mkdir_all : String → ℕ → State → Result (Unit {0}) × State
  pub write_file : String → String → ℕ → State → Result (Unit {0}) × State
  -- os.OpenFile with O_CREATE and O_EXCL, then a write of the whole text and a close.
  pub create_new : String → ℕ → State → Result (Unit {0}) × State
  pub write_open : String → String → State → Result (Unit {0}) × State
  pub remove : String → State → Result (Unit {0}) × State
  pub remove_all : String → State → Result (Unit {0}) × State
  pub rename : String → String → State → Result (Unit {0}) × State
  pub mkdir_temp : String → String → State → Result String × State
