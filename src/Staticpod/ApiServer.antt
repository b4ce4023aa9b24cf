-- ===== src/Staticpod/ApiServer.antt =====
-- pkg/executor/staticpod/staticpod.go: how APIServer rewrites its arguments. The loop ranges over the
-- slice that it removes from: `range` keeps the array and length that it began with, and
-- `append(args[:i], args[i+1:]...)` moves elements within that array. So the array is part of the state.
pub mod Loop
pub mod Removal
pub mod Faults
use rke.Base.{
  ℕ, zero, suc, ◌+◌, ◌-◌, String, ◌<>◌, Option, none, some, List, [], ◌∷◌, ◌++◌, Bool, true, false,
  ◌||◌, leb, ◌=ₛ◌, if◌then◌else◌, length, get_elem?, take, drop,
}
use rke.Base.FilePath.{join_path}
use rke.Base.Text.{cut}

-- The variable `args`: a slice of that array from its start, or of an array of its own after a prepend.
pub data Slice : Type 0 where
  shared : ℕ → Slice
  own : List String → Slice

pub record LoopState : Type 0 where
  pub array : List String
  pub args : Slice
  pub audit_log_file : String
  pub address_types_found : Bool

-- The elements of `args`.
abbrev pub elements : List String → Slice → List String
elements array (shared len) = take len array
elements array (own l) = l

-- `args = append(args[:i], args[i+1:]...)`, which panics if `args` is too short for `args[i+1:]`.
remove_from : ℕ → LoopState → Slice → Option LoopState
remove_from i st (shared len) =
    if leb (i + 1) len
    then some (record st {
      array = take i st.array ++ (drop (i + 1) (take len st.array) ++ drop (len - 1) st.array);
      args = shared (len - 1);
    })
    else none
remove_from i st (own l) =
    if leb (i + 1) (length l)
    then some (record st { args = own (take i l ++ drop (i + 1) l) })
    else none

unfoldable pub remove : ℕ → LoopState → Option LoopState
unfolding remove_from
remove i st = remove_from i st st.args

-- `args = append([]string{arg}, args...)`.
abbrev pub prepend : String → LoopState → LoopState
prepend arg st = record st { args = own (arg ∷ elements st.array st.args) }

abbrev pub prepend_if : String → Option LoopState → Option LoopState
prepend_if arg none = none
prepend_if arg (some st) = some (prepend arg st)

abbrev pub name_and_value : String → Option (String × String) → String × String
name_and_value arg none = (arg, "")
name_and_value arg (some p) = p

-- What the switch does with an argument, by its name.
pub data Action : Type 0 where
  drop_it move_etcd keep : Action
  audit_path : String → Action
  address_types : Action

unfoldable pub action : Bool → String → Action
unfolding cut
action external arg =
    let parts = name_and_value arg (cut b'=' arg) in
    if parts.0 =ₛ "--advertise-port" || parts.0 =ₛ "--basic-auth-file"
    then drop_it
    else if parts.0 =ₛ "--etcd-servers"
    then (if external then move_etcd else keep)
    else if parts.0 =ₛ "--audit-log-path"
    then audit_path parts.1
    else if parts.0 =ₛ "--kubelet-preferred-address-types"
    then address_types
    else keep

abbrev pub kine_arg : String → String
kine_arg data_dir =
    "--etcd-servers=" <> ("unixs://" <> join_path (data_dir ∷ "server" ∷ "kine.sock" ∷ []))

abbrev pub begin : List String → LoopState
begin args = record {
  array = args;
  args = shared (length args);
  audit_log_file = "";
  address_types_found = false;
}

module _ (external : Bool) (data_dir : String) where
  unfoldable pub perform : Action → ℕ → LoopState → Option LoopState
  unfolding remove
  perform drop_it i st = remove i st
  perform move_etcd i st = prepend_if (kine_arg data_dir) (remove i st)
  perform keep i st = some st
  perform (audit_path value) i st = some (record st { audit_log_file = value })
  perform address_types i st = some (record st { address_types_found = true })

  abbrev round : Option String → ℕ → LoopState → Option LoopState
  round none i st = none
  round (some arg) i st = perform (action external arg) i st

  abbrev and_then : Option LoopState → (LoopState → Option LoopState) → Option LoopState
  and_then none f = none
  and_then (some st) f = f st

  -- `for i, arg := range args`, with the rounds that are left; none is a panic.
  unfoldable pub loop : ℕ → ℕ → LoopState → Option LoopState
  unfolding perform action
  loop zero i st = some st
  loop (suc rounds) i st =
      and_then (round (get_elem? st.array i) i st) (λ st'. loop rounds (suc i) st')

  unfoldable pub scan : List String → Option LoopState
  unfolding loop
  scan args = loop (length args) 0 (begin args)
