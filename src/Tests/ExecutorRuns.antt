-- ===== src/Tests/ExecutorRuns.antt =====
-- pkg/executor/staticpod and pkg/bootstrap, at concrete inputs.
use rke.Base.{String, none, some, List, [], ◌∷◌, ◌≡◌, refl, true, false}
use rke.Base.FilePath.{join_path}
use rke.Staticpod.ApiServer.{LoopState, elements, scan, action, begin}
use rke.Staticpod.ApiServer.Removal.{scan-drop_it, scan-move_etcd}
use rke.Staticpod.ApiServer.Faults.{scan-panics, scan-adjacent}

abbrev three : List String
three = "--bind-address=::" ∷ "--advertise-port=6443" ∷ "--secure-port=6443" ∷ []

-- The loop runs.
three_test :
    scan true "/d" three
    ≡ some (record (begin three) {
      array = "--bind-address=::" ∷ "--secure-port=6443" ∷ "--secure-port=6443" ∷ [];
      args = LoopState.args (begin ("" ∷ "" ∷ []));
    })
unfolding scan
three_test = refl

scan-drop_it_example :
    (st : LoopState) × (scan true "/d" three ≡ some st)
    × (elements st.array st.args ≡ "--bind-address=::" ∷ "--secure-port=6443" ∷ [])
unfolding action
scan-drop_it_example =
    scan-drop_it true "/d" ("--bind-address=::" ∷ []) ("--secure-port=6443" ∷ [])
      "--advertise-port=6443" (tt, tt) (tt, tt) refl

scan-move_etcd_example :
    (st : LoopState) × (scan true "/d" ("--a=1" ∷ "--etcd-servers=https://x" ∷ "--b" ∷ [])
      ≡ some st)
    × (elements st.array st.args
        ≡ "--etcd-servers=unixs:///d/server/kine.sock" ∷ "--a=1" ∷ "--b" ∷ [])
unfolding action join_path
scan-move_etcd_example =
    scan-move_etcd true "/d" ("--a=1" ∷ []) ("--b" ∷ []) "--etcd-servers=https://x" (tt, tt)
      (tt, tt) refl

scan-panics_example :
    scan false "/d" ("--advertise-port=1" ∷ "--x=1" ∷ "--basic-auth-file=f" ∷ []) ≡ none
unfolding action
scan-panics_example =
    scan-panics false "/d" [] "--advertise-port=1" "--basic-auth-file=f" tt ("--x=1" ∷ []) (tt, tt)
      refl refl

scan-adjacent_example :
    (st : LoopState) × (scan false "/d"
        ("--advertise-port=1" ∷ "--basic-auth-file=f" ∷ "--x=1" ∷ [])
      ≡ some st)
    × (elements st.array st.args ≡ "--basic-auth-file=f" ∷ "--x=1" ∷ [])
unfolding action
scan-adjacent_example =
    scan-adjacent false "/d" [] "--advertise-port=1" "--basic-auth-file=f" tt "--x=1" [] (tt, tt)
      refl
