-- ===== src/Staticpod/Executor/Laws.antt =====
-- pkg/executor/staticpod/staticpod.go: writeFile leaves a manifest alone that it would not change.
use rke.Base.{ℕ, String, ◌≡◌, refl, eq_refl}
use rke.Base.FilePath.{dir_name}
use rke.Base.Os.{Os}
use rke.Base.Result.{ok}
use rke.Staticpod.Executor.{write_file}

-- If the directory can be made and the file then has the content, writeFile succeeds and does nothing
-- but make the directory: the kubelet sees no new file.
pub write_file-same :
    (os : Os) (dest content : String) (perm : ℕ) (s t : os.State)
    → os.mkdir_all (dir_name dest) 0o700 s ≡ (ok tt, t)
    → os.read_file dest t ≡ ok content
    → write_file os dest content perm s ≡ (ok tt, t)
unfolding write_file
write_file-same os dest content perm s t made same = rw (made, same, eq_refl content) refl
