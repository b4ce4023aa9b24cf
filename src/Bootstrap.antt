-- ===== src/Bootstrap.antt =====
-- pkg/bootstrap/bootstrap.go: the directories of the runtime image, and the removal of old ones.
pub mod Cleaning
pub mod Charts
pub mod Runtime
use rke.Base.{
  ℕ, Bool, true, false, not, ◌&&◌, ◌==◌, leb, code, String, ◌<>◌, Option, none, some, List, [], ◌∷◌,
  ◌=ₛ◌, if◌then◌else◌,
}
use rke.Base.Text.{has_prefix, cut}
use rke.Base.FilePath.{join_path}
use rke.Base.Os.{Os, DirEntry, FileKind, is_dir, is_regular_file}
use rke.Base.Result.{Result, ok, err, Error, message, is_not_exist}
use rke.Base.Act.{Act, pure, raise, ◌>>=◌, ◌>>◌}
use rke.Images.Names.{Names}

abbrev pub bin_dir_for_digest : String → String → String
bin_dir_for_digest data_dir ref_digest = join_path (data_dir ∷ "data" ∷ ref_digest ∷ "bin" ∷ [])

abbrev pub charts_dir_for_digest : String → String → String
charts_dir_for_digest data_dir ref_digest =
    join_path (data_dir ∷ "data" ∷ ref_digest ∷ "charts" ∷ [])

abbrev pub completion_marker_for_digest : String → String → String
completion_marker_for_digest data_dir ref_digest =
    join_path (data_dir ∷ "data" ∷ ref_digest ∷ ".extracted" ∷ [])

abbrev pub manifests_dir : String → String
manifests_dir data_dir = join_path (data_dir ∷ "server" ∷ "manifests" ∷ [])

abbrev pub images_dir : String → String
images_dir data_dir = join_path (data_dir ∷ "agent" ∷ "images" ∷ [])

abbrev pub symlink_bin_dir : String → String
symlink_bin_dir data_dir = join_path (data_dir ∷ "bin" ∷ [])

abbrev pub task_dir : String
task_dir = "/run/k3s/containerd/io.containerd.runtime.v2.task/k8s.io"

-- releasePattern, "^v[0-9]".
unfoldable pub is_release : String → Bool
is_release (String.◌∷◌ v (String.◌∷◌ d s)) =
    code v == b'v' && leb b'0' (code d) && leb (code d) b'9'
is_release _ = false

-- The entry is a directory of another release.
abbrev pub is_candidate : String → DirEntry → Bool
is_candidate ref_digest entry =
    is_dir entry.kind && not (entry.name =ₛ ref_digest) && is_release entry.name

abbrev kind_is : (FileKind → Bool) → Result FileKind → Bool
kind_is test (ok kind) = test kind
kind_is test (err e) = false

module _ (os : Os) where
  abbrev pub dir_exists : String → os.State → Bool
  dir_exists dir s = kind_is is_dir (os.stat dir s)

  abbrev pub is_regular : String → os.State → Bool
  is_regular file s = kind_is is_regular_file (os.stat file s)

  abbrev reads_prefix : Result String → String → Bool
  reads_prefix (ok text) dir_path = has_prefix text dir_path
  reads_prefix (err e) dir_path = false

  unfoldable pub any_shim : List DirEntry → String → os.State → Bool
  unfolding has_prefix join_path
  any_shim [] dir_path s = false
  any_shim (entry ∷ entries) dir_path s =
      if is_dir entry.kind
        && reads_prefix
            (os.read_file (join_path (task_dir ∷ entry.name ∷ "shim-binary-path" ∷ [])) s) dir_path
      then true
      else any_shim entries dir_path s

  abbrev listed_shims : Result (List DirEntry) → String → os.State → Bool
  listed_shims (err e) dir_path s = true
  listed_shims (ok entries) dir_path s = any_shim entries dir_path s

  unfoldable pub dir_has_shims : String → os.State → Bool
  unfolding any_shim
  dir_has_shims dir_path s = listed_shims (os.read_dir task_dir s) dir_path s

  -- A failure to remove a directory is only logged.
  abbrev pub remove_old : String → os.State → os.State
  remove_old oldpath s = if dir_has_shims oldpath s then s else (os.remove_all oldpath s).1

  unfoldable pub clean_entries : String → String → List DirEntry → os.State → os.State
  unfolding dir_has_shims join_path is_release
  clean_entries datapath ref_digest [] s = s
  clean_entries datapath ref_digest (entry ∷ entries) s =
      clean_entries datapath ref_digest entries (
        if is_candidate ref_digest entry
        then remove_old (join_path (datapath ∷ entry.name ∷ [])) s
        else s)

  abbrev pub clean_listed : String → String → Result (List DirEntry) → Act os.State (Unit {0})
  clean_listed datapath ref_digest (ok entries) s =
      (ok tt, clean_entries datapath ref_digest entries s)
  clean_listed datapath ref_digest (err e) s = if is_not_exist e then (ok tt, s) else (err e, s)

  unfoldable pub clean_data_dirs : String → String → Act os.State (Unit {0})
  unfolding clean_entries join_path
  clean_data_dirs data_dir ref_digest s =
      let datapath = join_path (data_dir ∷ "data" ∷ []) in
      clean_listed datapath ref_digest (os.read_dir datapath s) s
