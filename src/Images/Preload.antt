-- ===== src/Images/Preload.antt =====
-- pkg/images/images.go: Pull, which notes an image for the agent unless images are preloaded.
pub mod Laws
use rke.Base.{ℕ, Bool, true, false, not, ◌&&◌, String, ◌<>◌, List, [], ◌∷◌, ◌=ₛ◌, if◌then◌else◌}
use rke.Base.Text.{has_suffix}
use rke.Base.FilePath.{join_path}
use rke.Base.Result.{Error, Result, ok, err, is_not_exist}
use rke.Base.Os.{Os, DirEntry, FileKind, is_dir}
use rke.Base.Act.{Act, pure, lift, ask, ◌>>=◌, ◌>>◌}
use rke.Images.Names.{Names}

-- A file whose name ends in neither .txt nor .json.
unfoldable pub is_preloaded : DirEntry → Bool
unfolding has_suffix
is_preloaded e =
    not (is_dir e.kind) && not (has_suffix e.name ".txt") && not (has_suffix e.name ".json")

unfoldable pub any_preloaded : List DirEntry → Bool
unfolding is_preloaded
any_preloaded [] = false
any_preloaded (e ∷ entries) = if is_preloaded e then true else any_preloaded entries

-- A directory that cannot be listed counts as empty.
abbrev listed_preloaded : Result (List DirEntry) → Result Bool
listed_preloaded (err e) = ok false
listed_preloaded (ok entries) = ok (any_preloaded entries)

abbrev stat_preloaded : Result FileKind → Result (List DirEntry) → Result Bool
stat_preloaded (err e) listing = if is_not_exist e then ok false else err e
stat_preloaded (ok kind) listing = listed_preloaded listing

module _ (N : Names) (os : Os) where
  unfoldable pub check_preloaded_images : String → os.State → Result Bool
  unfolding any_preloaded
  check_preloaded_images dir s = stat_preloaded (os.stat dir s) (os.read_dir dir s)

  abbrev pub note_image : String → String → N.Reference → Act os.State (Unit {0})
  note_image dir name image = do
    os.mkdir_all dir 0o755
    os.write_file (join_path (dir ∷ (name <> ".txt") ∷ [])) (N.ref_name image <> "\n") 0o644

  unfoldable pub pull : String → String → N.Reference → Act os.State (Unit {0})
  unfolding check_preloaded_images
  pull dir name image = if dir =ₛ "" then pure tt else do
    exist ← (λ s. (check_preloaded_images dir s, s))
    if exist then pure tt else note_image dir name image
