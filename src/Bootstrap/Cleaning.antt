-- ===== src/Bootstrap/Cleaning.antt =====
-- pkg/bootstrap/bootstrap.go: which directories cleanDataDirs removes.
use rke.Base.{
  true, false, String, All, List, [], ◌∷◌, ◌≡◌, ◌≢◌, refl, arith, eq_iff, Bool-cases, inl, inr,
}
use rke.Base.FilePath.{join_path}
use rke.Base.Os.{Os, DirEntry, FileKind, is_dir, directory, regular, socket, special}
use rke.Base.Result.{Result, ok, err, is_not_exist}
use rke.Bootstrap.{
  is_release, is_candidate, dir_has_shims, remove_old, clean_entries, clean_listed, clean_data_dirs,
}

module _ {ℓ} (os : Os) (data_dir ref_digest : String) (IsListed : DirEntry → Type 0)
    (P : os.State → Type ℓ)
    (keeps : (entry : DirEntry) (s : os.State)
      → IsListed entry
      → entry.kind ≡ directory
      → entry.name ≢ ref_digest
      → is_release entry.name ≡ true
      → dir_has_shims os (join_path (join_path (data_dir ∷ "data" ∷ []) ∷ entry.name ∷ [])) s
        ≡ false
      → P s
      → P (
          (os.remove_all
            (join_path (join_path (data_dir ∷ "data" ∷ []) ∷ entry.name ∷ []))
            s).1)) where
  is_dir-directory : (kind : FileKind) → is_dir kind ≡ true → kind ≡ directory
  is_dir-directory directory h = refl
  is_dir-directory regular h = absurd cc
  is_dir-directory socket h = absurd cc
  is_dir-directory special h = absurd cc

  remove_old-keeps :
      (entry : DirEntry) (s : os.State)
      → is_candidate ref_digest entry ≡ true
      → IsListed entry
      → P s
      → P (remove_old os (join_path (join_path (data_dir ∷ "data" ∷ []) ∷ entry.name ∷ [])) s)
  remove_old-keeps entry s h named p =
      let path = join_path (join_path (data_dir ∷ "data" ∷ []) ∷ entry.name ∷ []) in
      elim (Bool-cases (dir_has_shims os path s)) [
        | inl used ↦ rw used p
        | inr free ↦ rw free (
            keeps entry s named (is_dir-directory entry.kind (ground arith))
              (λ e. absurd (let e' = (eq_iff entry.name ref_digest).1 e in ground arith))
              (ground arith) free p)
      ]

  clean_entries-keeps :
      (entries : List DirEntry) (s : os.State)
      → All IsListed entries
      → P s
      → P (clean_entries os (join_path (data_dir ∷ "data" ∷ [])) ref_digest entries s)
  unfolding clean_entries
  clean_entries-keeps [] s named p = p
  clean_entries-keeps (entry ∷ entries) s named p =
      elim (Bool-cases (is_candidate ref_digest entry)) [
        | inl old ↦
            rw old (clean_entries-keeps entries _ named.1 (remove_old-keeps entry s old named.0 p))
        | inr other ↦ rw other (clean_entries-keeps entries s named.1 p)
      ]

  -- Whatever is kept by the removal of a directory that is listed below `data` as one, is named like a
  -- release, is not the current one's and has no running container's shim in it, is kept by
  -- cleanDataDirs. What may be listed is IsListed.
  pub clean_data_dirs-keeps :
      (s : os.State)
      → ((entries : List DirEntry)
          → os.read_dir (join_path (data_dir ∷ "data" ∷ [])) s ≡ ok entries
          → All IsListed entries)
      → P s
      → P ((clean_data_dirs os data_dir ref_digest s).1)
  unfolding clean_data_dirs
  clean_data_dirs-keeps s named p = from (os.read_dir (join_path (data_dir ∷ "data" ∷ [])) s) named
    where
      from :
          (r : Result (List DirEntry))
          → ((entries : List DirEntry) → r ≡ ok entries → All IsListed entries)
          → P ((clean_listed os (join_path (data_dir ∷ "data" ∷ [])) ref_digest r s).1)
      from (ok entries) named = clean_entries-keeps entries s (named entries refl) p
      from (err e) named = elim (Bool-cases (is_not_exist e)) [
        | inl missing ↦ rw missing p
        | inr other ↦ rw other p
      ]
