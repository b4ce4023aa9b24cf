-- ===== src/Staticpod/Executor/Failures.antt =====
-- pkg/executor/staticpod/staticpod.go: a writeFile that fails does not touch the manifest.
use rke.Base.{ℕ, String, [], ◌∷◌, ◌≡◌, sym, ap, Bool-cases, inl, inr}
use mathlib.Core.Path.{subst}
use rke.Base.FilePath.{join_path, base_name, dir_name}
use rke.Base.Os.{Os}
use rke.Base.Result.{Result, Error, ok, err, err≢ok}
use rke.Base.Act.{◌>>◌, >>=-err}
use rke.Staticpod.Executor.{write_file, is_same, replace, then_remove}

module _ {ℓ} (os : Os) (dest content : String) (perm : ℕ) (P : os.State → Type ℓ)
    (mkdir_keeps : (s : os.State) → P s → P ((os.mkdir_all (dir_name dest) 0o700 s).1))
    (temp_keeps : (s : os.State)
      → P s
      → P ((os.mkdir_temp (dir_name (dir_name dest)) (base_name dest) s).1))
    (write_keeps : (tmpdir : String) (s t : os.State)
      → os.mkdir_temp (dir_name (dir_name dest)) (base_name dest) s ≡ (ok tmpdir, t)
      → P t
      → P ((os.write_file (join_path (tmpdir ∷ base_name dest ∷ [])) content perm t).1))
    (rename_keeps : (from : String) (s s' : os.State) (e : Error)
      → os.rename from dest s ≡ (err e, s')
      → P s
      → P s')
    (remove_keeps : (tmpdir : String) (s t u : os.State)
      → os.mkdir_temp (dir_name (dir_name dest)) (base_name dest) s ≡ (ok tmpdir, t)
      → P u
      → P ((os.remove_all tmpdir u).1)) where
  -- The write of the temporary file and the rename, if one of them fails.
  moved-keeps :
      (tmpdir : String) (s t u : os.State) (e : Error)
      → os.mkdir_temp (dir_name (dir_name dest)) (base_name dest) s ≡ (ok tmpdir, t)
      → P t
      → (os.write_file (join_path (tmpdir ∷ base_name dest ∷ [])) content perm
            >> os.rename (join_path (tmpdir ∷ base_name dest ∷ [])) dest)
          t
        ≡ (err e, u)
      → P u
  moved-keeps tmpdir s t u e made p h =
      let tmp = join_path (tmpdir ∷ base_name dest ∷ []) in
      elim (>>=-err (os.write_file tmp content perm) (λ _. os.rename tmp dest) t h) [
        | inl failed ↦ subst P (ap (λ q. q.1) failed) (write_keeps tmpdir s t made p)
        | inr (done, v, wrote, failed) ↦
            rename_keeps tmp v u e failed
              (subst P (ap (λ q. q.1) wrote) (write_keeps tmpdir s t made p))
      ]

  replace-keeps :
      (tmpdir : String) (s t s' : os.State) (e : Error)
      → os.mkdir_temp (dir_name (dir_name dest)) (base_name dest) s ≡ (ok tmpdir, t)
      → P t
      → replace os tmpdir dest content perm t ≡ (err e, s')
      → P s'
  replace-keeps tmpdir s t s' e made p h =
      let tmp = join_path (tmpdir ∷ base_name dest ∷ []) in
      from ((os.write_file tmp content perm >> os.rename tmp dest) t)
        (λ u e' f. moved-keeps tmpdir s t u e' made p f) h
    where
      from :
          (r : Result (Unit {0}) × os.State)
          → ((u : os.State) (e' : Error) → r ≡ (err e', u) → P u)
          → then_remove os tmpdir r ≡ (err e, s')
          → P s'
      from (r, u) kept h =
          subst P (ap (λ q. q.1) h)
            (remove_keeps tmpdir s t u made (kept u e (ap (λ q. (q.0, u)) h)))

  -- If writeFile fails, all is kept that is kept by making the directories, by writing and removing below
  -- the temporary one, and by a rename that fails.
  pub write_file-keeps :
      (s s' : os.State) (e : Error) → write_file os dest content perm s ≡ (err e, s') → P s → P s'
  unfolding write_file
  write_file-keeps s s' e h p = elim (>>=-err (os.mkdir_all (dir_name dest) 0o700) _ s h) [
    | inl failed ↦ subst P (ap (λ q. q.1) failed) (mkdir_keeps s p)
    | inr (_, t, made, rest) ↦
        let p' = subst P (ap (λ q. q.1) made) (mkdir_keeps s p) in
        elim (Bool-cases (is_same os (os.read_file dest t) content)) [
          | inl same ↦ absurd (err≢ok (sym (ap (λ q. q.0) (rw same at rest))))
          | inr other ↦
              elim (>>=-err (os.mkdir_temp (dir_name (dir_name dest)) (base_name dest))
                (λ tmpdir. replace os tmpdir dest content perm) t (rw other at rest)) [
                  | inl failed ↦ subst P (ap (λ q. q.1) failed) (temp_keeps t p')
                  | inr (tmpdir, u, temp, failed) ↦
                      replace-keeps tmpdir t u s' e temp
                        (subst P (ap (λ q. q.1) temp) (temp_keeps t p')) failed
                ]
        ]
  ]
