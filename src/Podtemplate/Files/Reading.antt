-- ===== src/Podtemplate/Files/Reading.antt =====
-- pkg/podtemplate/podtemplate.go: which files ReadFiles returns.
use rke.Base.{
  true, String, Option, none, some, List, [], ◌∷◌, ◌++◌, ◌≡◌, ◌⊎◌, inl, inr, refl, arith, ◌=ₛ◌,
  eq_refl, eq_iff, All, Bool-cases,
}
use rke.Base.Text.{cut}
use rke.Base.Result.{Result, ok, >>=-eq-ok, ok-injective}
use rke.Base.Os.{Os}
use rke.Podtemplate.Files.{
  add_key, add_keys, Kubeconfig, kubeconfig_files, is_mounted, add_part, add_arg, add_args,
  read_files,
}
use rke.Podtemplate.Files.Laws.{
  IsSorted, add_key-IsSorted, add_key-All, is_listed, add_key-is_listed,
}
use mathlib.Core.Path.{subst}

All-listed {ℓ} :
    (Q : String → Type ℓ) (l : List String) → ((f : String) → is_listed f l ≡ true → Q f) → All Q l
All-listed Q [] h = tt
All-listed Q (x ∷ l) h = (h x (rw eq_refl refl), All-listed Q l (λ f e. h f (ground arith)))

listed-All {ℓ} :
    (Q : String → Type ℓ) (l : List String) → All Q l → (f : String) → is_listed f l ≡ true → Q f
listed-All Q [] h f e = absurd cc
listed-All Q (x ∷ l) h f e = elim (Bool-cases (x =ₛ f)) [
  | inl same ↦ subst Q ((eq_iff x f).0 same) h.0
  | inr other ↦ listed-All Q l h.1 f (rw other at e)
]

module _ (os : Os) (load : String → os.State → Result Kubeconfig) (s : os.State)
    (excludes : List String) where
  -- What every key that is added may be known to satisfy: it is mounted for an argument, or a kubeconfig
  -- that is names it.
  abbrev pub IsFound : String → Type 0
  IsFound f =
      (is_mounted os load s excludes f ≡ true)
      ⊎ ((kubeconfig : String) × (certs : List String) × (is_mounted os load s excludes kubeconfig
            ≡ true)
          × (kubeconfig_files os load s kubeconfig ≡ ok certs)
          × (is_listed f certs ≡ true))

  module _ {ℓ} (P : List String → Type ℓ)
      (step : (k : String) (keys : List String) → IsFound k → P keys → P (add_key k keys)) where
    add_keys-keeps : (ks keys : List String) → All IsFound ks → P keys → P (add_keys ks keys)
    unfolding add_keys
    add_keys-keeps [] keys h p = p
    add_keys-keeps (k ∷ ks) keys h p = add_keys-keeps ks (add_key k keys) h.1 (step k keys h.0 p)

    -- One part of an argument, and all the arguments.
    add_part-keeps :
        (o : Option (String × String)) (files r : List String)
        → add_part os load s excludes o files ≡ ok r
        → P files
        → P r
    unfolding add_arg
    add_part-keeps none files r h p = subst P (ok-injective h) p
    add_part-keeps (some (name, path)) files r h p =
        elim (Bool-cases (is_mounted os load s excludes path)) [
          | inr skipped ↦ subst P (ok-injective (rw skipped at h)) p
          | inl mounted ↦ elim (Bool-cases (name =ₛ "--kubeconfig")) [
            | inr other ↦
                subst P (ok-injective (rw (mounted, other) at h)) (step path files (inl mounted) p)
            | inl kubeconfig ↦
                let (certs, found, e) =
                  >>=-eq-ok (kubeconfig_files os load s path)
                    (λ l. ok (add_keys l (add_key path files))) (rw (mounted, kubeconfig) at h) in
                subst P (ok-injective e) (
                  add_keys-keeps certs (add_key path files)
                    (All-listed IsFound certs (λ f l. inr (path, certs, mounted, found, l)))
                    (step path files (inl mounted) p))
          ]
        ]

    add_args-keeps :
        (args files r : List String) → add_args os load s excludes args files ≡ ok r → P files → P r
    unfolding add_args add_arg
    add_args-keeps [] files r h p = subst P (ok-injective h) p
    add_args-keeps (arg ∷ args) files r h p =
        let (m, one, later) =
          >>=-eq-ok (add_arg os load s excludes arg files) (add_args os load s excludes args) h in
        add_args-keeps args m r later (add_part-keeps (cut b'=' arg) files m one p)

  keeps_listed :
      (f k : String) (keys : List String)
      → IsFound k
      → is_listed f keys ≡ true
      → is_listed f (add_key k keys) ≡ true
  keeps_listed f k keys found h = ground (arith, add_key-is_listed f k keys)

module _ (os : Os) (load : String → os.State → Result Kubeconfig) (s : os.State)
    (args excludes files : List String) where
  -- The files that ReadFiles returns, if it succeeds, are strictly sorted, and so none is listed twice.
  pub read_files-IsSorted : read_files os load s args excludes ≡ ok files → IsSorted files
  unfolding read_files
  read_files-IsSorted h =
      add_args-keeps os load s excludes IsSorted (λ k keys _. add_key-IsSorted k keys) args [] files
        h tt

  -- If ReadFiles succeeds, every file that it returns is an absolute path of a file that is there and is not excluded,
  -- or is named by a kubeconfig that is such a file.
  pub read_files_sound :
      read_files os load s args excludes ≡ ok files
      → (f : String) → is_listed f files ≡ true
      → IsFound os load s excludes f
  unfolding read_files
  read_files_sound h = listed-All (IsFound os load s excludes) files (
      add_args-keeps os load s excludes (All (IsFound os load s excludes))
        (λ k keys. add_key-All (IsFound os load s excludes) k keys) args [] files h tt)

module _ (os : Os) (load : String → os.State → Result Kubeconfig) (s : os.State)
    (excludes : List String) where
  add_part-listed :
      (name path : String) (files r : List String)
      → is_mounted os load s excludes path ≡ true
      → add_part os load s excludes (some (name, path)) files ≡ ok r
      → is_listed path r ≡ true
  add_part-listed name path files r mounted h =
      let here = add_key-is_listed path path files in
      elim (Bool-cases (name =ₛ "--kubeconfig")) [
        | inr other ↦
            subst (λ l. is_listed path l ≡ true) (ok-injective (rw (mounted, other) at h))
              (rw (here, eq_refl path) refl)
        | inl kubeconfig ↦
            let (certs, found, e) =
              >>=-eq-ok (kubeconfig_files os load s path)
                (λ l. ok (add_keys l (add_key path files))) (rw (mounted, kubeconfig) at h) in
            subst (λ l. is_listed path l ≡ true) (ok-injective e)
              (add_keys-keeps os load s excludes (λ l. is_listed path l ≡ true)
                (keeps_listed os load s excludes path) certs (add_key path files)
                (All-listed (IsFound os load s excludes) certs
                  (λ f l. inr (path, certs, mounted, found, l)))
                (rw (here, eq_refl path) refl))
      ]

  add_args-listed :
      (before after : List String) (arg name path : String) (files r : List String)
      → cut b'=' arg ≡ some (name, path)
      → is_mounted os load s excludes path ≡ true
      → add_args os load s excludes (before ++ (arg ∷ after)) files ≡ ok r
      → is_listed path r ≡ true
  unfolding add_args add_arg
  add_args-listed [] after arg name path files r parts mounted h =
      let (m, one, later) =
        >>=-eq-ok (add_arg os load s excludes arg files) (add_args os load s excludes after) h in
      add_args-keeps os load s excludes (λ l. is_listed path l ≡ true)
        (keeps_listed os load s excludes path) after m r later
        (add_part-listed name path files m mounted (rw parts at one))
  add_args-listed (b ∷ before) after arg name path files r parts mounted h =
      let (m, one, later) =
        >>=-eq-ok (add_arg os load s excludes b files)
          (add_args os load s excludes (before ++ (arg ∷ after))) h in
      add_args-listed before after arg name path m r parts mounted later

  -- If ReadFiles succeeds, it returns the file of each argument `name=path` where the path is absolute,
  -- is there, is no directory and is not excluded.
  pub read_files_complete :
      (before after : List String) (arg name path : String) (files : List String)
      → cut b'=' arg ≡ some (name, path)
      → is_mounted os load s excludes path ≡ true
      → read_files os load s (before ++ (arg ∷ after)) excludes ≡ ok files
      → is_listed path files ≡ true
  unfolding read_files
  read_files_complete before after arg name path files =
      add_args-listed before after arg name path [] files
