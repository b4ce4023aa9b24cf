-- ===== src/Podtemplate/Pod/Laws.antt =====
-- pkg/podtemplate/podtemplate.go: when Pod succeeds, and what it hashes.
use rke.Base.{String, ◌<>◌, List, [], ◌∷◌, ◌≡◌, ◌↔◌, refl, All}
use rke.Base.Result.{Result, ok, ◌>>=◌, >>=-eq-ok, annotate, annotate-eq-ok}
use rke.Base.Os.{Os}
use rke.Images.Names.{Names}
use rke.Podtemplate.Spec.{Spec}
use rke.Podtemplate.Pod.{Pod, pod, pod_of, read_all, hash_files}

-- The file can be read.
abbrev pub IsReadable : (os : Os) → os.State → String → Type 0
IsReadable os s f = (text : String) × (os.read_file f s ≡ ok text)

module _ (os : Os) (s : os.State) where
  read_all_iff :
      (files : List String)
      → All (IsReadable os s) files ↔ ((text : String) × (read_all os files s ≡ ok text))
  unfolding read_all
  read_all_iff [] = (λ _. ("", refl), λ _. tt)
  read_all_iff (f ∷ files) = (
    λ (h, hs). let (rest, e) = (read_all_iff files).0 hs in (h.0 <> rest, rw (h.1, e) refl),
    λ (text, e).
        let (first, one, later) =
          >>=-eq-ok (os.read_file f s) (λ t. read_all os files s >>= λ ts. ok (t <> ts)) e in
        let (rest, two, _) = >>=-eq-ok (read_all os files s) (λ ts. ok (first <> ts)) later in
        ((first, one), (read_all_iff files).1 (rest, two)),
  )

module _ (os : Os) (sha256_hex : String → String) {N : Names} {Q : Type 0} where
  module _ (parse_quantity : String → Result Q) (environ : List String) (spec : Spec N)
      (s : os.State) where
    -- Pod succeeds exactly when every file to be hashed can be read: a quantity, a mount or a setting
    -- of the environment that is not valid never makes it fail.
    pub pod_iff :
        All (IsReadable os s) spec.files
        ↔ ((p : Pod Q) × (pod os sha256_hex parse_quantity environ spec s ≡ ok p))
    unfolding pod hash_files
    pod_iff = (
      λ h.
          let (text, e) = (read_all_iff os s spec.files).0 h in
          (pod_of os sha256_hex parse_quantity environ spec (sha256_hex text) s, rw e refl),
      λ (p, e).
          let (hash, one, _) = >>=-eq-ok (annotate _ (hash_files os sha256_hex spec.files s)) _ e in
          let two = annotate-eq-ok _ (hash_files os sha256_hex spec.files s) one in
          let (text, three, _) =
            >>=-eq-ok (read_all os spec.files s) (λ t. ok (sha256_hex t)) two in
          (read_all_iff os s spec.files).1 (text, three),
    )
