-- ===== src/Podtemplate/Volumes/Names.antt =====
-- pkg/podtemplate/podtemplate.go: no two volumes of a pod have the same name.
use rke.Base.{
  ℕ, suc, ◌<◌, Char, code, String, ◌<>◌, List, [], ◌∷◌, ◌≡◌, ◌≢◌, sym, ap, ◌∙◌, arith, All,
  All-append, Option, none, some,
}
use rke.Base.Decimal.{decimal, decimal-injective}
use rke.Base.Text.{split}
use rke.Base.Os.{Os}
use rke.Podtemplate.Volumes.{
  TypeVolume, prefix, source_type, is_read_only, Mounted, mount, add_volumes_from, ExtraMount,
  parse_mount, add_extra_mount, add_extra_mounts_from, mount_source_type,
}
use rke.Podtemplate.Volumes.Laws.{
  volume_names, IsAligned, IsFree, mount-IsAligned, volume_names-mount,
}
use text.Mathlib.TextLemmas.{append_cancel_left, cons-append, head-eq_of_cons-eq}

All-map {ℓ κ κ'} :
    {A : Type ℓ} (P : A → Type κ) (Q : A → Type κ') (xs : List A)
    → ((x : A) → P x → Q x)
    → All P xs
    → All Q xs
All-map P Q [] f h = tt
All-map P Q (x ∷ xs) f h = (f x h.0, All-map P Q xs f h.1)

-- A name made of the prefix and a number has a number below the index.
abbrev pub IsIndexBelow : String → ℕ → String → Type 0
IsIndexBelow p i name = (j : ℕ) → name ≡ p <> decimal j → j < i

abbrev pub IsBelow : String → ℕ → Mounted → Type 0
IsBelow p i m = All (IsIndexBelow p i) (volume_names m.volumes)

-- Two prefixes that start with different characters.
abbrev pub IsApart : String → String → Type 0
IsApart p q = (s t : String) → p <> s ≢ q <> t

pub heads-IsApart :
    (c d : Char) (p q : String) → code c ≢ code d → IsApart (String.◌∷◌ c p) (String.◌∷◌ d q)
heads-IsApart c d p q h s t e =
    h (ap code (head-eq_of_cons-eq (sym (cons-append c p s) ∙ (e ∙ cons-append d q t))))

below-IsFree : (p : String) (i : ℕ) (m : Mounted) → IsBelow p i m → IsFree (p <> decimal i) m
below-IsFree p i m h =
    All-map (IsIndexBelow p i) (λ x. x ≢ p <> decimal i) (volume_names m.volumes)
      (λ x f e. absurd (let lt = f i e in omega arith)) h

module _ (p : String) (path ty : String) (ro : _) (dest : String) (m : Mounted) where
  mount-IsBelow :
      (i : ℕ) → IsBelow p i m → IsBelow p (suc i) (mount (p <> decimal i) path ty ro dest m)
  mount-IsBelow i h = rw (volume_names-mount (p <> decimal i) path ty ro dest m) (
      All-append (IsIndexBelow p (suc i)) (volume_names m.volumes) (_ ∷ [])
        (All-map (IsIndexBelow p i) (IsIndexBelow p (suc i)) (volume_names m.volumes)
          (λ x f j e. let lt = f j e in omega arith) h)
        (
          (λ j e.
              let same = decimal-injective i j (append_cancel_left p (decimal i) (decimal j) e) in
              omega arith),
          tt,
        ))

  mount_other-IsBelow :
      (q : String) (i k : ℕ)
      → IsApart p q
      → IsBelow q k m
      → IsBelow q k (mount (p <> decimal i) path ty ro dest m)
  mount_other-IsBelow q i k apart h = rw (volume_names-mount (p <> decimal i) path ty ro dest m) (
      All-append (IsIndexBelow q k) (volume_names m.volumes) (_ ∷ []) h
        ((λ j e. absurd (apart (decimal i) (decimal j) e)), tt))

-- The loop of addVolumes keeps the volumes aligned,
pub add_volumes_from-IsAligned :
    (volume : TypeVolume) (i : ℕ) (src : List String) (m : Mounted)
    → IsAligned m
    → IsBelow (prefix volume) i m
    → IsAligned (add_volumes_from volume i src m)
unfolding add_volumes_from
add_volumes_from-IsAligned volume i [] m h below = h
add_volumes_from-IsAligned volume i (src ∷ rest) m h below =
    add_volumes_from-IsAligned volume (suc i) rest _
      (mount-IsAligned _ _ _ _ _ m h (below-IsFree (prefix volume) i m below))
      (mount-IsBelow (prefix volume) src (source_type volume) (is_read_only volume) src m i below)

-- and gives no name with another prefix.
pub add_volumes_from-IsBelow :
    (volume : TypeVolume) (q : String) (i k : ℕ) (src : List String) (m : Mounted)
    → IsApart (prefix volume) q
    → IsBelow q k m
    → IsBelow q k (add_volumes_from volume i src m)
unfolding add_volumes_from
add_volumes_from-IsBelow volume q i k [] m apart below = below
add_volumes_from-IsBelow volume q i k (src ∷ rest) m apart below =
    add_volumes_from-IsBelow volume q (suc i) k rest _ apart (
      mount_other-IsBelow (prefix volume) src (source_type volume) (is_read_only volume) src m q i k
        apart below)

module _ (os : Os) (s : os.State) where
  add_extra_mount-IsAligned :
      (i : ℕ) (e : Option ExtraMount) (m : Mounted)
      → IsAligned m
      → IsBelow "extra-mount-" i m
      → IsAligned (add_extra_mount os s i e m)
        × IsBelow "extra-mount-" (suc i) (add_extra_mount os s i e m)
  unfolding add_extra_mount
  add_extra_mount-IsAligned i none m h below = (
    h,
    All-map (IsIndexBelow "extra-mount-" i) (IsIndexBelow "extra-mount-" (suc i))
        (volume_names m.volumes) (λ x f j e. let lt = f j e in omega arith) below,
  )
  add_extra_mount-IsAligned i (some e) m h below = (
    mount-IsAligned _ _ _ _ _ m h (below-IsFree "extra-mount-" i m below),
    mount-IsBelow "extra-mount-" e.source (mount_source_type os s e) e.ro e.dest m i below,
  )

  -- So does the loop of addExtraMounts, whichever of the mounts it skips.
  pub add_extra_mounts_from-IsAligned :
      (i : ℕ) (extra : List String) (m : Mounted)
      → IsAligned m
      → IsBelow "extra-mount-" i m
      → IsAligned (add_extra_mounts_from os s i extra m)
  unfolding add_extra_mounts_from
  add_extra_mounts_from-IsAligned i [] m h below = h
  add_extra_mounts_from-IsAligned i (raw_mount ∷ rest) m h below =
      let step = add_extra_mount-IsAligned i (parse_mount (split b':' raw_mount)) m h below in
      add_extra_mounts_from-IsAligned (suc i) rest _ step.0 step.1
