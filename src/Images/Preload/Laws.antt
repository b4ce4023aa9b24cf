-- ===== src/Images/Preload/Laws.antt =====
-- pkg/images/images.go: when Pull notes an image, and when it leaves the machine alone.
use rke.Base.{
  String, List, [], ◌∷◌, ◌++◌, ◌≡◌, ◌≢◌, ◌⊎◌, refl, arith, ◌=ₛ◌, eq_iff, inl, inr, Bool-cases, true,
  false, All,
}
use rke.Base.Text.{has_suffix}
use rke.Base.Result.{ok, err, not_exist}
use rke.Base.Os.{Os, DirEntry, FileKind, is_dir}
use rke.Images.Names.{Names}
use rke.Images.Preload.{is_preloaded, any_preloaded, note_image, pull}

-- A directory, or a list of images.
abbrev pub IsIgnored : DirEntry → Type 0
IsIgnored e =
    (is_dir e.kind ≡ true)
    ⊎ ((has_suffix e.name ".txt" ≡ true) ⊎ (has_suffix e.name ".json" ≡ true))

is_preloaded-IsIgnored : (e : DirEntry) → IsIgnored e → is_preloaded e ≡ false
unfolding is_preloaded
is_preloaded-IsIgnored e h = ground arith

ignored→IsIgnored : (e : DirEntry) → is_preloaded e ≡ false → IsIgnored e
unfolding is_preloaded
ignored→IsIgnored e h = ground arith

any_preloaded-ignored :
    (entries : List DirEntry) → All IsIgnored entries → any_preloaded entries ≡ false
unfolding any_preloaded
any_preloaded-ignored [] h = refl
any_preloaded-ignored (e ∷ entries) (h, hs) =
    rw (is_preloaded-IsIgnored e h) (any_preloaded-ignored entries hs)

any_preloaded-append :
    (before after : List DirEntry) (e : DirEntry)
    → (IsIgnored e → ⊥)
    → any_preloaded (before ++ (e ∷ after)) ≡ true
unfolding any_preloaded
any_preloaded-append [] after e h = elim (Bool-cases (is_preloaded e)) [
  | inl preloaded ↦ rw preloaded
  | inr ignored ↦ absurd (h (ignored→IsIgnored e ignored))
]
any_preloaded-append (b ∷ before) after e h = ground (arith, any_preloaded-append before after e h)

module _ (N : Names) (os : Os) (dir name : String) (image : N.Reference) (s : os.State) where
  -- With a directory that is there and lists an entry that is not ignored, Pull succeeds and changes
  -- nothing.
  pub pull_preloaded :
      (kind : FileKind) (before after : List DirEntry) (e : DirEntry)
      → os.stat dir s ≡ ok kind
      → os.read_dir dir s ≡ ok (before ++ (e ∷ after))
      → (IsIgnored e → ⊥)
      → pull N os dir name image s ≡ (ok tt, s)
  unfolding pull
  pull_preloaded kind before after e there listed h = elim (Bool-cases (dir =ₛ "")) [
    | inl blank ↦ rw blank
    | inr given ↦ rw (given, there, listed, any_preloaded-append before after e h)
  ]

  -- With a directory that is named, is there and has only entries that are ignored, Pull does just what
  -- noting the image does: it makes the directory and writes the image's name there.
  pub pull_noted :
      (kind : FileKind) (entries : List DirEntry)
      → dir ≢ ""
      → os.stat dir s ≡ ok kind
      → os.read_dir dir s ≡ ok entries
      → All IsIgnored entries
      → pull N os dir name image s ≡ note_image N os dir name image s
  unfolding pull
  pull_noted kind entries given there listed h = elim (Bool-cases (dir =ₛ "")) [
    | inl blank ↦ absurd (given ((eq_iff dir "").0 blank))
    | inr g ↦ rw (g, there, listed, any_preloaded-ignored entries h)
  ]

  -- With a directory that is named and missing, Pull does just what noting the image does.
  pub pull_missing :
      dir ≢ ""
      → os.stat dir s ≡ err not_exist
      → pull N os dir name image s ≡ note_image N os dir name image s
  unfolding pull
  pull_missing given missing = elim (Bool-cases (dir =ₛ "")) [
    | inl blank ↦ absurd (given ((eq_iff dir "").0 blank))
    | inr g ↦ rw (g, missing)
  ]
