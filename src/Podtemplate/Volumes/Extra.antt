-- ===== src/Podtemplate/Volumes/Extra.antt =====
-- pkg/podtemplate/podtemplate.go: how addExtraMounts reads the text of a mount.
use rke.Base.{String, ◌<>◌, some, ◌∷◌, ◌≡◌, refl, true, false}
use rke.Base.Text.{split, contains_char}
use rke.Base.Text.Laws.{split-append, split_free}
use rke.Base.Text.Split.{char-append}
use rke.Podtemplate.Volumes.{ExtraMount, parse_mount}

abbrev pub HasNoColon : String → Type 0
HasNoColon s = contains_char b':' s ≡ false

colon-split : (a b : String) → HasNoColon a → split b':' (a <> (":" <> b)) ≡ a ∷ split b':' b
colon-split a b h = rw (char-append ":" b) (split-append ":" a b h)

-- A mount that is read-write, of the given type.
abbrev pub extra_mount : String → String → String → ExtraMount
extra_mount source dest ty = record { source = source; dest = dest; ro = false; mount_type = ty }

module _ (source dest : String) (source_free : HasNoColon source)
    (dest_free : HasNoColon dest) where
  -- With no colon in the parts: `source:dest` is mounted read-write and its type detected; `source:dest:ro` is mounted read-only;
  -- with a type, `source:dest:option:type` is mounted read-write with that type, whatever the option.
  pub extra_mount_text :
      (option ty : String)
      → HasNoColon option
      → HasNoColon ty
      → (parse_mount (split b':' (source <> (":" <> dest))) ≡ some (extra_mount source dest ""))
        × (parse_mount (split b':' (source <> (":" <> (dest <> ":ro"))))
            ≡ some (record (extra_mount source dest "") { ro = true }))
        × (parse_mount (split b':' (source <> (":" <> (dest <> (":" <> (option <> (":" <> ty)))))))
            ≡ some (extra_mount source dest ty))
  unfolding parse_mount contains_char
  extra_mount_text option ty option_free ty_free = (
    rw (colon-split source dest source_free, split_free b':' dest dest_free) refl,
    rw
        (
          colon-split source (dest <> ":ro") source_free,
          colon-split dest "ro" dest_free,
          split_free b':' "ro" refl,
        )
        refl,
    rw
        (
          colon-split source (dest <> (":" <> (option <> (":" <> ty)))) source_free,
          colon-split dest (option <> (":" <> ty)) dest_free,
          colon-split option ty option_free,
          split_free b':' ty ty_free,
        )
        refl,
  )
