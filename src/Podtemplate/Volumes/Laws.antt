-- ===== src/Podtemplate/Volumes/Laws.antt =====
-- pkg/podtemplate/podtemplate.go: the names of the volumes and of their mounts.
use rke.Base.{String, List, [], ◌∷◌, ◌++◌, ◌≡◌, ◌≢◌, refl, ap, All, All-append}
use rke.Podtemplate.Volumes.{Volume, VolumeMount, Mounted, mount}

abbrev pub volume_names : List Volume → List String
volume_names [] = []
volume_names (v ∷ vs) = v.name ∷ volume_names vs

abbrev pub mount_names : List VolumeMount → List String
mount_names [] = []
mount_names (v ∷ vs) = v.name ∷ mount_names vs

volume_names-append :
    (vs ws : List Volume) → volume_names (vs ++ ws) ≡ volume_names vs ++ volume_names ws
volume_names-append [] ws = refl
volume_names-append (v ∷ vs) ws = ap (λ l. v.name ∷ l) (volume_names-append vs ws)

mount_names-append :
    (vs ws : List VolumeMount) → mount_names (vs ++ ws) ≡ mount_names vs ++ mount_names ws
mount_names-append [] ws = refl
mount_names-append (v ∷ vs) ws = ap (λ l. v.name ∷ l) (mount_names-append vs ws)

-- No text is listed twice.
abbrev pub IsDistinct : List String → Type 0
IsDistinct [] = Unit
IsDistinct (x ∷ xs) = All (λ y. x ≢ y) xs × IsDistinct xs

-- A name that is not among others put behind them.
IsDistinct-snoc :
    (xs : List String) (y : String)
    → IsDistinct xs
    → All (λ x. x ≢ y) xs
    → IsDistinct (xs ++ (y ∷ []))
IsDistinct-snoc [] y h h' = (tt, tt)
IsDistinct-snoc (x ∷ xs) y h h' =
    (All-append (λ z. x ≢ z) xs (y ∷ []) h.0 (h'.0, tt), IsDistinct-snoc xs y h.1 h'.1)

-- Every mount has the volume of its name, in the same order, and no name is given twice.
abbrev pub IsAligned : Mounted → Type 0
IsAligned m =
    (mount_names m.volume_mounts ≡ volume_names m.volumes) × IsDistinct (volume_names m.volumes)

-- The name is not yet given to a volume.
abbrev pub IsFree : String → Mounted → Type 0
IsFree name m = All (λ x. x ≢ name) (volume_names m.volumes)

pub volume_names-mount :
    (name path ty : String) (ro : _) (dest : String) (m : Mounted)
    → volume_names ((mount name path ty ro dest m).volumes) ≡ volume_names m.volumes ++ (name ∷ [])
volume_names-mount name path ty ro dest m = volume_names-append m.volumes (_ ∷ [])

pub mount-IsAligned :
    (name path ty : String) (ro : _) (dest : String) (m : Mounted)
    → IsAligned m
    → IsFree name m
    → IsAligned (mount name path ty ro dest m)
mount-IsAligned name path ty ro dest m h free =
    rw (volume_names-append, mount_names-append)
      (ap (λ l. l ++ (name ∷ [])) h.0, IsDistinct-snoc (volume_names m.volumes) name h.1 free)
