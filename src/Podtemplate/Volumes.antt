-- ===== src/Podtemplate/Volumes.antt =====
-- pkg/podtemplate/podtemplate.go: addVolumes and addExtraMounts. A v1.HostPathType is its text.
pub mod Laws
pub mod Names
pub mod Extra
use rke.Base.{
  ℕ, suc, Bool, true, false, String, ◌<>◌, Option, none, some, List, [], ◌∷◌, ◌++◌, ◌=ₛ◌,
  if◌then◌else◌,
}
use rke.Base.Text.{split, equal_lower}
use rke.Base.Decimal.{decimal}
use rke.Base.Os.{Os, FileKind, regular, directory, special, socket as socket_file}
use rke.Base.Result.{Result, ok, err}

pub data TypeVolume : Type 0 where
  socket dir file : TypeVolume

-- The name of a kind of volumes, its source type, and whether it is mounted read-only.
unfoldable pub prefix : TypeVolume → String
prefix socket = "socket"
prefix dir = "dir"
prefix file = "file"

unfoldable pub source_type : TypeVolume → String
source_type socket = "Socket"
source_type dir = "DirectoryOrCreate"
source_type file = "File"

unfoldable pub is_read_only : TypeVolume → Bool
is_read_only socket = false
is_read_only dir = false
is_read_only file = true

pub record Volume : Type 0 where
  pub name : String
  pub path : String
  pub path_type : String

pub record VolumeMount : Type 0 where
  pub name : String
  pub read_only : Bool
  pub mount_path : String

-- The fields of a pod that the two functions append to: its volumes, and the mounts of its container.
pub record Mounted : Type 0 where
  pub volumes : List Volume
  pub volume_mounts : List VolumeMount

-- A volume and its mount, which have the same name.
abbrev pub mount : String → String → String → Bool → String → Mounted → Mounted
mount name path path_type read_only mount_path m = record {
  volumes = m.volumes ++ (record { name = name; path = path; path_type = path_type } ∷ []);
  volume_mounts =
      m.volume_mounts
      ++ (record { name = name; read_only = read_only; mount_path = mount_path } ∷ []);
}

-- The loop of addVolumes from its index on.
unfoldable pub add_volumes_from : TypeVolume → ℕ → List String → Mounted → Mounted
unfolding prefix source_type is_read_only decimal
add_volumes_from volume i [] m = m
add_volumes_from volume i (src ∷ rest) m =
    add_volumes_from volume (suc i) rest
      (mount (prefix volume <> decimal i) src (source_type volume) (is_read_only volume) src m)

abbrev pub add_volumes : List String → TypeVolume → Mounted → Mounted
add_volumes src volume m = add_volumes_from volume 0 src m

-- The parts of an extra mount that the switch on their number accepts.
pub record ExtraMount : Type 0 where
  pub source : String
  pub dest : String
  pub ro : Bool
  pub mount_type : String

abbrev mount_option : String → Option Bool
mount_option option =
    if equal_lower option "ro"
    then some true
    else if equal_lower option "rw"
    then some false
    else none

abbrev with_option : String → String → Option Bool → Option ExtraMount
with_option source dest none = none
with_option source dest (some ro) =
    some (record { source = source; dest = dest; ro = ro; mount_type = "" })

unfoldable pub parse_mount : List String → Option ExtraMount
unfolding equal_lower
parse_mount (source ∷ dest ∷ []) =
    some (record { source = source; dest = dest; ro = false; mount_type = "" })
parse_mount (source ∷ dest ∷ option ∷ []) = with_option source dest (mount_option option)
parse_mount (source ∷ dest ∷ option ∷ mount_type ∷ []) =
    some (record { source = source; dest = dest; ro = false; mount_type = mount_type })
parse_mount _ = none

abbrev pub detected_type : Result FileKind → String
detected_type (err e) = "DirectoryOrCreate"
detected_type (ok socket_file) = "Socket"
detected_type (ok directory) = "Directory"
detected_type (ok regular) = "File"
detected_type (ok special) = "File"

module _ (os : Os) (s : os.State) where
  -- The source type that was given, or that of the file at the source.
  unfoldable pub mount_source_type : ExtraMount → String
  mount_source_type e =
      if e.mount_type =ₛ "" then detected_type (os.stat e.source s) else e.mount_type

  unfoldable pub add_extra_mount : ℕ → Option ExtraMount → Mounted → Mounted
  unfolding mount_source_type decimal
  add_extra_mount i none m = m
  add_extra_mount i (some e) m =
      mount ("extra-mount-" <> decimal i) e.source (mount_source_type e) e.ro e.dest m

  -- The loop of addExtraMounts from its index on.
  unfoldable pub add_extra_mounts_from : ℕ → List String → Mounted → Mounted
  unfolding add_extra_mount split parse_mount
  add_extra_mounts_from i [] m = m
  add_extra_mounts_from i (raw_mount ∷ rest) m =
      add_extra_mounts_from (suc i) rest (add_extra_mount i (parse_mount (split b':' raw_mount)) m)

  abbrev pub add_extra_mounts : List String → Mounted → Mounted
  add_extra_mounts extra_mounts m = add_extra_mounts_from 0 extra_mounts m
