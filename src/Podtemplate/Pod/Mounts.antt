-- ===== src/Podtemplate/Pod/Mounts.antt =====
-- pkg/podtemplate/podtemplate.go: the volumes of a pod, from all the places that give it some.
use rke.Base.{refl, arith}
use rke.Base.Os.{Os}
use rke.Images.Names.{Names}
use rke.Podtemplate.Spec.{Spec}
use rke.Podtemplate.Volumes.{TypeVolume, socket, dir, file, prefix}
use rke.Podtemplate.Volumes.Laws.{IsAligned}
use rke.Podtemplate.Volumes.Names.{
  IsApart, heads-IsApart, add_volumes_from-IsAligned, add_volumes_from-IsBelow,
  add_extra_mounts_from-IsAligned,
}
use rke.Podtemplate.Pod.{pod_mounts, no_mounts}

socket-dir : IsApart (prefix socket) (prefix dir)
unfolding prefix
socket-dir = heads-IsApart "s" "d" "ocket" "ir" (λ e. omega arith)

socket-file : IsApart (prefix socket) (prefix file)
unfolding prefix
socket-file = heads-IsApart "s" "f" "ocket" "ile" (λ e. omega arith)

dir-file : IsApart (prefix dir) (prefix file)
unfolding prefix
dir-file = heads-IsApart "d" "f" "ir" "ile" (λ e. omega arith)

extra-IsApart : (volume : TypeVolume) → IsApart (prefix volume) "extra-mount-"
unfolding prefix
extra-IsApart socket = heads-IsApart "s" "e" "ocket" "xtra-mount-" (λ e. omega arith)
extra-IsApart dir = heads-IsApart "d" "e" "ir" "xtra-mount-" (λ e. omega arith)
extra-IsApart file = heads-IsApart "f" "e" "ile" "xtra-mount-" (λ e. omega arith)

module _ (os : Os) {N : Names} (spec : Spec N) (s : os.State) where
  -- Whatever the configuration asks for, the mounts of a pod name its volumes in their order, and no
  -- two of its volumes have the same name.
  pub pod_mounts-IsAligned : IsAligned (pod_mounts os spec s)
  unfolding pod_mounts
  pod_mounts-IsAligned =
      add_extra_mounts_from-IsAligned os s 0 spec.extra_mounts _
        (add_volumes_from-IsAligned file 0 spec.files _
          (add_volumes_from-IsAligned dir 0 spec.dirs _
            (add_volumes_from-IsAligned socket 0 spec.sockets no_mounts (refl, tt) tt)
            (add_volumes_from-IsBelow socket (prefix dir) 0 0 spec.sockets no_mounts socket-dir tt))
          (add_volumes_from-IsBelow dir (prefix file) 0 0 spec.dirs _ dir-file (
            add_volumes_from-IsBelow socket (prefix file) 0 0 spec.sockets no_mounts socket-file
              tt)))
        (add_volumes_from-IsBelow file "extra-mount-" 0 0 spec.files _ (extra-IsApart file) (
          add_volumes_from-IsBelow dir "extra-mount-" 0 0 spec.dirs _ (extra-IsApart dir) (
            add_volumes_from-IsBelow socket "extra-mount-" 0 0 spec.sockets no_mounts
              (extra-IsApart socket) tt)))
