-- ===== src/Container/Retry/Mounts.antt =====
-- internal/container/start.go: the mount of the license file, and its removal.
use lstk.Text.Basic.{text_beq, text_eq, Text}
use lstk.Container.Outside.{BindMount, Container}
use lstk.Container.Retry.{
  license_mount, license_mount_path, mount_license, strip_license, without_license,
}
use lstk.Prelude.{◌++◌, [], ◌∷◌, ◌==◌, true, not, All, List, all, Bool, refl, arith, ◌≡◌}

-- Whether no mount of a container is the license's.
abbrev pub unmounted : Container → Bool
unmounted c = all (λ b. not (b.container_path == license_mount_path)) c.binds

without_license-append :
    (file : Text) (binds : List BindMount)
    → all (λ b. not (b.container_path == license_mount_path)) binds ≡ true
    → without_license (binds ++ license_mount file ∷ []) ≡ binds
unfolding without_license text_beq
without_license-append file [] h = refl
without_license-append file (b ∷ binds) h = ground (arith, h, without_license-append file binds)

-- Stripping what was mounted gives back the containers as they were.
strip_license-mount_license :
    (file : Text) (containers : List Container)
    → All (λ c. unmounted c ≡ true) containers
    → strip_license (mount_license file containers) ≡ containers
unfolding strip_license mount_license
strip_license-mount_license file [] h = refl
strip_license-mount_license file (c ∷ containers) (first, h) =
    rw (without_license-append file c.binds first, strip_license-mount_license file containers h)
      refl
