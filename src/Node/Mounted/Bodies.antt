-- ===== src/Node/Mounted/Bodies.antt =====
-- What the locked parts of the calls of the Node service do to the mount table.
use csi_driver_bs.Base.{
  ℕ, true, not, ◌&&◌, ◌≡◌, arith, none, some, List, [], ◌==◌, ap, if◌then◌else◌,
}
use csi_driver_bs.Text.{Text, text_eq}
use csi_driver_bs.Dict
use csi_driver_bs.Dict.{Dict}
use csi_driver_bs.Driver.{Driver, or_text}
use csi_driver_bs.Os.{Os}
use csi_driver_bs.Os.Files.{wait_until_timeout, make_dir, chmod_if_permission_mismatch}
use csi_driver_bs.Mounter.{Mounter, default_fs_type}
use csi_driver_bs.Mounter.Laws.{IsMounter, KeepsMounts, present}
use csi_driver_bs.Controller.Messages.{VolumeCapability, block, mount, unset}
use csi_driver_bs.Grpc.{reply, State, return, status, ◌>>=◌}
use csi_driver_bs.Node.Messages.{file_mode}
use csi_driver_bs.Node.Stage.{
  set_permissions, mount_device, stage_device, stage_unless_mounted, stage_with,
  node_stage_volume_locked, unmount_and_remove, unmount_if_mounted,
}
use csi_driver_bs.Node.Publish.{
  bind_mount, publish_target, publish_unless_mounted, node_publish_volume_locked,
}

-- One mount more, at a path where there was none.
abbrev pub Added : Text → Text → Dict Text Text → Dict Text Text → Type 0
Added path source m m' =
    (k : Text)
    → Dict.lookup k m'
      ≡ (if k == path && not (present (Dict.lookup path m)) then some source else Dict.lookup k m)

-- No mount at the path any more.
abbrev pub Removed : Text → Dict Text Text → Dict Text Text → Type 0
Removed path m m' = (k : Text) → Dict.lookup k m' ≡ (if k == path then none else Dict.lookup k m)

module _ {W : Type 0} (os : Os W) (mo : Mounter W) (d : Driver) (points : W → Dict Text Text)
    (m : IsMounter mo points) (o : KeepsMounts os points) where
  chmod-keeps :
      (path : Text) (mode : ℕ) (w : W)
      → points (chmod_if_permission_mismatch os path mode w).1 ≡ points w
  unfolding chmod_if_permission_mismatch
  chmod-keeps path mode w =
      ground (arith, o.stat_keeps path w, o.chmod_keeps path mode (os.stat path w).1)

  make_dir-keeps : (path : Text) (mode : ℕ) (w : W) → points (make_dir os path mode w).1 ≡ points w
  unfolding make_dir
  make_dir-keeps path mode w = ground (arith, o.mkdir_all_keeps path mode w)

  set_permissions-keeps :
      (path : Text) (s : State W) → points (set_permissions os d path s).1.world ≡ points s.world
  unfolding set_permissions return ◌>>=◌
  set_permissions-keeps path s = ground (arith, chmod-keeps path (file_mode d) s.world)

  mount_device-Added :
      (device path fs : Text) (options : List Text) (s : State W) (k : Text)
      → (mount_device os mo d device path fs options s).0 ≡ reply tt
      → Dict.lookup k (points (mount_device os mo d device path fs options s).1.world)
        ≡ (if k == path then some device else Dict.lookup k (points s.world))
  unfolding mount_device wait_until_timeout status ◌>>=◌
  mount_device-Added device path fs options s k e = ground (
    arith,
    m.mount_ok device path fs options s.world k,
    ap (Dict.lookup k) (
        set_permissions-keeps path
          (record s { world = (mo.mount device path fs options s.world).1 })),
  )

  stage_device-Added :
      (device path fs : Text) (options : List Text) (s : State W) (k : Text)
      → (stage_device os mo d device path fs options s).0 ≡ reply tt
      → Dict.lookup k (points (stage_device os mo d device path fs options s).1.world)
        ≡ (if k == path then some device else Dict.lookup k (points s.world))
  unfolding stage_device status ◌>>=◌
  stage_device-Added device path fs options s k e =
      let w = (make_dir os path (file_mode d) s.world).1 in
      let w' = (mo.format device fs w).1 in
      ground (
        arith,
        ap (Dict.lookup k) (make_dir-keeps path (file_mode d) s.world),
        ap (Dict.lookup k) (m.format_keeps device fs w),
        mount_device-Added device path fs options (record s { world = w' }) k,
      )

  stage_unless_mounted-Added :
      (device path fs : Text) (options : List Text) (s : State W) (k : Text)
      → (stage_unless_mounted os mo d device path fs options s).0 ≡ reply tt
      → Dict.lookup k (points (stage_unless_mounted os mo d device path fs options s).1.world) ≡ (
          if k == path && not (present (Dict.lookup path (points s.world)))
          then some device
          else Dict.lookup k (points s.world))
  unfolding stage_unless_mounted return status ◌>>=◌
  stage_unless_mounted-Added device path fs options s k e = ground (
    arith,
    m.checked path s.world,
    m.unchecked path s.world,
    m.absent path s.world,
    ap (Dict.lookup k) (m.check_keeps path s.world),
    stage_device-Added device path fs options
        (record s { world = (mo.is_mount_point path s.world).1 }) k,
  )

  pub unmount_if_mounted-Removed :
      (path message : Text) (s : State W)
      → (unmount_if_mounted os mo path message s).0 ≡ reply tt
      → Removed path (points s.world) (points (unmount_if_mounted os mo path message s).1.world)
  unfolding unmount_if_mounted unmount_and_remove return status ◌>>=◌
  unmount_if_mounted-Removed path message s e k =
      let w = (mo.is_mount_point path s.world).1 in
      ground (
        arith,
        m.checked path s.world,
        m.unchecked path s.world,
        m.absent path s.world,
        ap (Dict.lookup k) (m.check_keeps path s.world),
        m.unmount_ok path w k,
        ap (Dict.lookup k) (o.remove_all_keeps path (mo.unmount path w).1),
      )

  pub stage_locked-Added :
      (device path : Text) (cap : VolumeCapability) (s : State W)
      → (node_stage_volume_locked os mo d device path cap s).0 ≡ reply tt
      → Added path device
          (points s.world)
          (points (node_stage_volume_locked os mo d device path cap s).1.world)
  unfolding node_stage_volume_locked stage_with status ◌>>=◌
  stage_locked-Added device path block s e k = ground arith
  stage_locked-Added device path unset s e k = ground arith
  stage_locked-Added device path (mount v) s e k =
      let s' : State W = record s { world = (os.stat device s.world).1 } in
      ground (
        arith,
        ap (Dict.lookup k) (o.stat_keeps device s.world),
        ap (Dict.lookup path) (o.stat_keeps device s.world),
        stage_unless_mounted-Added device path (or_text v.fs_type default_fs_type) v.mount_flags s'
            k,
      )

  publish_target-Added :
      (staging path : Text) (options : List Text) (s : State W) (k : Text)
      → (publish_target os mo d staging path options s).0 ≡ reply tt
      → Dict.lookup k (points (publish_target os mo d staging path options s).1.world)
        ≡ (if k == path then some staging else Dict.lookup k (points s.world))
  unfolding publish_target bind_mount return status ◌>>=◌
  publish_target-Added staging path options s k e =
      let w = (os.mkdir_all (os.dir path) (file_mode d) s.world).1 in
      let w' = (os.mkdir_all path (file_mode d) w).1 in
      ground (
        arith,
        ap (Dict.lookup k) (o.mkdir_all_keeps (os.dir path) (file_mode d) s.world),
        ap (Dict.lookup k) (o.mkdir_all_keeps path (file_mode d) w),
        m.mount_ok staging path [] options w' k,
      )

  publish_unless_mounted-Added :
      (staging path : Text) (options : List Text) (s : State W) (k : Text)
      → (publish_unless_mounted os mo d staging path options s).0 ≡ reply tt
      → Dict.lookup k (points (publish_unless_mounted os mo d staging path options s).1.world) ≡ (
          if k == path && not (present (Dict.lookup path (points s.world)))
          then some staging
          else Dict.lookup k (points s.world))
  unfolding publish_unless_mounted return status ◌>>=◌
  publish_unless_mounted-Added staging path options s k e = ground (
    arith,
    m.checked path s.world,
    m.unchecked path s.world,
    m.absent path s.world,
    ap (Dict.lookup k) (m.check_keeps path s.world),
    publish_target-Added staging path options
        (record s { world = (mo.is_mount_point path s.world).1 }) k,
  )

  pub publish_locked-Added :
      (staging path : Text) (options : List Text) (s : State W)
      → (node_publish_volume_locked os mo d staging path options s).0 ≡ reply tt
      → (present (Dict.lookup staging (points s.world)) ≡ true)
        × Added path staging
            (points s.world)
            (points (node_publish_volume_locked os mo d staging path options s).1.world)
  unfolding node_publish_volume_locked status ◌>>=◌
  publish_locked-Added staging path options s e = (
    ground (arith, m.checked staging s.world),
    λ k. ground (
      arith,
      ap (Dict.lookup k) (m.check_keeps staging s.world),
      ap (Dict.lookup path) (m.check_keeps staging s.world),
      publish_unless_mounted-Added staging path options
          (record s { world = (mo.is_mount_point staging s.world).1 }) k,
    ),
  )
