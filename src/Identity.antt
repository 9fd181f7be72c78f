-- ===== src/Identity.antt =====
-- pkg/vcloud/identityserver.go, and the getters of the Controller and Node services, whose replies
-- are read from the driver.
use csi_driver_bs.Base.{Bool, true, if◌then◌else◌, ◌≡◌, arith, List, [], ◌∷◌, ok}
use csi_driver_bs.Text.{Text, str, is_empty}
use csi_driver_bs.Driver.{
  create_delete_volume, publish_unpublish_volume, controller_expand_volume, create_delete_snapshot,
  list_snapshots, stage_unstage_volume, node_expand_volume, get_volume_stats,
  single_node_multi_writer, ControllerCapability, NodeCapability, DriverOptions, Driver, new_driver,
  add_volume_capability_access_modes, add_controller_service_capabilities,
  add_node_service_capabilities,
}
use csi_driver_bs.Grpc.{unavailable, reply, State, Handler, return, status, unless}

pub data PluginCapability : Type 0 where
  controller_service online_volume_expansion : PluginCapability

pub record GetPluginInfoResponse : Type 0 where
  pub name : Text
  pub vendor_version : Text

module _ {W : Type 0} (d : Driver) where
  unfoldable pub get_plugin_info : Handler W GetPluginInfoResponse
  get_plugin_info =
      unless (is_empty d.name) unavailable (str "driver name is not configured")
        (return (record { name = d.name; vendor_version = d.version }))

  unfoldable pub controller_get_capabilities : Handler W (List ControllerCapability)
  controller_get_capabilities = return d.cscap

  unfoldable pub node_get_capabilities : Handler W (List NodeCapability)
  node_get_capabilities = return d.nscap

  -- The reply is the node's ID.
  unfoldable pub node_get_info : Handler W Text
  node_get_info = return d.node_id

unfoldable pub get_plugin_capabilities : {W : Type 0} → Handler W (List PluginCapability)
get_plugin_capabilities = return (controller_service ∷ online_volume_expansion ∷ [])

unfoldable pub probe : {W : Type 0} → Handler W Bool
probe = return true

-- A driver that `NewDriver` has made tells the name and the version of the options, or
-- vcloud.csi.vnetwork.dev and dev where they are empty, so `GetPluginInfo` is never `Unavailable`. The
-- node tells the ID of the options, and the services tell the capabilities that are listed here.
pub get_plugin_info-new_driver :
    {W : Type 0} (options : DriverOptions) (d : Driver) (s : State W)
    → new_driver options ≡ ok d
    → (get_plugin_info d s ≡ (
      reply (record {
        name =
            if is_empty options.driver_name
            then str "vcloud.csi.vnetwork.dev"
            else options.driver_name;
        vendor_version = if is_empty options.version then str "dev" else options.version;
      }),
      s,
    ))
      × (node_get_info d s ≡ (reply options.node_id, s))
      × (controller_get_capabilities d s ≡ (
        reply (
            create_delete_volume ∷ publish_unpublish_volume ∷ controller_expand_volume
            ∷ create_delete_snapshot ∷ list_snapshots ∷ []),
        s,
      ))
      × (node_get_capabilities d s ≡ (
        reply (
            stage_unstage_volume ∷ node_expand_volume ∷ get_volume_stats ∷ single_node_multi_writer
            ∷ []),
        s,
      ))
unfolding get_plugin_info node_get_info controller_get_capabilities node_get_capabilities new_driver
    return status add_volume_capability_access_modes add_controller_service_capabilities
    add_node_service_capabilities str
get_plugin_info-new_driver options d s e = ground arith
