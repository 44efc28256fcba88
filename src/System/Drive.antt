-- ===== src/System/Drive.antt =====
-- The static variables of src/datasources/openstack.c, and the functions that are handed to the pool of
-- threads.
use micro_config_drive.Base.{Bytes, Option, List, Bool}
use micro_config_drive.GNode.{GNode}

-- `SOURCE_CONFIG_DRIVE` and `SOURCE_NONE`
pub data DataSource : Type 0 where
  config_drive no_source : DataSource

-- The functions that `openstack_metadata_options` names.
pub data MetadataFunc : Type 0 where
  not_implemented uuid keys hostname public_keys files : MetadataFunc

-- What `async_task_run` is given: a function of the metadata with its node, and `async_fixdisk`.
pub data Task : Type 0 where
  metadata : MetadataFunc → GNode → Task
  fixdisk : Task

pub record Drive : Type 0 where
  pub data_source : DataSource
  pub config_drive_disk : Bytes
  pub config_drive_loop_device : Option Bytes
  pub config_drive_mount_path : Bytes
  pub metadata_file : Bytes
  pub userdata_file : Bytes
  pub metadata_node : GNode
  -- `openstack_metadata_options_htable`: a NULL pointer is the empty list
  pub options : List (Bytes × MetadataFunc)
  pub cache_metadata_id : Bool
  pub cache_user_data_id : Bool
