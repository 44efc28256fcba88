-- ===== src/OpenStack/Uuid.antt =====
-- The instance id is taken out of the metadata by `openstack_start` of src/datasources/openstack.c.
use micro_config_drive.Base.{
  Bytes, str, data_eq, Option, none, some, Bool, true, false, ◌||◌, ◌≡◌, refl, inl, inr, Bool-cases,
}
use micro_config_drive.System.Drive.{DataSource, config_drive, no_source}
use micro_config_drive.System.Io.{World, pure, ◌>>=◌, ◌>>◌}
use micro_config_drive.System.Ensures.{Ensures, Ensures-false, ensures_rules}
use micro_config_drive.GNode.{GNode, null, gnode, children}
use micro_config_drive.OpenStack.{Host}
use micro_config_drive.OpenStack.Handlers.{openstack_metadata_uuid}
use micro_config_drive.OpenStack.Tasks.{
  process_uuids, with_children, openstack_process_uuid, openstack_metadata_free_options,
}
use micro_config_drive.OpenStack.Datasource.{load_drive, mount_drive, start_source, openstack_start}

-- Whether one of the siblings has that key.
abbrev pub has_key : Bytes → GNode → Bool
has_key key null = false
has_key key (gnode d below next) = data_eq d key || has_key key next

process_uuids_gone :
    (h : Host) (forest : GNode) (w : World)
    → has_key (str "uuid") (process_uuids h forest w).0 ≡ false
unfolding process_uuids
process_uuids_gone h null w = refl
process_uuids_gone h (gnode d below next) w = elim (Bool-cases (data_eq d (str "uuid"))) [
  | inl e ↦ rw (e, ◌>>=◌) (process_uuids_gone h next (openstack_metadata_uuid h.os below w).1)
  | inr e ↦ rw (e, ◌>>=◌) (rw e (process_uuids_gone h next w))
]

with_children_children :
    (root rest : GNode)
    → has_key (str "uuid") rest ≡ false
    → has_key (str "uuid") (children (with_children root rest)) ≡ false
with_children_children null rest e = refl
with_children_children (gnode d old next) rest e = e

-- The tree has no key `uuid`.
abbrev pub NoUuid : World → Type 0
NoUuid w = has_key (str "uuid") (children w.drive.metadata_node) ≡ false

process_uuid_gone : (h : Host) (w : World) → NoUuid (openstack_process_uuid h w).1
unfolding openstack_process_uuid
process_uuid_gone h w =
    let (rest, v) = process_uuids h (children w.drive.metadata_node) w in
    with_children_children v.drive.metadata_node rest
      (process_uuids_gone h (children w.drive.metadata_node) w)

-- The end of `load_drive`.
freed-NoUuid :
    (h : Host)
    → Ensures NoUuid (do openstack_process_uuid h; openstack_metadata_free_options; pure true)
unfolding openstack_metadata_free_options
freed-NoUuid h = record { holds = λ w e. process_uuid_gone h w }

load_drive-NoUuid : (h : Host) → Ensures NoUuid (load_drive h)
unfolding load_drive
load_drive-NoUuid h = search (ensures_rules, freed-NoUuid) depth 14

mount_drive-NoUuid : (h : Host) (path : Option Bytes) → Ensures NoUuid (mount_drive h path)
unfolding mount_drive
mount_drive-NoUuid h none = Ensures-false
mount_drive-NoUuid h (some path) = search (ensures_rules, load_drive-NoUuid) depth 14

start_source-NoUuid : (h : Host) (source : DataSource) → Ensures NoUuid (start_source h source)
unfolding start_source
start_source-NoUuid h no_source = Ensures-false
start_source-NoUuid h config_drive = search (ensures_rules, mount_drive-NoUuid) depth 14

-- Once `openstack_start` has returned true, the metadata have no key `uuid` any more: the instance id is not
-- processed again with the other keys.
pub openstack_start-NoUuid :
    (h : Host) (w : World) → (openstack_start h w).0 ≡ true → NoUuid (openstack_start h w).1
unfolding openstack_start
openstack_start-NoUuid h w e =
    let started : Ensures NoUuid (openstack_start h) =
      search (ensures_rules, start_source-NoUuid) depth 14 in
    started.holds w e
