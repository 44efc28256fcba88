-- ===== src/Userdata/Groups.antt =====
-- A document with a `groups` block, from the events of the file to the commands.
use micro_config_drive.Base.{
  Bytes, str, str_eq, clip, none, some, List, [], ◌∷◌, ◌++◌, map, ◌≡◌, refl,
}
use micro_config_drive.System.{Os}
use micro_config_drive.Yaml.Documents.{end, entry_list, file_events}
use micro_config_drive.Shell.Batch.{Runs, Runs-skip, Runs-seq, Runs-cons}
use micro_config_drive.Modules.Commands.Lines.{itself}
use micro_config_drive.Modules.Groups.{groups_items, groups_handler}
use micro_config_drive.Modules.Users.Options.{group_nodes}
use micro_config_drive.Userdata.{
  cc_module_structs, prepend_all, find_handler, run_handler, process_blocks, cloud_config_process,
  read_userdata,
}
use micro_config_drive.Userdata.Runcmd.{last_first}
use micro_config_drive.Userdata.Blocks.{list_nodes}
use micro_config_drive.Userdata.Keyed.{Keyed, keyed_items, keyed_node, read_userdata-keyed}

-- The commands for a group, in buffers of 256 bytes: the group is made, and each user put into it.
abbrev pub create_group : Os → Bytes → Bytes
create_group os group = clip 256 (os.groupadd_path ++ (str " -f '" ++ (group ++ str "'")))

abbrev pub join_group : Os → Bytes → Bytes → Bytes
join_group os group user =
    clip 256 (os.usermod_path ++ (str " -a -G  '" ++ (group ++ (str "' '" ++ (user ++ str "'")))))

abbrev pub group_commands : Os → List Keyed → List Bytes
group_commands os [] = []
group_commands os (k ∷ ks) =
    create_group os k.key ∷ (map (join_group os k.key) (k.first ∷ k.others) ++ group_commands os ks)

members-Runs :
    (os : Os) (group user : Bytes) (users : List Bytes)
    → Runs os itself
        (groups_items os (some group) (group_nodes user users))
        (map (join_group os group) (user ∷ users))
unfolding groups_items
members-Runs os group user [] = Runs-cons os itself (join_group os group user) (Runs-skip os itself)
members-Runs os group user (u ∷ us) =
    Runs-cons os itself (join_group os group user) (members-Runs os group u us)

groups_items-commands :
    (os : Os) (ks : List Keyed)
    → Runs os itself (groups_items os none (list_nodes (map keyed_node ks))) (group_commands os ks)
unfolding groups_items
groups_items-commands os [] = Runs-skip os itself
groups_items-commands os (k ∷ ks) =
    let members = map (join_group os k.key) (k.first ∷ k.others) in
    Runs-cons os itself (create_group os k.key)
      (Runs-seq os itself (members-Runs os k.key k.first k.others) (groups_items-commands os ks))

find_groups :
    find_handler (some (str "groups")) (prepend_all cc_module_structs []) ≡ some groups_handler
unfolding find_handler prepend_all cc_module_structs str str_eq
find_groups = refl

-- A file whose document is a `groups` block, a list of mappings that each give one group with a list of at least
-- one user: for each group, the last one of the file first, `groupadd` is run, and then `usermod` once for each
-- of its users, in the order of the list. The commands are cut off at 255 bytes, and what they return does not
-- matter. Nothing else is done with the tree.
pub process-groups :
    (os : Os) (ks : List Keyed) (filename : Bytes)
    → Runs os itself
        (cloud_config_process os
          (prepend_all cc_module_structs [])
          (read_userdata (file_events (entry_list (str "groups") (keyed_items ks) end)) filename))
        (group_commands os (last_first [] ks))
unfolding cloud_config_process process_blocks run_handler groups_handler
process-groups os ks filename =
    rw (read_userdata-keyed (str "groups") ks filename)
      (rw find_groups (groups_items-commands os (last_first [] ks)))
