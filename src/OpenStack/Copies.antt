-- ===== src/OpenStack/Copies.antt =====
-- What the handlers of src/datasources/openstack.c do with the trees of documents: the `files` and the
-- `public_keys` of the metadata.
use micro_config_drive.Base.{
  Bytes, str, str_eq, clip, line_max, some, List, [], ◌∷◌, true, false, ◌≡◌, ◌≢◌, refl, ◌∙◌, ap,
}
use micro_config_drive.System.{Os}
use micro_config_drive.System.Io.{World, Io, ◌>>◌, skip}
use micro_config_drive.GNode.{GNode, null, gnode, append_node}
use micro_config_drive.SshKeys.{write_ssh_keys}
use micro_config_drive.Modules.Keys.{default_user}
use micro_config_drive.Json.{
  JsonNode, Members, Elements, object, array, value, no_member, member, no_element, element, string,
  json_parse, parse_members, parse_elements, json_string,
}
use micro_config_drive.Json.Flat.{json_parse-object, parse_members-member, parse_elements-element}
use micro_config_drive.OpenStack.Handlers.{
  copy_content, copy_pair, take_file_key, copy_files, openstack_metadata_files,
  openstack_metadata_public_keys, write_key,
}

-- A file of the metadata, with its `content_path` and its `path` in either order.
pub data FileEntry : Type 0 where
  content_first path_first : Bytes → Bytes → FileEntry

abbrev pub text : Bytes → JsonNode
text t = value (string t)

abbrev pub entry_object : FileEntry → JsonNode
entry_object (content_first content_path path) =
    object
      (member (str "content_path") (text content_path) (member (str "path") (text path) no_member))
entry_object (path_first content_path path) =
    object
      (member (str "path") (text path) (member (str "content_path") (text content_path) no_member))

abbrev pub entry_array : List FileEntry → Elements
entry_array [] = no_element
entry_array (e ∷ es) = element (entry_object e) (entry_array es)

abbrev pub IsNamed : FileEntry → Type 0
IsNamed (content_first content_path path) = (content_path ≢ []) × (path ≢ [])
IsNamed (path_first content_path path) = (content_path ≢ []) × (path ≢ [])

abbrev pub AreNamed : List FileEntry → Type 0
AreNamed [] = Unit {0}
AreNamed (e ∷ es) = IsNamed e × AreNamed es

abbrev copy_named : Os → Bytes → Bytes → Io (Unit {0})
copy_named os content_path path w =
    copy_content os w.drive.data_source (clip line_max content_path) (clip line_max path) w

abbrev pub copy_entry : Os → FileEntry → Io (Unit {0})
copy_entry os (content_first content_path path) = copy_named os content_path path
copy_entry os (path_first content_path path) = copy_named os content_path path

-- Each file, in the order of the document.
abbrev pub copy_entries : Os → List FileEntry → Io (Unit {0})
copy_entries os [] = skip
copy_entries os (e ∷ es) = copy_entry os e >> copy_entries os es

copy_pair_named :
    (os : Os) (content_path path : Bytes) (w : World)
    → content_path ≢ []
    → path ≢ []
    → copy_pair os (clip line_max content_path, clip line_max path) w
      ≡ copy_named os content_path path w
unfolding copy_pair clip
copy_pair_named os [] path w c p = absurd (c refl)
copy_pair_named os (b ∷ bs) [] w c p = absurd (p refl)
copy_pair_named os (b ∷ bs) (d ∷ ds) w c p = refl

-- With one text nothing is copied.
copy_pair_no_path :
    (os : Os) (content_path : Bytes) (w : World) → copy_pair os (content_path, []) w ≡ (tt, w)
unfolding copy_pair
copy_pair_no_path os [] w = refl
copy_pair_no_path os (c ∷ cs) w = refl

copy_pair_no_content : (os : Os) (path : Bytes) (w : World) → copy_pair os ([], path) w ≡ (tt, w)
unfolding copy_pair
copy_pair_no_content os path w = refl

-- The tree of an entry in front of those behind it, whatever the buffers held before.
copy_files-entry :
    (os : Os) (e : FileEntry) (next : GNode) (paths : Bytes × Bytes) (w : World)
    → IsNamed e
    → (paths' : Bytes × Bytes) × (copy_files os
          (append_node (json_parse (entry_object e) true null) next)
          paths
          w
        ≡ (copy_entry os e >> copy_files os next paths') w)
unfolding copy_files take_file_key json_parse parse_members append_node json_string str_eq str
copy_files-entry os (content_first content_path path) next paths w (c, p) = (
  (clip line_max content_path, clip line_max path),
  simp copy_pair_no_path (
      ap
        (λ (r : Unit {0} × World).
          copy_files os next (clip line_max content_path, clip line_max path) r.1)
        (copy_pair_named os content_path path w c p)),
)
copy_files-entry os (path_first content_path path) next paths w (c, p) = (
  (clip line_max content_path, clip line_max path),
  simp (copy_pair_no_path, copy_pair_no_content)
      (ap
        (λ (r : Unit {0} × World).
          copy_files os next (clip line_max content_path, clip line_max path) r.1)
        (copy_pair_named os content_path path w c p)),
)

copy_files-entries :
    (os : Os) (es : List FileEntry) (paths : Bytes × Bytes) (w : World)
    → AreNamed es
    → copy_files os (parse_elements (entry_array es) null) paths w ≡ copy_entries os es w
unfolding copy_files parse_elements
copy_files-entries os [] paths w h = refl
copy_files-entries os (e ∷ es) paths w (named, rest) =
    let next = parse_elements (entry_array es) null in
    let (paths', copied) = copy_files-entry os e next paths w named in
    ap (λ (t : GNode). copy_files os t paths w)
      (parse_elements-element (entry_object e) (entry_array es))
    ∙ copied
    ∙ copy_files-entries os es paths' (copy_entry os e w).1 rest

-- For a `files` array of any length whose elements are objects with a `content_path` and a `path`, in either
-- order and neither of them empty, the handler copies each file once and in the order of the document.
pub files-copies :
    (os : Os) (es : List FileEntry) (w : World)
    → AreNamed es
    → openstack_metadata_files os (json_parse (array (entry_array es)) false null) w
      ≡ copy_entries os es w
unfolding openstack_metadata_files json_parse
files-copies os es w h = copy_files-entries os es ([], []) w h

abbrev pub key_members : List (Bytes × Bytes) → Members
key_members [] = no_member
key_members ((name, key) ∷ keys) = member name (text key) (key_members keys)

-- Each key, in the order of the document.
abbrev pub write_each : Os → List (Bytes × Bytes) → Io (Unit {0})
write_each os [] = skip
write_each os ((name, key) ∷ keys) = write_ssh_keys os key default_user >> write_each os keys

first_key :
    (os : Os) (name key : Bytes) (next : GNode) (w : World)
    → openstack_metadata_public_keys os
        (gnode (some name) (json_parse (text key) false null) next)
        w
      ≡ openstack_metadata_public_keys os next (write_ssh_keys os key default_user w).1
unfolding openstack_metadata_public_keys write_key json_parse json_string append_node
first_key os name key next w = refl

public_keys-members :
    (os : Os) (keys : List (Bytes × Bytes)) (w : World)
    → openstack_metadata_public_keys os (parse_members (key_members keys) null) w
      ≡ write_each os keys w
unfolding openstack_metadata_public_keys parse_members
public_keys-members os [] w = refl
public_keys-members os ((name, key) ∷ keys) w =
    ap (λ (t : GNode). openstack_metadata_public_keys os t w)
      (parse_members-member name (text key) (key_members keys))
    ∙ first_key os name key (parse_members (key_members keys) null) w
    ∙ public_keys-members os keys (write_ssh_keys os key default_user w).1

-- For a `public_keys` object of any number of names with keys, the handler writes every key to the default
-- user's file, in the order of the document, whether or not one before it could be written.
pub public_keys-writes :
    (os : Os) (keys : List (Bytes × Bytes)) (w : World)
    → openstack_metadata_public_keys os (json_parse (object (key_members keys)) false null) w
      ≡ write_each os keys w
unfolding openstack_metadata_public_keys
public_keys-writes os keys w =
    ap (λ (t : GNode). openstack_metadata_public_keys os t w)
      (json_parse-object (key_members keys) false)
    ∙ public_keys-members os keys w
