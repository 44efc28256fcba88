-- ===== src/Modules/Envar.antt =====
-- src/ccmodules/envar.c: environment variables.
pub mod Bindings
use micro_config_drive.Base.{
  Bytes, str, clip, path_max, Option, none, some, List, [], ◌∷◌, ◌++◌, if◌then◌else◌,
}
use micro_config_drive.System.{Os, Call, o_creat, o_append, o_wronly, setenv}
use micro_config_drive.System.Io.{Io, ◌>>=◌, ◌>>◌, pure, skip, call}
use micro_config_drive.GNode.{GNode, null, gnode, children}
use micro_config_drive.Files.{make_dir, write_file, mode_755}

abbrev pub export_line : Bytes → Bytes → Bytes
export_line name value = str "export " ++ (name ++ (str "=\"" ++ (value ++ str "\"\n")))

-- `envar_item` on each node of a list of siblings; the last argument is its `data`, the name of the
-- variable. The buffer `buffer_envar` is passed along.
unfoldable pub envar_items : Os → Bytes → Option Bytes → GNode → Io Bytes
envar_items os buffer name null = pure buffer
envar_items os buffer name (gnode none c n) = do
  more ← envar_items os buffer name c
  envar_items os more name n
envar_items os buffer none (gnode (some key) c n) = do
  more ← envar_items os buffer (some key) c
  envar_items os more none n
envar_items os buffer (some name) (gnode (some value) c n) = do
  call (setenv name value) (λ t. tt)
  envar_items os (buffer ++ export_line name value) (some name) n

-- The part of `envar_handler` that appends the buffer to cloud-init.sh.
unfoldable pub write_profile : Os → Bytes → Io (Unit {0})
write_profile os buffer = do
  let profile_path = clip path_max (os.sysconfdir ++ str "/profile.d")
  made ← make_dir os profile_path mode_755
  if made
      then (do
        write_file os buffer (clip path_max (profile_path ++ str "/cloud-init.sh"))
            (o_creat ∷ o_append ∷ o_wronly ∷ []) mode_755
        skip)
      else skip

unfoldable pub envar_handler : Os → GNode → Io (Unit {0})
envar_handler os node = do buffer ← envar_items os [] none (children node); write_profile os buffer
