-- ===== src/Modules/WriteFiles/Leaks.antt =====
-- Which items of `write_files` leave their file open.
use micro_config_drive.Base.{
  ℕ, Bytes, Option, none, some, List, [], ◌∷◌, ◌++◌, Bool, true, false, ◌≡◌, refl, ◌∙◌, inl, inr,
  ap, Bool-cases,
}
use micro_config_drive.System.{Os, o_wronly, o_creat, access, write, fchmod, close}
use micro_config_drive.System.Io.{World, ◌>>=◌}
use micro_config_drive.CloudConfig.{cloud_config_int_base}
use micro_config_drive.GNode.{GNode, null, gnode}
use micro_config_drive.Shell.{exec_task}
use micro_config_drive.Files.Descriptors.{open_fds, open_fds-append, open_fds-close, opened}
use micro_config_drive.Files.Keeps.{
  KeepsFds, KeepsFds-pure, KeepsFds-after, KeepsFds-seq, KeepsFds-if, chown_path-KeepsFds,
}
use micro_config_drive.Modules.WriteFiles.{
  make_parent, ensure_parent, all_written, set_permissions, chown_tokens, set_owner, finish_file,
  fill_file, write_item, has_enoent_bit, text_of, split_owner, or_empty,
}

exec_task-KeepsFds : (os : Os) (c : Bytes) → KeepsFds (exec_task os c)
unfolding exec_task
exec_task-KeepsFds os c = record { fds = λ w. open_fds-append w.trace _ }

make_parent-KeepsFds : (os : Os) (dir : Bytes) (e : Option ℕ) → KeepsFds (make_parent os dir e)
unfolding make_parent
make_parent-KeepsFds os dir none = KeepsFds-pure true
make_parent-KeepsFds os dir (some e) =
    KeepsFds-if (has_enoent_bit e) _ _ (KeepsFds-seq (exec_task-KeepsFds os _) (KeepsFds-pure true))
      (KeepsFds-pure false)

ensure_parent-KeepsFds : (os : Os) (dir : Bytes) → KeepsFds (ensure_parent os dir)
unfolding ensure_parent
ensure_parent-KeepsFds os dir =
    KeepsFds-after (access dir) (λ t. os.access_errno t dir) (make_parent os dir) (λ fds. refl)
      (make_parent-KeepsFds os dir)

set_permissions-KeepsFds : (os : Os) (fd : ℕ) (p : GNode) → KeepsFds (set_permissions os fd p)
unfolding set_permissions
set_permissions-KeepsFds os fd null = KeepsFds-pure tt
set_permissions-KeepsFds os fd (gnode d c n) = record {
  fds = λ w.
      let (valid, mode) =
        cloud_config_int_base (text_of (gnode d c n)) 8 (os.errno_is_erange w.trace) in
      elim (Bool-cases valid) [
        | inl e ↦ rw e (open_fds-append w.trace (fchmod fd mode))
        | inr e ↦ rw e
      ];
}

chown_tokens-KeepsFds : (os : Os) (path owner : Bytes) → KeepsFds (chown_tokens os path owner)
unfolding chown_tokens
chown_tokens-KeepsFds os path [] = KeepsFds-pure tt
chown_tokens-KeepsFds os path (c ∷ cs) =
    let (user, group) = split_owner (c ∷ cs) in
    KeepsFds-seq (chown_path-KeepsFds os path user (or_empty group)) (KeepsFds-pure tt)

set_owner-KeepsFds : (os : Os) (path : Bytes) (owner : GNode) → KeepsFds (set_owner os path owner)
unfolding set_owner
set_owner-KeepsFds os path null = KeepsFds-pure tt
set_owner-KeepsFds os path (gnode d c n) = chown_tokens-KeepsFds os path (text_of (gnode d c n))

-- What an item leaves open: its own file if the contents were written short, and nothing otherwise.
abbrev pub left_open : ℕ → Bool → List ℕ → List ℕ
left_open fd true fds = fds
left_open fd false fds = fd ∷ fds

finish_file-open_fds :
    (os : Os) (fd : ℕ) (path : Bytes) (permissions owner : GNode) (complete : Bool) (fds : List ℕ)
    (w : World)
    → open_fds w.trace ≡ fd ∷ fds
    → open_fds (finish_file os fd path permissions owner complete w).1.trace
      ≡ left_open fd complete fds
unfolding finish_file
finish_file-open_fds os fd path permissions owner false fds w h = h
finish_file-open_fds os fd path permissions owner true fds w h =
    let v = (set_permissions os fd permissions w).1 in
    let u = record v { trace = v.trace ++ (close fd ∷ []) } in
    (set_owner-KeepsFds os path owner).fds u
    ∙ open_fds-close v.trace fd fds ((set_permissions-KeepsFds os fd permissions).fds w ∙ h)

-- An item whose directory is there and whose file can be opened closes the file again exactly when all
-- of the contents were written. After a short or a failed write the descriptor stays open.
pub write_item-open_fds :
    (os : Os) (content path : Bytes) (permissions owner : GNode) (w : World) (fd : ℕ)
    → (ensure_parent os (os.dirname path) w).0 ≡ true
    → let v = (ensure_parent os (os.dirname path) w).1 in
      os.open_fd v.trace path (o_wronly ∷ o_creat ∷ []) ≡ some fd
      → let u = opened path (o_wronly ∷ o_creat ∷ []) (some fd) v in
        open_fds (write_item os content path permissions owner w).1.trace
        ≡ left_open fd (all_written content (os.written u.trace fd content)) (open_fds w.trace)
unfolding write_item fill_file
write_item-open_fds os content path permissions owner w fd ready e =
    let v = (ensure_parent os (os.dirname path) w).1 in
    let u = opened path (o_wronly ∷ o_creat ∷ []) (some fd) v in
    let t = record u { trace = u.trace ++ (write fd content ∷ []) } in
    rw (ready, ◌>>=◌)
      (rw (e, fill_file)
        (finish_file-open_fds os fd path permissions owner _ (open_fds w.trace) t (
          open_fds-append u.trace _
          ∙ open_fds-append v.trace _
          ∙ ap (λ (fds : List ℕ). fd ∷ fds) ((ensure_parent-KeepsFds os (os.dirname path)).fds w))))
