-- ===== src/Modules/WriteFiles/Performs.antt =====
-- The handler of write_files.c makes the calls that are planned for its items.
use mathlib.Core.Path.{subst}
use micro_config_drive.Base.{
  ℕ, Bytes, str, str_eq, length, Option, none, some, List, [], ◌∷◌, ◌++◌, true, false,
  if◌then◌else◌, ◌≡◌, refl, sym, arith, append-nil, Bool-cases, inl, inr,
}
use micro_config_drive.System.{
  Os, Flag, Passwd, o_wronly, o_creat, access, open_file, write, close, getpwnam, getgrnam,
}
use micro_config_drive.System.Io.{World, ◌>>=◌, call, open_path, skip}
use micro_config_drive.GNode.{GNode, gnode}
use micro_config_drive.Files.{chown_ids, chown_user, chown_path}
use micro_config_drive.CloudConfig.{find_child, cloud_config_find, cloud_config_int_base}
use micro_config_drive.Modules.WriteFiles.{
  ensure_parent, make_parent, all_written, set_permissions, split_owner, or_empty, chown_tokens,
  set_owner, finish_file, fill_file, write_item, write_found, write_files_item, write_files_items,
  write_files_handler,
}
use micro_config_drive.System.Exact.{
  Calls, Answers, Calls-answer, Calls-seq, Calls-pure, Calls-call, Answers-call,
}
use micro_config_drive.Modules.WriteFiles.Plan.{
  pair_nodes, file_nodes, lookup, value_node, Steady, mode_calls, group_calls, user_calls,
  owner_calls, file_calls, written_calls, item_calls, items_calls,
}

find_child-lookup :
    (key : Bytes) (entries : List (Bytes × Bytes))
    → (find_child key (pair_nodes entries)).item ≡ value_node (lookup key entries)
unfolding find_child
find_child-lookup key [] = refl
find_child-lookup key ((k, text) ∷ entries) = elim (Bool-cases (str_eq k key)) [
  | inl e ↦ rw (e, find_child) refl
  | inr e ↦ rw (e, find_child) (find_child-lookup key entries)
]

all_written-length : (content : Bytes) → all_written content (some (length content)) ≡ true
all_written-length content = ground arith

module _ (os : Os) (fd : Bytes → Option ℕ) (user : Bytes → Option Passwd) (group : Bytes → Option ℕ)
    (s : Steady os fd user group) where
  ensure_parent-Answers : (dir : Bytes) → Answers (ensure_parent os dir) true (access dir ∷ [])
  unfolding ensure_parent make_parent
  ensure_parent-Answers dir = record {
    gives = λ w. rw (s.reachable w.trace dir) refl;
    does = λ w. rw (s.reachable w.trace dir) refl;
  }

  open_path-Answers :
      (path : Bytes) (flags : List Flag)
      → Answers (open_path os path flags) (fd path) (open_file path flags (fd path) ∷ [])
  open_path-Answers path flags = record {
    gives = λ w. s.opens w.trace path flags;
    does = λ w. rw (s.opens w.trace path flags) refl;
  }

  set_permissions-Calls :
      (n : ℕ) (permissions : Option Bytes)
      → Calls
          (set_permissions os n (value_node permissions))
          (mode_calls os fd user group n permissions)
  unfolding set_permissions
  set_permissions-Calls n none = record { does = λ w. rw append-nil refl }
  set_permissions-Calls n (some text) = record {
    does = λ w. elim (Bool-cases ((cloud_config_int_base text 8 false).0)) [
      | inl e ↦ rw (set_permissions, s.in_range w.trace, e) refl
      | inr e ↦ rw (set_permissions, s.in_range w.trace, e, append-nil) refl
    ];
  }

  chown_ids-Calls :
      (path : Bytes) (pwd : Passwd) (gid : Option ℕ)
      → Calls (chown_ids os path pwd gid) (group_calls os fd user group path pwd gid)
  unfolding chown_ids
  chown_ids-Calls path pwd none = Calls-pure _
  chown_ids-Calls path pwd (some gid) = record { does = λ w. refl }

  chown_user-Calls :
      (path name : Bytes) (pwd : Option Passwd)
      → Calls (chown_user os path name pwd) (user_calls os fd user group path name pwd)
  unfolding chown_user
  chown_user-Calls path name none = Calls-pure _
  chown_user-Calls path name (some pwd) =
      Calls-answer _ (chown_ids os path pwd) (group name) (getgrnam name ∷ []) _
        (Answers-call (getgrnam name) (λ t. os.group_of t name) (group name) (λ t. s.groups t name))
        (chown_ids-Calls path pwd (group name))

  chown_path-Calls :
      (path name others : Bytes)
      → Calls
          (chown_path os path name others)
          (getpwnam name ∷ user_calls os fd user group path others (user name))
  unfolding chown_path
  chown_path-Calls path name others =
      Calls-answer _ (chown_user os path others) (user name) (getpwnam name ∷ []) _
        (Answers-call (getpwnam name) (λ t. os.passwd_of t name) (user name) (λ t. s.users t name))
        (chown_user-Calls path others (user name))

  set_owner-Calls :
      (path : Bytes) (owner : Option Bytes)
      → Calls (set_owner os path (value_node owner)) (owner_calls os fd user group path owner)
  unfolding set_owner chown_tokens
  set_owner-Calls path none = Calls-pure tt
  set_owner-Calls path (some []) = Calls-pure tt
  set_owner-Calls path (some (c ∷ cs)) =
      let (name, others) = split_owner (c ∷ cs) in
      record { does = (chown_path-Calls path name (or_empty others)).does }

  finish_file-Calls :
      (n : ℕ) (path : Bytes) (permissions owner : Option Bytes)
      → Calls (finish_file os n path (value_node permissions) (value_node owner) true) (
          mode_calls os fd user group n permissions
          ++ (close n ∷ owner_calls os fd user group path owner))
  unfolding finish_file
  finish_file-Calls n path permissions owner =
      Calls-seq (set_permissions os n (value_node permissions)) _
        (mode_calls os fd user group n permissions) _ (set_permissions-Calls n permissions)
        (Calls-seq (call (close n) (λ t. os.close_done t n)) (set_owner os path (value_node owner))
          (close n ∷ []) (owner_calls os fd user group path owner)
          (Calls-call (close n) (λ t. os.close_done t n)) (set_owner-Calls path owner))

  fill_file-Calls :
      (content path : Bytes) (permissions owner : Option Bytes) (file : Option ℕ)
      → Calls
          (fill_file os content path (value_node permissions) (value_node owner) file)
          (file_calls os fd user group content path permissions owner file)
  unfolding fill_file
  fill_file-Calls content path permissions owner none = Calls-pure tt
  fill_file-Calls content path permissions owner (some n) =
      Calls-answer _
        (λ wrote.
          finish_file os n path (value_node permissions) (value_node owner)
            (all_written content wrote))
        (some (length content)) (write n content ∷ []) _
        (Answers-call (write n content) (λ t. os.written t n content) (some (length content))
          (λ t. s.writes t n content))
        (subst
          (λ b. Calls (finish_file os n path (value_node permissions) (value_node owner) b) (
            mode_calls os fd user group n permissions
            ++ (close n ∷ owner_calls os fd user group path owner)))
          (sym (all_written-length content)) (finish_file-Calls n path permissions owner))

  write_item-Calls :
      (content path : Bytes) (permissions owner : Option Bytes)
      → Calls
          (write_item os content path (value_node permissions) (value_node owner))
          (written_calls os fd user group (some content) (some path) permissions owner)
  unfolding write_item
  write_item-Calls content path permissions owner =
      Calls-answer (ensure_parent os (os.dirname path))
        (λ ready.
          if ready
          then open_path os path (o_wronly ∷ (o_creat ∷ []))
            >>= fill_file os content path (value_node permissions) (value_node owner)
          else skip)
        true (access (os.dirname path) ∷ []) _ (ensure_parent-Answers (os.dirname path))
        (Calls-answer _ (fill_file os content path (value_node permissions) (value_node owner))
          (fd path) (open_file path (o_wronly ∷ (o_creat ∷ [])) (fd path) ∷ []) _
          (open_path-Answers path (o_wronly ∷ (o_creat ∷ [])))
          (fill_file-Calls content path permissions owner (fd path)))

  write_found-Calls :
      (content path permissions owner : Option Bytes)
      → Calls
          (write_found os
            (value_node content)
            (value_node path)
            (value_node permissions)
            (value_node owner))
          (written_calls os fd user group content path permissions owner)
  unfolding write_found
  write_found-Calls none path permissions owner = Calls-pure tt
  write_found-Calls (some content) none permissions owner = Calls-pure tt
  write_found-Calls (some content) (some path) permissions owner =
      write_item-Calls content path permissions owner

  write_files_item-Calls :
      (item : List (Bytes × Bytes)) (next : GNode)
      → Calls
          (write_files_item os (gnode none (pair_nodes item) next))
          (item_calls os fd user group item)
  unfolding write_files_item cloud_config_find
  write_files_item-Calls item next =
      rw
        (
          find_child-lookup (str "content") item,
          find_child-lookup (str "path") item,
          find_child-lookup (str "permissions") item,
          find_child-lookup (str "owner") item,
        )
        (write_found-Calls _ _ _ _)

  write_files_items-Calls :
      (items : List (List (Bytes × Bytes)))
      → Calls (write_files_items os (file_nodes items)) (items_calls os fd user group items)
  unfolding write_files_items
  write_files_items-Calls [] = Calls-pure tt
  write_files_items-Calls (item ∷ items) =
      Calls-seq (write_files_item os (gnode none (pair_nodes item) (file_nodes items))) _
        (item_calls os fd user group item) _ (write_files_item-Calls item (file_nodes items))
        (write_files_items-Calls items)

  -- Where every directory can be written to, every write writes all its bytes, errno holds no ERANGE, and the
  -- files that open, the users and the groups stay the same, write_files on a block of items whose keys hold
  -- texts makes for each item, in the order of the block, the calls that its first content, path, permissions and
  -- owner ask for, whatever the order of its keys: none without a content or a path; otherwise the check of the
  -- directory and the opening of the path, and where it opens the writing of the content, its mode if the
  -- permissions are an octal number, the closing, and the look-ups and the change of the owner. Nothing but the
  -- trace changes.
  pub write_files_handler-Calls :
      (name : Option Bytes) (items : List (List (Bytes × Bytes))) (next : GNode) (w : World)
      → (write_files_handler os (gnode name (file_nodes items) next) w).1
        ≡ record w { trace = w.trace ++ items_calls os fd user group items }
  unfolding write_files_handler
  write_files_handler-Calls name items next w = (write_files_items-Calls items).does w
