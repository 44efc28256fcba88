-- ===== src/Files/Keeps.antt =====
-- Actions that leave the same descriptors open as before, with a rule for each way to build one.
use micro_config_drive.Base.{
  ℕ, Bytes, Option, none, some, List, Bool, true, false, if◌then◌else◌, ◌≡◌, refl, ◌∙◌,
}
use micro_config_drive.System.{Os, Call, Trace, Flag, Passwd, chown, getgrnam, getpwnam}
use micro_config_drive.System.Io.{World, Io, ◌>>=◌, ◌>>◌, pure, call}
use micro_config_drive.Files.{
  make_dir, write_file, Chowned, not_found, chown_ids, chown_user, chown_path,
}
use micro_config_drive.Files.Descriptors.{
  open_fds, track, open_fds-append, make_dir-open_fds, write_file-open_fds,
}

pub record KeepsFds {A : Type 0} (m : Io A) : Type 0 where
  pub fds : (w : World) → open_fds (m w).1.trace ≡ open_fds w.trace

pub KeepsFds-pure : {A : Type 0} (a : A) → KeepsFds (pure a)
KeepsFds-pure a = record { fds = λ w. refl }

pub KeepsFds-call :
    {A : Type 0} (c : Call) (answer : Trace → A)
    → ((fds : List ℕ) → track fds c ≡ fds)
    → KeepsFds (call c answer)
KeepsFds-call c answer h = record { fds = λ w. open_fds-append w.trace c ∙ h (open_fds w.trace) }

module _ {A B : Type 0} where
  pub KeepsFds-bind :
      (m : Io A) (f : A → Io B) → KeepsFds m → ((a : A) → KeepsFds (f a)) → KeepsFds (m >>= f)
  KeepsFds-bind m f p q = record { fds = λ w. let (a, v) = m w in (q a).fds v ∙ p.fds w }

  pub KeepsFds-seq : {m : Io A} {k : Io B} → KeepsFds m → KeepsFds k → KeepsFds (m >> k)
  KeepsFds-seq {m} {k} p q = KeepsFds-bind m (λ _. k) p (λ _. q)

-- A call that neither opens nor closes, and what follows it.
pub KeepsFds-after :
    {A B : Type 0} (c : Call) (answer : Trace → A) (f : A → Io B)
    → ((fds : List ℕ) → track fds c ≡ fds)
    → ((a : A) → KeepsFds (f a))
    → KeepsFds (call c answer >>= f)
KeepsFds-after c answer f h q = KeepsFds-bind (call c answer) f (KeepsFds-call c answer h) q

pub KeepsFds-if :
    {A : Type 0} (b : Bool) (m k : Io A) → KeepsFds m → KeepsFds k → KeepsFds (if b then m else k)
KeepsFds-if true m k p q = p
KeepsFds-if false m k p q = q

pub make_dir-KeepsFds : (os : Os) (path : Bytes) (mode : ℕ) → KeepsFds (make_dir os path mode)
make_dir-KeepsFds os path mode = record { fds = make_dir-open_fds os path mode }

pub write_file-KeepsFds :
    (os : Os) (text path : Bytes) (flags : List Flag) (mode : ℕ)
    → KeepsFds (write_file os text path flags mode)
write_file-KeepsFds os text path flags mode = record {
  fds = write_file-open_fds os text path flags mode;
}

chown_ids-KeepsFds :
    (os : Os) (path : Bytes) (pwd : Passwd) (gid : Option ℕ) → KeepsFds (chown_ids os path pwd gid)
unfolding chown_ids
chown_ids-KeepsFds os path pwd none = KeepsFds-pure not_found
chown_ids-KeepsFds os path pwd (some gid) =
    KeepsFds-after (chown path pwd.uid gid) (λ t. os.chown_done t path pwd.uid gid)
      (λ changed. pure (if changed then Chowned.done else Chowned.failed)) (λ fds. refl)
      (λ changed. KeepsFds-pure _)

chown_user-KeepsFds :
    (os : Os) (path group : Bytes) (user : Option Passwd) → KeepsFds (chown_user os path group user)
unfolding chown_user
chown_user-KeepsFds os path group none = KeepsFds-pure not_found
chown_user-KeepsFds os path group (some pwd) =
    KeepsFds-after (getgrnam group) (λ t. os.group_of t group) (chown_ids os path pwd) (λ fds. refl)
      (chown_ids-KeepsFds os path pwd)

pub chown_path-KeepsFds :
    (os : Os) (path owner group : Bytes) → KeepsFds (chown_path os path owner group)
unfolding chown_path
chown_path-KeepsFds os path owner group =
    KeepsFds-after (getpwnam owner) (λ t. os.passwd_of t owner) (chown_user os path group)
      (λ fds. refl) (chown_user-KeepsFds os path group)

pub ruleset keeps_rules = (
  KeepsFds-pure, KeepsFds-bind, KeepsFds-seq, KeepsFds-if, make_dir-KeepsFds, write_file-KeepsFds,
  chown_path-KeepsFds,
)
