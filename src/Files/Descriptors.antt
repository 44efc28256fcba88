-- ===== src/Files/Descriptors.antt =====
-- What the helpers of src/lib.c leave open: the descriptors of a trace that are open at its end.
use mathlib.Core.List.{foldl, foldl-append}
use micro_config_drive.Base.{
  ℕ, Bytes, Option, none, some, List, [], ◌∷◌, ◌++◌, ◌==◌, if◌then◌else◌, ◌≡◌, refl, ◌∙◌, arith,
  clip, path_max, inl, inr, Option-cases, Bool-cases,
}
use micro_config_drive.System.{
  Os, Call, Trace, Flag, Stat, open_file, close, fstat, o_wronly, o_creat, o_trunc, o_rdonly,
}
use micro_config_drive.System.Io.{World, ◌>>=◌}
use micro_config_drive.Files.{
  make_dir, write_file, write_open_file, copy_open_files, copy_into, copy_to, copy_file,
}

-- A descriptor is dropped where it was opened last.
abbrev pub drop_fd : ℕ → List ℕ → List ℕ
drop_fd fd [] = []
drop_fd fd (x ∷ xs) = if x == fd then xs else x ∷ drop_fd fd xs

abbrev pub track : List ℕ → Call → List ℕ
track fds (open_file path flags (some fd)) = fd ∷ fds
track fds (close fd) = drop_fd fd fds
track fds _ = fds

abbrev pub open_fds : Trace → List ℕ
open_fds = foldl track []

-- What a call appended to the trace does to the open descriptors.
pub open_fds-append : (t : Trace) (c : Call) → open_fds (t ++ (c ∷ [])) ≡ track (open_fds t) c
open_fds-append t c = rw foldl-append

drop_fd_top : (fd : ℕ) (fds : List ℕ) → drop_fd fd (fd ∷ fds) ≡ fds
drop_fd_top fd fds = ground arith

-- Closing the file that was opened last.
pub open_fds-close :
    (t : Trace) (fd : ℕ) (fds : List ℕ)
    → open_fds t ≡ fd ∷ fds
    → open_fds (t ++ (close fd ∷ [])) ≡ fds
open_fds-close t fd fds h = rw open_fds-append (rw h (drop_fd_top fd fds))

-- The open file is closed, whatever the calls return.
write_open_file-open_fds :
    (os : Os) (text : Bytes) (mode fd : ℕ) (fds : List ℕ) (w : World)
    → open_fds w.trace ≡ fd ∷ fds
    → open_fds (write_open_file os text mode fd w).1.trace ≡ fds
unfolding write_open_file
write_open_file-open_fds os text mode fd fds w h = simp (open_fds-append, h) (drop_fd_top fd fds)

-- The world after an `open`, by its answer.
abbrev pub opened : Bytes → List Flag → Option ℕ → World → World
opened path flags fd w = record w { trace = w.trace ++ (open_file path flags fd ∷ []) }

pub write_file-open_fds :
    (os : Os) (text path : Bytes) (flags : List Flag) (mode : ℕ) (w : World)
    → open_fds (write_file os text path flags mode w).1.trace ≡ open_fds w.trace
unfolding write_file
write_file-open_fds os text path flags mode w =
    elim (Option-cases (os.open_fd w.trace path flags)) [
      | inl e ↦ rw (e, ◌>>=◌) (rw open_fds-append)
      | inr (fd, e) ↦
          rw (e, ◌>>=◌)
            (write_open_file-open_fds os text mode fd (open_fds w.trace)
              (opened path flags (some fd) w) (rw open_fds-append))
    ]

pub make_dir-open_fds :
    (os : Os) (path : Bytes) (mode : ℕ) (w : World)
    → open_fds (make_dir os path mode w).1.trace ≡ open_fds w.trace
unfolding make_dir
make_dir-open_fds os path mode w = elim (Option-cases (os.stat_of w.trace path)) [
  | inl e ↦ rw (e, ◌>>=◌) (simp open_fds-append)
  | inr (st, e) ↦ rw (e, ◌>>=◌) (rw open_fds-append)
]

copy_open_files-open_fds :
    (os : Os) (src dest : ℕ) (st : Stat) (w : World)
    → open_fds (copy_open_files os src dest st w).1.trace ≡ open_fds w.trace
unfolding copy_open_files
copy_open_files-open_fds os src dest st w =
    elim (Bool-cases (os.sendfile_done w.trace dest src st.size)) [
      | inl e ↦ rw (e, ◌>>=◌) (simp open_fds-append)
      | inr e ↦ rw (e, ◌>>=◌) (simp open_fds-append)
    ]

copy_into-open_fds :
    (os : Os) (src : ℕ) (dest : Bytes) (st : Stat) (w : World)
    → open_fds (copy_into os src dest st w).1.trace ≡ open_fds w.trace
unfolding copy_into
copy_into-open_fds os src dest st w =
    let flags = o_wronly ∷ o_creat ∷ o_trunc ∷ [] in
    elim (Option-cases (os.open_fd w.trace dest flags)) [
      | inl e ↦ rw (e, ◌>>=◌) (rw open_fds-append)
      | inr (fd, e) ↦
          let w' = opened dest flags (some fd) w in
          rw (e, ◌>>=◌)
            (open_fds-close (copy_open_files os src fd st w').1.trace fd (open_fds w.trace)
              (copy_open_files-open_fds os src fd st w' ∙ open_fds-append w.trace _))
    ]

copy_to-open_fds :
    (os : Os) (src : ℕ) (dest : Bytes) (found : Option Stat) (w : World)
    → open_fds (copy_to os src dest found w).1.trace ≡ open_fds w.trace
unfolding copy_to
copy_to-open_fds os src dest none w = refl
copy_to-open_fds os src dest (some st) w =
    let dir = os.dirname (clip path_max dest) in
    let (made, w') = make_dir os dir st.mode w in
    elim (Bool-cases made) [
      | inl e ↦
          rw (e, ◌>>=◌) (copy_into-open_fds os src dest st w' ∙ make_dir-open_fds os dir st.mode w)
      | inr e ↦ rw (e, ◌>>=◌) (make_dir-open_fds os dir st.mode w)
    ]

-- Whatever fails on the way, `copy_file` leaves the same descriptors open as before.
pub copy_file-open_fds :
    (os : Os) (src dest : Bytes) (w : World)
    → open_fds (copy_file os src dest w).1.trace ≡ open_fds w.trace
unfolding copy_file
copy_file-open_fds os src dest w = elim (Option-cases (os.open_fd w.trace src (o_rdonly ∷ []))) [
  | inl e ↦ rw (e, ◌>>=◌) (rw open_fds-append)
  | inr (fd, e) ↦
      let w' = opened src (o_rdonly ∷ []) (some fd) w in
      let found = os.fstat_of w'.trace fd in
      let w'' = record w' { trace = w'.trace ++ (fstat fd ∷ []) } in
      rw (e, ◌>>=◌)
        (open_fds-close (copy_to os fd dest found w'').1.trace fd (open_fds w.trace) (
          copy_to-open_fds os fd dest found w''
          ∙ open_fds-append w'.trace (fstat fd)
          ∙ open_fds-append w.trace _))
]
