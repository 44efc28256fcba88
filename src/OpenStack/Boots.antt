-- ===== src/OpenStack/Boots.antt =====
-- What the marks of src/datasources/openstack.c do for another process of the same boot.
use micro_config_drive.Base.{
  ℕ, Bytes, str_eq_iff, append_assoc, clip, Option, some, [], ◌∷◌, ◌++◌, true, false, ◌≡◌, refl,
  ◌∙◌, ap, arith,
}
use micro_config_drive.System.{Os, Trace, Stat, stat, read_file}
use micro_config_drive.System.Io.{World, FirstBoot}
use micro_config_drive.Files.{write_file, write_open_file}
use micro_config_drive.Boot.{
  kernel_boot_id_file, first_boot_id_file, get_boot_id, compare_boot_id, mark_first_boot,
  is_first_boot, boot_id_size,
}
use micro_config_drive.OpenStack.{Host, metadata_id_file}
use micro_config_drive.OpenStack.Process.{
  same_boot, read_mark, marked, metadata_unless, metadata_uncached, openstack_process_metadata,
}

-- A process that has not asked which boot this is, in a boot with an id that can be read, as the mark of the
-- first boot can.
pub record Begins (os : Os) (id : Bytes) (w : World) : Type 0 where
  pub unset : w.cache_firstboot ≡ FirstBoot.unset
  pub unread : w.cache_boot_id ≡ []
  pub reads : (t : Trace) → os.contents t kernel_boot_id_file ≡ some id
  pub marks : (t : Trace) → (b : Bytes) × (os.contents t (first_boot_id_file os) ≡ some b)

get_boot_id-cached :
    (os : Os) (c : ℕ) (cs : Bytes) (w : World)
    → w.cache_boot_id ≡ []
    → os.contents w.trace kernel_boot_id_file ≡ some (c ∷ cs)
    → (get_boot_id os w).1.cache_boot_id ≡ clip boot_id_size (c ∷ cs)
unfolding get_boot_id
get_boot_id-cached os c cs w e r = ground arith

is_first_boot-cached :
    (os : Os) (c : ℕ) (cs : Bytes) (w : World)
    → Begins os (c ∷ cs) w
    → (is_first_boot os w).1.cache_boot_id ≡ clip boot_id_size (c ∷ cs)
unfolding is_first_boot mark_first_boot compare_boot_id get_boot_id write_file write_open_file
is_first_boot-cached os c cs w p =
    let path = first_boot_id_file os in
    let t = w.trace ++ (stat path ∷ []) in
    let mark = p.marks t in
    ground (arith, p.reads t, p.reads (t ++ (read_file path ∷ [])), mark.1, p.unread, p.unset)

-- From then on the id is cut off at 31 bytes.
get_boot_id-clipped :
    (os : Os) (c : ℕ) (cs : Bytes) (w : World)
    → w.cache_boot_id ≡ clip boot_id_size (c ∷ cs)
    → get_boot_id os w ≡ (some (clip boot_id_size (c ∷ cs)), w)
unfolding get_boot_id clip
get_boot_id-clipped os c cs w e = ground arith

-- The id of the file is compared with that of the boot.
same_boot-true :
    (h : Host) (id : Bytes) (w : World)
    → get_boot_id h.os w ≡ (some id, w)
    → same_boot h (some id) w ≡ (true, w)
unfolding same_boot
same_boot-true h id w e = rw (same_boot, e, (str_eq_iff id id).1 refl) refl

marked-true :
    (h : Host) (path id : Bytes) (st : Stat) (w : World)
    → let v = record w { trace = w.trace ++ (stat path ∷ (read_file path ∷ [])) } in
      ((t : Trace) → h.os.stat_of t path ≡ some st)
      → ((t : Trace) → h.os.contents t path ≡ some id)
      → get_boot_id h.os v ≡ (some id, v)
      → marked h path w ≡ (true, v)
unfolding marked read_mark
marked-true h path id st w found holds e =
    let t = w.trace ++ (stat path ∷ []) in
    rw (found w.trace, read_mark, holds t, append_assoc) (same_boot-true h id _ e)

-- Two processes of the same boot, each behind `is_first_boot`, on a machine where the boot id and the mark of the
-- first boot can be read throughout (so not the process that makes that mark), and the second without the mark in its memory:
-- if for the second the file `openstack_metadata_id` holds the boot id that `get_boot_id` gives the
-- first, then `openstack_process_metadata` returns true there. It looks at the file and reads it, hands no
-- function to the pool, and sets its mark.
pub openstack_process_metadata_again :
    (h h' : Host) (c : ℕ) (cs : Bytes) (w w' : World) (st : Stat)
    → Begins h.os (c ∷ cs) w
    → Begins h'.os (c ∷ cs) w'
    → let path = metadata_id_file h'.os in
      let u = (is_first_boot h.os w).1 in
      let v = (is_first_boot h'.os w').1 in
      ((t : Trace) → h'.os.stat_of t path ≡ some st)
      → ((t : Trace) → h'.os.contents t path ≡ (get_boot_id h.os u).0)
      → v.drive.cache_metadata_id ≡ false
      → openstack_process_metadata h' v ≡ (
        true,
        record v {
          drive = record v.drive { cache_metadata_id = true };
          trace = v.trace ++ (stat path ∷ (read_file path ∷ []));
        },
      )
unfolding openstack_process_metadata metadata_uncached metadata_unless
openstack_process_metadata_again h h' c cs w w' st p p' found holds fresh =
    let path = metadata_id_file h'.os in
    let id = clip boot_id_size (c ∷ cs) in
    let u = (is_first_boot h.os w).1 in
    let v = (is_first_boot h'.os w').1 in
    let first =
      ap (λ (r : Option Bytes × World). r.0)
        (get_boot_id-clipped h.os c cs u (is_first_boot-cached h.os c cs w p)) in
    let read = record v { trace = v.trace ++ (stat path ∷ (read_file path ∷ [])) } in
    let second = get_boot_id-clipped h'.os c cs read (is_first_boot-cached h'.os c cs w' p') in
    rw (fresh, metadata_uncached, marked-true h' path id st v found (λ t. holds t ∙ first) second)
      refl
