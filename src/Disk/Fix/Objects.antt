-- ===== src/Disk/Fix/Objects.antt =====
-- The objects of libparted that src/disk.c makes and gives back, and the sector where `disk_fix` ends a
-- partition.
use mathlib.Core.List.{foldl, foldl-append}
use micro_config_drive.Base.{
  ℕ, suc, ◌+◌, ◌-◌, ◌/◌, ◌≤◌, ◌<◌, ◌^◌, Bytes, Option, none, some, List, [], ◌∷◌, ◌++◌, Bool, true,
  false, ◌≡◌, refl, ◌∙◌, ap, arith, inl, inr, Bool-cases,
}
use micro_config_drive.System.{
  crash, Os, Call, Trace, stat, blkid, devno_to_devname, last_partition_num, get_partition,
  partition_get_path, parted, geometry_new, constraint_new, constraint_destroy, geometry_destroy,
}
use micro_config_drive.System.Io.{World, Io, ◌>>=◌, call}
use micro_config_drive.System.Views.{Keeps, Keeps-pure, Keeps-bind, Keeps-seq, Keeps-if}
use micro_config_drive.Disk.{Blocks}
use micro_config_drive.Disk.Lookups.{
  KeptByLookups, blk_device_by_path-Keeps, get_rootfs_partition-Keeps,
}
use micro_config_drive.Disk.Exceptions.{Parts, Partition, Device, Exception}
use micro_config_drive.Disk.Rootfs.{
  async_task_exec, with_object, resize_known, maximize, constrain, grow_to, grow_into, resize_found,
  resize_rootfs_blk_device,
}
use micro_config_drive.Disk.Fix.{
  end_sector, disk_raised, resize_partition, set_geometry, fix_constrained, fix_last, fix_opened,
  fix_device, disk_fix,
}

-- The geometries and the constraints that are there.
abbrev pub count_object : ℕ × ℕ → Call → ℕ × ℕ
count_object (g, c) (parted (geometry_new end true)) = (suc g, c)
count_object (g, c) (parted (constraint_new first end true)) = (g, suc c)
count_object (g, c) (parted geometry_destroy) = (g - 1, c)
count_object (g, c) (parted constraint_destroy) = (g, c - 1)
count_object n _ = n

abbrev pub objects : World → ℕ × ℕ
objects w = foldl count_object (0, 0) w.trace

objects-call :
    {A : Type 0} (c : Call) (answer : Trace → A)
    → ((n : ℕ × ℕ) → count_object n c ≡ n)
    → Keeps objects (call c answer)
objects-call c answer h = record { same = λ w. rw foldl-append (h (objects w)) }

ruleset object_rules = (Keeps-pure, Keeps-bind, Keeps-seq, Keeps-if, objects-call)

lookups-objects : KeptByLookups objects
lookups-objects = record {
  by_stat = λ path answer. objects-call (stat path) answer (λ n. refl);
  by_name = λ n answer. objects-call (blkid (devno_to_devname n)) answer (λ m. refl);
  by_last = λ answer. objects-call (parted last_partition_num) answer (λ n. refl);
  by_partition = λ i answer. objects-call (parted (get_partition i)) answer (λ n. refl);
  by_path = λ i answer. objects-call (parted (partition_get_path i)) answer (λ n. refl);
  by_crash = objects-call crash (λ t. tt) (λ n. refl);
}

resize_known-objects :
    (os : Os) (p : Parts) (path : Option Bytes) → Keeps objects (resize_known os p path)
unfolding resize_known async_task_exec
resize_known-objects os p none = Keeps-pure false
resize_known-objects os p (some path) = search object_rules

maximize-objects :
    (os : Os) (b : Blocks) (p : Parts) (part : Partition) → Keeps objects (maximize os b p part)
unfolding maximize
maximize-objects os b p part =
    search (object_rules, blk_device_by_path-Keeps lookups-objects, resize_known-objects) depth 14

with_object-objects :
    (new : Bool → Call) (destroy : Call) (answer : Trace → Bool) (body : Io Bool)
    → ((n : ℕ × ℕ) → count_object n (new false) ≡ n)
    → ((n : ℕ × ℕ) → count_object (count_object n (new true)) destroy ≡ n)
    → Keeps objects body
    → Keeps objects (with_object new destroy answer body)
with_object-objects new destroy answer body fails undone kept = record {
  same = λ w. elim (Bool-cases (answer w.trace)) [
    | inl e ↦
        rw (e, ◌>>=◌)
          (let v = record w { trace = w.trace ++ (new true ∷ []) } in
            rw foldl-append (
              ap (λ (n : ℕ × ℕ). count_object n destroy) (kept.same v ∙ (rw foldl-append))
              ∙ undone (objects w)))
    | inr e ↦ rw (e, ◌>>=◌) (rw foldl-append (fails (objects w)))
  ];
}

constraint-objects :
    (p : Parts) (first end : ℕ) (body : Io Bool)
    → Keeps objects body
    → Keeps objects (
        with_object
          (λ made. parted (constraint_new first end made))
          (parted constraint_destroy)
          p.constraint_made
          body)
constraint-objects p first end body =
    with_object-objects (λ made. parted (constraint_new first end made)) (parted constraint_destroy)
      p.constraint_made body (λ n. refl) (λ n. ground arith)

geometry-objects :
    (p : Parts) (end : ℕ) (body : Io Bool)
    → Keeps objects body
    → Keeps objects (
        with_object
          (λ made. parted (geometry_new end made))
          (parted geometry_destroy)
          (λ t. p.geometry_made t end)
          body)
geometry-objects p end body =
    with_object-objects (λ made. parted (geometry_new end made)) (parted geometry_destroy)
      (λ t. p.geometry_made t end) body (λ n. refl) (λ n. ground arith)

module _ (os : Os) (b : Blocks) (p : Parts) where
  grow_to-objects : (part : Partition) (end : ℕ) → Keeps objects (grow_to os b p part end)
  unfolding grow_to constrain
  grow_to-objects part end =
      geometry-objects p end _
        (constraint-objects p part.first end _ (maximize-objects os b p part))

  grow_into-objects :
      (part : Partition) (next : Option Partition) → Keeps objects (grow_into os b p part next)
  unfolding grow_into
  grow_into-objects part none = Keeps-pure false
  grow_into-objects part (some next) = search (object_rules, grow_to-objects)

  resize_found-objects : (part : Option Partition) → Keeps objects (resize_found os b p part)
  unfolding resize_found
  resize_found-objects none = Keeps-pure false
  resize_found-objects (some part) = search (object_rules, grow_into-objects) depth 12

  resize_rootfs-objects : Keeps objects (resize_rootfs_blk_device os b p)
  unfolding resize_rootfs_blk_device
  resize_rootfs-objects =
      Keeps-bind _ _ (get_rootfs_partition-Keeps lookups-objects os b p) resize_found-objects

  resize_partition-objects : (path : Option Bytes) → Keeps objects (resize_partition os p path)
  unfolding resize_partition async_task_exec
  resize_partition-objects none = Keeps-pure false
  resize_partition-objects (some path) = search object_rules

  set_geometry-objects : (part : Partition) (end : ℕ) → Keeps objects (set_geometry os p part end)
  unfolding set_geometry
  set_geometry-objects part end = search (object_rules, resize_partition-objects) depth 14

  fix_last-objects :
      (dev : Device) (part : Option Partition) → Keeps objects (fix_last os p dev part)
  unfolding fix_last fix_constrained
  fix_last-objects dev none = Keeps-pure false
  fix_last-objects dev (some part) =
      let end = end_sector dev in
      geometry-objects p end _
        (constraint-objects p part.first end _ (set_geometry-objects part end))

  fix_opened-objects :
      (dev : Device) (resize_fs : Bool) → Keeps objects (fix_opened os b p dev resize_fs)
  unfolding fix_opened
  fix_opened-objects dev false = resize_rootfs-objects
  fix_opened-objects dev true = search (object_rules, fix_last-objects) depth 12

  disk_raised-objects :
      (dev : Device) (raised : List Exception) → Keeps objects (disk_raised os b p dev raised)
  unfolding disk_raised
  disk_raised-objects dev raised = search (object_rules, fix_opened-objects) depth 12

  fix_device-objects : (dev : Option Device) → Keeps objects (fix_device os b p dev)
  unfolding fix_device
  fix_device-objects none = Keeps-pure false
  fix_device-objects (some dev) =
      Keeps-bind (λ w. (p.exceptions w.trace, w)) (disk_raised os b p dev)
        (record { same = λ w. refl }) (disk_raised-objects dev)

  -- Whatever fails on the way, `disk_fix` has given back every geometry and every constraint that it made.
  pub disk_fix-objects :
      (disk_path : Bytes) (w : World) → objects (disk_fix os b p disk_path w).1 ≡ objects w
  unfolding disk_fix
  disk_fix-objects disk_path w =
      let fixed : Keeps objects (disk_fix os b p disk_path) =
        search (object_rules, fix_device-objects) depth 12 in
      fixed.same w

-- The end of the enlarged partition is one mebibyte before the end of the device. On a device that is
-- smaller than that it is a negative sector.
pub end_sector_cases :
    (dev : Device)
    → dev.size < 2 ^ 63
    → let mebibyte = 1048576 / dev.sector_size in
      (mebibyte ≤ dev.size → end_sector dev + mebibyte ≡ dev.size)
      × (dev.size < mebibyte → end_sector dev + (mebibyte - dev.size) ≡ 2 ^ 64)
unfolding end_sector
end_sector_cases dev h = (λ a. ground arith, λ a. ground arith)
