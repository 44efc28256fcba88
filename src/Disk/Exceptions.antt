-- ===== src/Disk/Exceptions.antt =====
-- What src/disk.c learns from libparted, and its handler for the exceptions of that library.
use micro_config_drive.Base.{
  ℕ, Bytes, str, starts_with, Option, List, [], ◌∷◌, Bool, true, ◌&&◌, if◌then◌else◌,
}
use micro_config_drive.System.{Trace}

-- What the code reads of a `PedPartition`: its number, its first and last sector, and whether its type is
-- `PED_PARTITION_FREESPACE`.
pub record Partition : Type 0 where
  pub num : ℕ
  pub first : ℕ
  pub last : ℕ
  pub is_freespace : Bool

-- What it reads of a `PedDevice`.
pub record Device : Type 0 where
  pub sector_size : ℕ
  pub size : ℕ

-- What it reads of a `PedException`.
pub record Exception : Type 0 where
  pub message : Bytes
  pub is_warning : Bool
  pub can_fix : Bool

-- `PedExceptionOption`, of which the handler gives two.
pub data Handling : Type 0 where
  fix unhandled : Handling

-- The answers of libparted. `disk_new` raises exceptions, and goes on by what the handler says. The last
-- number is 0 where libparted answers -1; no partition has either number.
pub record Parts : Type 0 where
  pub resizefs_path : Bytes
  pub device : Trace → Bytes → Option Device
  pub exceptions : Trace → List Exception
  pub disk_made : Trace → List Handling → Bool
  pub last_num : Trace → ℕ
  pub partition : Trace → ℕ → Option Partition
  pub partition_path : Trace → ℕ → Option Bytes
  pub by_sector : Trace → ℕ → Option Partition
  pub geometry_made : Trace → ℕ → Bool
  pub constraint_made : Trace → Bool
  pub maximized : Trace → ℕ → Bool
  pub geom_set : Trace → ℕ → ℕ → Bool
  pub committed : Trace → Bool

-- The handler's answer, and `resize_fs` behind it.
unfoldable pub disk_exception_handler : Exception → Bool → Handling × Bool
disk_exception_handler ex resize_fs =
    if starts_with ex.message (str "Not all of the space available")
    then (if ex.is_warning && ex.can_fix then (fix, true) else (unhandled, resize_fs))
    else (unhandled, resize_fs)

-- The exceptions that one call of libparted raises, one after the other.
unfoldable pub handle_all : List Exception → Bool → List Handling × Bool
unfolding disk_exception_handler
handle_all [] resize_fs = ([], resize_fs)
handle_all (ex ∷ exs) resize_fs =
    let (handling, resize_fs') = disk_exception_handler ex resize_fs in
    let (handlings, resize_fs'') = handle_all exs resize_fs' in (handling ∷ handlings, resize_fs'')
