-- ===== src/Disk/Search.antt =====
-- Which partition `get_rootfs_partition` of src/disk.c finds.
use micro_config_drive.Base.{
  ℕ, zero, suc, ◌+◌, ◌≤◌, ◌<◌, Bytes, str, Option, none, some, [], ◌∷◌, ◌++◌, Bool, true, false,
  ◌≡◌, ◌⊎◌, inl, inr, refl, ◌∙◌, ap, arith, Bool-cases, ◌==◌,
}
use micro_config_drive.System.{
  Os, Trace, parted, get_partition, partition_get_path, last_partition_num,
}
use micro_config_drive.System.Io.{World}
use micro_config_drive.Disk.{Blocks, blk_device_by_path}
use micro_config_drive.Disk.Exceptions.{Parts, Partition}
use micro_config_drive.Disk.Rootfs.{find_rootfs, rootfs_of, get_rootfs_partition, is_rootfs}

-- The partition of the first of the numbers from `i` on, below `end`, whose path begins with `rootfs`.
abbrev pub IsFirst :
    (ℕ → Option Partition) → (ℕ → Option Bytes) → Bytes → ℕ → ℕ → Option Partition → Type 0
IsFirst parts paths rootfs i end r =
    (j : ℕ) × (i ≤ j)
    × (j < end)
    × (is_rootfs rootfs (paths j) ≡ true)
    × ((k : ℕ) → i ≤ k → k < j → is_rootfs rootfs (paths k) ≡ false)
    × (r ≡ parts j)

-- No path begins so.
abbrev pub NoneMatches : (ℕ → Option Bytes) → Bytes → ℕ → ℕ → Type 0
NoneMatches paths rootfs i end = (k : ℕ) → i ≤ k → k < end → is_rootfs rootfs (paths k) ≡ false

-- Every number has a partition.
abbrev pub AllThere : (ℕ → Option Partition) → ℕ → ℕ → Type 0
AllThere parts i end = (k : ℕ) → i ≤ k → k < end → (q : Partition) × (parts k ≡ some q)

-- The partition of the last number looked at.
abbrev pub last_looked : (ℕ → Option Partition) → ℕ → ℕ → Option Partition → Option Partition
last_looked parts zero i part = part
last_looked parts (suc left) i part = parts (i + left)

-- A number that is not below `i` is `i`, or is not below the next one.
from_next :
    (i k : ℕ) (test : ℕ → Bool)
    → test i ≡ false
    → i ≤ k
    → (i + 1 ≤ k → test k ≡ false)
    → test k ≡ false
from_next i k test e a f = elim (Bool-cases (i == k)) [
  | inl same ↦ ap test (let eq : k ≡ i = ground arith in eq) ∙ e
  | inr other ↦ f (ground arith)
]

last_looked_next :
    (parts : ℕ → Option Partition) (left i : ℕ)
    → last_looked parts left (i + 1) (parts i) ≡ parts (i + left)
last_looked_next parts zero i = ap parts (omega arith)
last_looked_next parts (suc left) i = ap parts (omega arith)

module _ (p : Parts) (parts : ℕ → Option Partition) (paths : ℕ → Option Bytes)
    (same_parts : (t : Trace) (i : ℕ) → p.partition t i ≡ parts i)
    (same_paths : (t : Trace) (i : ℕ) → p.partition_path t i ≡ paths i) (rootfs : Bytes) where
  first_hits :
      (left i : ℕ) (part : Option Partition) (w : World)
      → (q : Partition) × (parts i ≡ some q)
      → is_rootfs rootfs (paths i) ≡ true
      → (find_rootfs p rootfs (suc left) i part w).0 ≡ parts i
  unfolding find_rootfs
  first_hits left i part w (q, there) e =
      let v = record w { trace = w.trace ++ (parted (get_partition i) ∷ []) } in
      rw (find_rootfs, same_parts w.trace i, there, same_paths v.trace i, e) refl

  -- The world behind the calls of a round.
  abbrev looked : ℕ → World → World
  looked i w =
      let v = record w { trace = w.trace ++ (parted (get_partition i) ∷ []) } in
      record v { trace = v.trace ++ (parted (partition_get_path i) ∷ []) }

  first_misses :
      (left i : ℕ) (part : Option Partition) (w : World)
      → (q : Partition) × (parts i ≡ some q)
      → is_rootfs rootfs (paths i) ≡ false
      → (find_rootfs p rootfs (suc left) i part w).0
        ≡ (find_rootfs p rootfs left (i + 1) (parts i) (looked i w)).0
  unfolding find_rootfs
  first_misses left i part w (q, there) e =
      let v = record w { trace = w.trace ++ (parted (get_partition i) ∷ []) } in
      rw (find_rootfs, same_parts w.trace i, there, same_paths v.trace i, e) refl

  find_rootfs_cases :
      (left i : ℕ) (part : Option Partition) (w : World)
      → AllThere parts i (i + left)
      → let r = (find_rootfs p rootfs left i part w).0 in
        IsFirst parts paths rootfs i (i + left) r
        ⊎ (NoneMatches paths rootfs i (i + left) × (r ≡ last_looked parts left i part))
  unfolding find_rootfs
  find_rootfs_cases zero i part w all = inr (λ k a b. absurd (omega arith), refl)
  find_rootfs_cases (suc left) i part w all = elim (Bool-cases (is_rootfs rootfs (paths i))) [
    | inl e ↦ inl (
      i,
      omega arith,
      omega arith,
      e,
      λ k a b. absurd (omega arith),
      first_hits left i part w (all i (omega arith) (omega arith)) e,
    )
    | inr e ↦
        elim (find_rootfs_cases left (i + 1) (parts i) (looked i w)
          (λ k a b. all k (omega arith) (omega arith))) [
            | inl (j, low, high, hit, before, found) ↦ inl (
              j,
              omega arith,
              omega arith,
              hit,
              λ k a b. from_next i k (λ n. is_rootfs rootfs (paths n)) e a (λ a'. before k a' b),
              first_misses left i part w (all i (omega arith) (omega arith)) e ∙ found,
            )
            | inr (none_matches, last) ↦ inr (
              λ k a b.
                  from_next i k (λ n. is_rootfs rootfs (paths n)) e a
                    (λ a'. none_matches k a' (omega arith)),
              first_misses left i part w (all i (omega arith) (omega arith)) e
                  ∙ last
                  ∙ last_looked_next parts left i,
            )
          ]
  ]

  rootfs_searched :
      (os : Os) (b : Blocks) (w : World) (last : ℕ)
      → ((t : Trace) → p.last_num t ≡ suc last)
      → (blk_device_by_path os b (str "/") w).0 ≡ some rootfs
      → let u = (blk_device_by_path os b (str "/") w).1 in
        let v = record u { trace = u.trace ++ (parted last_partition_num ∷ []) } in
        (get_rootfs_partition os b p w).0 ≡ (find_rootfs p rootfs (suc last) 1 none v).0
  unfolding get_rootfs_partition rootfs_of
  rootfs_searched os b w last numbered known =
      let u = (blk_device_by_path os b (str "/") w).1 in
      rw (known, rootfs_of, numbered u.trace) refl

  -- `get_rootfs_partition` on a disk with a partition for every number up to the last one, that stay as they are
  -- while it looks: it returns the first
  -- partition whose path begins with the name of the root file system's device. If there is none, it
  -- does not report so: it returns the last partition of the disk.
  pub get_rootfs_partition_cases :
      (os : Os) (b : Blocks) (w : World) (last : ℕ)
      → ((t : Trace) → p.last_num t ≡ suc last)
      → (blk_device_by_path os b (str "/") w).0 ≡ some rootfs
      → AllThere parts 1 (1 + suc last)
      → let r = (get_rootfs_partition os b p w).0 in
        IsFirst parts paths rootfs 1 ((1 + suc last)) r
        ⊎ (NoneMatches paths rootfs 1 ((1 + suc last)) × (r ≡ parts (suc last)))
  get_rootfs_partition_cases os b w last numbered known all =
      let u = (blk_device_by_path os b (str "/") w).1 in
      let v = record u { trace = u.trace ++ (parted last_partition_num ∷ []) } in
      rw (rootfs_searched os b w last numbered known)
        (elim (find_rootfs_cases (suc last) 1 none v all) [
          | inl first ↦ inl first
          | inr (none_matches, looked_at) ↦ inr (none_matches, looked_at ∙ ap parts (omega arith))
        ])
