-- ===== src/Boot/Ids.antt =====
-- What the boot helpers of src/lib.c decide: the id of this boot, and whether it is the first one.
use micro_config_drive.Base.{
  ℕ, Bytes, str_eq, str_eq_iff, clip, take, none, some, [], ◌∷◌, ◌++◌, true, ◌≡◌, ◌≢◌, ◌↔◌, ◌⊎◌,
  inl, inr, refl, ◌∙◌, arith, Option-cases, Bool-cases,
}
use micro_config_drive.System.{Os, Trace, stat, read_file, remove}
use micro_config_drive.System.Io.{World, FirstBoot, ◌>>=◌}
use micro_config_drive.Files.{write_file, write_open_file, create_new, mode_600}
use micro_config_drive.Boot.{
  kernel_boot_id_file, first_boot_id_file, instance_id_file, get_boot_id, save_instance_id,
  compare_boot_id, mark_first_boot, is_first_boot,
}

-- The first call in a process, with a boot id that is not empty, returns the whole id. A later call, in any world
-- in which `cache_boot_id` is still what the first one left there, makes no system call, changes nothing, and
-- returns the first 31 bytes.
pub get_boot_id_twice :
    (os : Os) (w v : World) (c : ℕ) (cs : Bytes)
    → w.cache_boot_id ≡ []
    → os.contents w.trace kernel_boot_id_file ≡ some (c ∷ cs)
    → v.cache_boot_id ≡ (get_boot_id os w).1.cache_boot_id
    → ((get_boot_id os w).0 ≡ some (c ∷ cs)) × (get_boot_id os v ≡ (some (take 31 (c ∷ cs)), v))
unfolding get_boot_id clip
get_boot_id_twice os w v c cs empty read kept = ground arith

pub get_boot_id-firstboot :
    (os : Os) (w : World) → (get_boot_id os w).1.cache_firstboot ≡ w.cache_firstboot
unfolding get_boot_id
get_boot_id-firstboot os w = ground arith

write_file-firstboot :
    (os : Os) (text path : Bytes) (w : World)
    → (write_file os text path create_new mode_600 w).1.cache_firstboot ≡ w.cache_firstboot
unfolding write_file write_open_file
write_file-firstboot os text path w = ground arith

mark_first_boot-firstboot :
    (os : Os) (w : World) → (mark_first_boot os w).1.cache_firstboot ≡ FirstBoot.first
unfolding mark_first_boot
mark_first_boot-firstboot os w =
    let v = record w { cache_firstboot = FirstBoot.first } in
    let (id, v') = get_boot_id os v in
    elim (Option-cases id) [
      | inl e ↦ rw (e, ◌>>=◌) (get_boot_id-firstboot os v)
      | inr (b, e) ↦
          rw (e, ◌>>=◌)
            (write_file-firstboot os b (first_boot_id_file os) v' ∙ get_boot_id-firstboot os v)
    ]

-- The world after calls that change no variable.
abbrev pub after : World → Trace → World
after w calls = record w { trace = w.trace ++ calls }

-- The id of this boot is the one that marks the first boot, as the comparison reads both.
abbrev pub SameBoot : Os → World → Type 0
SameBoot os w =
    let mark = first_boot_id_file os in
    (id : Bytes) × (os.contents w.trace mark ≡ some id)
    × ((get_boot_id os (after w (read_file mark ∷ []))).0 ≡ some id)

compare_boot_id_iff :
    (os : Os) (w : World)
    → w.cache_firstboot ≡ FirstBoot.unset
    → ((compare_boot_id os w).1.cache_firstboot ≡ FirstBoot.first) ↔ SameBoot os w
unfolding compare_boot_id
compare_boot_id_iff os w h =
    let mark = first_boot_id_file os in
    let (id, w') = get_boot_id os (after w (read_file mark ∷ [])) in
    elim (Option-cases (os.contents w.trace mark)) [
      | inl e ↦ (λ p. absurd (ground arith), λ q. absurd (ground arith))
      | inr (a, e) ↦ elim (Option-cases id) [
        | inl f ↦ (λ p. absurd (ground arith), λ q. absurd (ground arith))
        | inr (b, f) ↦
            (λ p. (a, e, ground (arith, str_eq_iff a b)), λ q. ground (arith, str_eq_iff a b))
      ]
    ]

FirstBoot-cases :
    (c : FirstBoot) → (c ≡ FirstBoot.unset) ⊎ ((c ≡ FirstBoot.first) ⊎ (c ≡ FirstBoot.no_boot))
FirstBoot-cases FirstBoot.unset = inl refl
FirstBoot-cases FirstBoot.first = inr (inl refl)
FirstBoot-cases FirstBoot.no_boot = inr (inr refl)

third : {A B C : Type 0} → A ⊎ (B ⊎ C) → ¬ A → ¬ B → C
third (inl a) na nb = absurd (na a)
third (inr (inl b)) na nb = absurd (nb b)
third (inr (inr c)) na nb = c

-- `is_first_boot` answers true exactly when there is no mark yet, or an earlier call in this process
-- found it to be the first boot, or nothing is cached and the mark holds the id of this boot.
pub is_first_boot_iff :
    (os : Os) (w : World)
    → let mark = first_boot_id_file os in
      ((is_first_boot os w).0 ≡ true) ↔ (
        (os.stat_of w.trace mark ≡ none)
        ⊎ ((w.cache_firstboot ≡ FirstBoot.first)
            ⊎ ((w.cache_firstboot ≡ FirstBoot.unset) × SameBoot os (after w (stat mark ∷ [])))))
unfolding is_first_boot
is_first_boot_iff os w =
    let mark = first_boot_id_file os in
    let v = after w (stat mark ∷ []) in
    elim (Option-cases (os.stat_of w.trace mark)) [
      | inl e ↦ (λ p. inl e, λ q. ground (arith, mark_first_boot-firstboot os v))
      | inr (st, e) ↦ elim (FirstBoot-cases w.cache_firstboot) [
        | inl unset ↦ (
          λ p. inr (inr (unset, (compare_boot_id_iff os v unset).0 (ground arith))),
          λ q.
              let same = third q (λ n. cc) (λ f. cc) in
              ground (arith, (compare_boot_id_iff os v unset).1 same.1),
        )
        | inr set ↦ (λ p. ground arith, λ q. ground arith)
      ]
    ]

-- A saved instance id, by what `instance-id` held before: nothing (the id is written), this id (nothing
-- is written), or another id, which is overwritten, and then the mark of the first boot is removed.
pub save_instance_id_cases :
    (os : Os) (id : Bytes) (w : World)
    → (save_instance_id os id w).0 ≡ true
    → let path = instance_id_file os in
      let v = after w (stat path ∷ []) in
      let u = after v (read_file path ∷ []) in
      ((os.stat_of w.trace path ≡ none)
        × ((save_instance_id os id w).1 ≡ (write_file os id path create_new mode_600 v).1))
      ⊎ ((os.contents v.trace path ≡ some id) × ((save_instance_id os id w).1 ≡ u)
          ⊎ ((last : Bytes) × (os.contents v.trace path ≡ some last)
              × (last ≢ id)
              × ((save_instance_id os id w).1
                  ≡ after
                      (write_file os id path create_new mode_600 u).1
                      (remove (first_boot_id_file os) ∷ []))))
unfolding save_instance_id
save_instance_id_cases os id w h =
    let path = instance_id_file os in
    let v = after w (stat path ∷ []) in
    elim (Option-cases (os.stat_of w.trace path)) [
      | inl e ↦ inl (e, ground arith)
      | inr (st, e) ↦ elim (Option-cases (os.contents v.trace path)) [
        | inl f ↦ absurd (ground arith)
        | inr (last, f) ↦ elim (Bool-cases (str_eq id last)) [
          | inl same ↦ inr (inl (ground (arith, str_eq_iff id last), ground arith))
          | inr other ↦ inr (inr (last, f, ground (arith, str_eq_iff id last), ground arith))
        ]
      ]
    ]
