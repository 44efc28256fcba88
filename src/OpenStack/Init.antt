-- ===== src/OpenStack/Init.antt =====
-- How long `openstack_init` of src/datasources/openstack.c looks for a drive.
use micro_config_drive.Base.{
  ℕ, zero, suc, ◌+◌, ◌*◌, ◌^◌, ◌≤◌, Bytes, str, [], ◌∷◌, ◌++◌, Bool, if◌then◌else◌, ◌≡◌, refl, ◌∙◌,
  ap, arith, inl, inr, Option-cases,
}
use micro_config_drive.System.{Trace, Blkid, blkid, usleep, run_system}
use micro_config_drive.System.Drive.{Drive, DataSource, config_drive, no_source}
use micro_config_drive.System.Io.{World, ◌>>=◌, call}
use micro_config_drive.System.Views.{Keeps, Keeps-pure, Keeps-bind, Keeps-if, the_vars, view_rules}
use micro_config_drive.Modules.Network.Wait.{slept_time, slept_time-append}
use micro_config_drive.Disk.{Blocks, disk_by_label}
use micro_config_drive.OpenStack.{Host}
use micro_config_drive.OpenStack.Datasource.{
  probe_module, drive_found, init_loop, openstack_init, sr_mod_command,
}

-- How often the calls of a trace run a command by `system`.
unfoldable pub system_runs : Trace → ℕ
system_runs [] = 0
system_runs (run_system command ∷ t) = 1 + system_runs t
system_runs (_ ∷ t) = system_runs t

system_runs-append : (s t : Trace) → system_runs (s ++ t) ≡ system_runs s + system_runs t
unfolding system_runs
system_runs-append [] t = omega arith
system_runs-append (run_system command ∷ s) t = omega (arith, system_runs-append s t)
system_runs-append (_ ∷ s) t = omega (arith, system_runs-append s t)

abbrev pub slept : World → ℕ
slept w = slept_time w.trace

abbrev pub ran : World → ℕ
ran w = system_runs w.trace

blkid-slept : {A : Type 0} (b : Blkid) (answer : Trace → A) → Keeps slept (call (blkid b) answer)
unfolding slept_time
blkid-slept b answer = record {
  same = λ w. omega (arith, slept_time-append w.trace (blkid b ∷ []));
}

blkid-ran : {A : Type 0} (b : Blkid) (answer : Trace → A) → Keeps ran (call (blkid b) answer)
unfolding system_runs
blkid-ran b answer = record { same = λ w. omega (arith, system_runs-append w.trace (blkid b ∷ [])) }

disk_by_label-slept : (b : Blocks) (label : Bytes) → Keeps slept (disk_by_label b label)
unfolding disk_by_label
disk_by_label-slept b label = search (Keeps-pure, Keeps-bind, Keeps-if, blkid-slept) depth 14

disk_by_label-ran : (b : Blocks) (label : Bytes) → Keeps ran (disk_by_label b label)
unfolding disk_by_label
disk_by_label-ran b label = search (Keeps-pure, Keeps-bind, Keeps-if, blkid-ran) depth 14

disk_by_label-vars : (b : Blocks) (label : Bytes) → Keeps the_vars (disk_by_label b label)
unfolding disk_by_label
disk_by_label-vars b label = search view_rules depth 14

-- What the rounds that are left may sleep, in microseconds, and how often they may run `modprobe`.
abbrev naps_left : ℕ → ℕ → ℕ
naps_left zero tries = 0
naps_left (suc left) tries = 2 ^ tries * 4000 + naps_left left (suc tries)

abbrev probes_left : ℕ → ℕ
probes_left zero = 1
probes_left (suc tries) = 0

abbrev pub source_by : Bool → DataSource
source_by found = if found then config_drive else no_source

-- What a search may have done when it comes to `r`.
abbrev pub Searched : ℕ → ℕ → World → Bool × World → Type 0
Searched naps probes w r =
    (slept r.1 ≤ slept w + naps)
    × (ran r.1 ≤ ran w + probes)
    × (r.1.drive.data_source ≡ source_by r.0)

-- A round without a disk, up to the next one.
round_costs :
    (tries : ℕ) (w : World)
    → let u = (probe_module tries w).1 in
      let v = record u { trace = u.trace ++ (usleep (2 ^ tries * 4000) ∷ []) } in
      (slept v ≡ slept w + 2 ^ tries * 4000)
      × (ran v ≡ ran w + probes_left tries)
      × (v.drive ≡ w.drive)
unfolding probe_module slept_time system_runs
round_costs zero w =
    let t = w.trace ++ (run_system sr_mod_command ∷ []) in
    (
      omega (
        arith,
        slept_time-append t (usleep 4000 ∷ []),
        slept_time-append w.trace (run_system sr_mod_command ∷ []),
      ),
      omega (
        arith,
        system_runs-append t (usleep 4000 ∷ []),
        system_runs-append w.trace (run_system sr_mod_command ∷ []),
      ),
      refl,
    )
round_costs (suc tries) w =
    let sleep = usleep (2 ^ suc tries * 4000) ∷ [] in
    (
      omega (arith, slept_time-append w.trace sleep),
      omega (arith, system_runs-append w.trace sleep),
      refl,
    )

init_loop-Searched :
    (h : Host) (left tries : ℕ) (w : World)
    → w.drive.data_source ≡ no_source
    → Searched (naps_left left tries) (probes_left tries) w (init_loop h left tries w)
unfolding init_loop drive_found
init_loop-Searched h zero tries w e = (omega arith, omega arith, e)
init_loop-Searched h (suc left) tries w e =
    let b = h.devices.blocks in
    let label = str "config-2" in
    let (device, u) = disk_by_label b label w in
    let still = (disk_by_label-vars b label).same w in
    let awake = (disk_by_label-slept b label).same w in
    let quiet = (disk_by_label-ran b label).same w in
    elim (Option-cases device) [
      | inr (name, found) ↦ rw (found, ◌>>=◌) (omega arith, omega arith, refl)
      | inl missing ↦
          let v = (probe_module tries u).1 in
          let v' = record v { trace = v.trace ++ (usleep (2 ^ tries * 4000) ∷ []) } in
          let (nap, probe, same) = round_costs tries u in
          let (naps, probes, source) =
            init_loop-Searched h left (suc tries) v'
              (ap (λ (d : Drive). d.data_source) (same ∙ still) ∙ e) in
          rw (missing, ◌>>=◌) (omega arith, omega arith, source)
    ]

-- `openstack_init` sleeps 1.02 seconds at most and runs a command by `system` once at most. Afterwards the
-- datasource is the config drive if it returns true, and there is none if it returns false.
pub openstack_init-Searched : (h : Host) (w : World) → Searched 1020000 1 w (openstack_init h w)
unfolding openstack_init
openstack_init-Searched h w =
    init_loop-Searched h 8 0 (record w { drive = record w.drive { data_source = no_source } }) refl
