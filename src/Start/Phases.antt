-- ===== src/Start/Phases.antt =====
-- What the options of src/main.c bring about together.
use micro_config_drive.Base.{Bool, true, false, ◌&&◌, ◌≡◌, refl, sym, ◌∙◌}
use micro_config_drive.System.Io.{World}
use micro_config_drive.Start.{Computer, Source, find_source, gather, apply, process}
use micro_config_drive.Start.Options.{Settings, settings}

and_false : (b : Bool) → (b && false) ≡ false
and_false true = refl
and_false false = refl

gather_not_first :
    (c : Computer) (s : Settings) (w : World)
    → s.process_user_data ≡ false
    → s.process_metadata ≡ false
    → s.process_user_data_once ≡ false
    → (gather c s w).0.first_boot ≡ false
unfolding gather find_source
gather_not_first c s w u m o = simp (u, m, o) refl

-- Where this is not the first boot, or no datasource was started, the options `--first-boot-setup` and
-- `--user-data-once` have no effect on what follows.
pub apply_not_first :
    (c : Computer) (s : Settings) (source : Source) (w : World)
    → source.first_boot ≡ false
    → apply c s source w
      ≡ apply c (record s { first_boot_setup = false; process_user_data_once = false }) source w
unfolding apply
apply_not_first c s source w e = simp (e, and_false) refl

-- Without an option that starts a datasource, the program does exactly what it does without the option
-- `--first-boot-setup`, on the first boot too.
pub process_first_boot_setup :
    (c : Computer) (s : Settings) (w : World)
    → s.process_user_data ≡ false
    → s.process_metadata ≡ false
    → s.process_user_data_once ≡ false
    → process c (settings s) w ≡ process c (settings (record s { first_boot_setup = false })) w
unfolding process gather
process_first_boot_setup c s w u m o =
    let (source, v) = gather c s w in
    let later = gather_not_first c s w u m o in
    let off = record s { first_boot_setup = false } in
    apply_not_first c s source v later ∙ sym (apply_not_first c off source v later)
