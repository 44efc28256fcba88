-- ===== src/Modules/Users/Commands.antt =====
-- The options of an account in its `useradd` command, and what is found among its settings.
use micro_config_drive.Base.{
  Bytes, str, str_eq, starts_with_nocase, clip, login_name_max, shown, Option, none, some, List, [],
  ◌∷◌, ◌++◌, Bool, true, false, append-nil, append_assoc, ◌≡◌, refl, ap,
}
use micro_config_drive.System.{Os}
use micro_config_drive.System.Io.{World, Pointer}
use micro_config_drive.GNode.{null}
use micro_config_drive.CloudConfig.{
  lookup_global, cloud_config_get_global, cloud_config_set_global, cloud_config_bool, any_matches,
}
use micro_config_drive.Modules.Users.{
  users_items, users_option, option_action, apply_option, users_add_username, keep_first,
  groups_text, choice_text,
}
use micro_config_drive.Modules.Users.Options.{groups_text_list}
use micro_config_drive.Modules.Users.Plan.{
  CommandOption, named, field, in_groups, switch, system, gecos, homedir, primary_group, passwd,
  expiredate, no_create_home, no_user_group, no_log_init, Setting, plain, lock_passwd, inactive,
  ssh_keys, sudo, Texts, one, many, texts_node, bool_node, option_key, option_value, setting_nodes,
  argument, arguments,
}
use micro_config_drive.Modules.Users.Steps.{settle, with_pointer}

pub cloud_config_bool-node :
    (os : Os) (b old : Bool) → cloud_config_bool os (bool_node b) old ≡ (true, b)
unfolding cloud_config_bool any_matches starts_with_nocase str
cloud_config_bool-node os true old = refl
cloud_config_bool-node os false old = refl

keep_first_pointer :
    (p : Option Pointer) (w : World)
    → keep_first p w ≡ (tt, record w { global_data = with_pointer p w.global_data })
unfolding cloud_config_set_global
keep_first_pointer none w = refl
keep_first_pointer (some p) w = refl

users_option-argument :
    (os : Os) (command : Bytes) (o : CommandOption) (w : World)
    → users_option os (some command) (option_key o) (option_value o) w
      ≡ (some (command ++ argument o), settle (plain o ∷ []) w)
unfolding users_option option_action apply_option str_eq str groups_text shown users_add_username
    cloud_config_get_global choice_text cloud_config_bool any_matches starts_with_nocase
users_option-argument os command (named n) w =
    rw
      (keep_first_pointer (lookup_global (str "first_user") w.global_data)
        (record w { current_username = clip login_name_max n }))
      refl
users_option-argument os command (field gecos text) w = refl
users_option-argument os command (field homedir text) w = refl
users_option-argument os command (field primary_group text) w = refl
users_option-argument os command (field passwd text) w = refl
users_option-argument os command (field expiredate text) w = refl
users_option-argument os command (in_groups (one g)) w = refl
users_option-argument os command (in_groups (many g gs)) w =
    ap (λ t. (some (command ++ t), w)) (groups_text_list g gs null)
users_option-argument os command (switch no_create_home true) w = refl
users_option-argument os command (switch no_create_home false) w = refl
users_option-argument os command (switch no_user_group true) w = refl
users_option-argument os command (switch no_user_group false) w = refl
users_option-argument os command (switch no_log_init true) w = refl
users_option-argument os command (switch no_log_init false) w = refl
users_option-argument os command (system text) w = refl

-- The other settings add nothing.
users_option-others :
    (os : Os) (command : Bytes) (b : Bool) (texts : Texts) (w : World)
    → (users_option os (some command) (str "lock-passwd") (bool_node b) w ≡ (some command, w))
      × (users_option os (some command) (str "inactive") (bool_node b) w ≡ (some command, w))
      × (users_option os (some command) (str "ssh-authorized-keys") (texts_node texts) w
          ≡ (some command, w))
      × (users_option os (some command) (str "sudo") (texts_node texts) w ≡ (some command, w))
unfolding users_option option_action apply_option str_eq str
users_option-others os command true (one text) w = (refl, refl, refl, refl)
users_option-others os command false (one text) w = (refl, refl, refl, refl)
users_option-others os command true (many text texts) w = (refl, refl, refl, refl)
users_option-others os command false (many text texts) w = (refl, refl, refl, refl)

-- Behind the settings of an account the command has all their arguments, in their order.
pub users_items-arguments :
    (os : Os) (command : Bytes) (ss : List Setting) (w : World)
    → users_items os (some command) (setting_nodes ss) w
      ≡ (some (command ++ arguments ss), settle ss w)
unfolding users_items
users_items-arguments os command [] w = rw append-nil refl
users_items-arguments os command (plain o ∷ ss) w =
    rw
      (
        users_option-argument os command o w,
        users_items-arguments os (command ++ argument o) ss,
        append_assoc,
      )
      refl
users_items-arguments os command (lock_passwd b ∷ ss) w =
    rw ((users_option-others os command b (one []) w).0, users_items-arguments os command ss w) refl
users_items-arguments os command (inactive b ∷ ss) w =
    rw ((users_option-others os command b (one []) w).1, users_items-arguments os command ss w) refl
users_items-arguments os command (ssh_keys texts ∷ ss) w =
    rw ((users_option-others os command true texts w).2, users_items-arguments os command ss w) refl
users_items-arguments os command (sudo texts ∷ ss) w =
    rw ((users_option-others os command true texts w).3, users_items-arguments os command ss w) refl
