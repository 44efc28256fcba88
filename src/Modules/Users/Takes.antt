-- ===== src/Modules/Users/Takes.antt =====
-- Actions of users.c that take known steps for the current user.
use micro_config_drive.Base.{
  Bytes, str, Option, none, some, List, [], ◌∷◌, ◌++◌, Bool, true, false, ◌≡◌, refl, ◌∙◌, sym, ap,
  if◌then◌else◌,
}
use micro_config_drive.System.{Os}
use micro_config_drive.System.Io.{World, Io, ◌>>=◌, ◌>>◌, pure, skip}
use micro_config_drive.System.Calls.{OnlyCalls, OnlyCalls-bind}
use micro_config_drive.GNode.{GNode, leaves}
use micro_config_drive.Shell.{exec_task}
use micro_config_drive.CloudConfig.{cloud_config_find}
use micro_config_drive.Modules.Users.{add_user_keys, add_user_sudo}
use micro_config_drive.Modules.Users.Plan.{Texts, one, many}
use micro_config_drive.Modules.Users.Steps.{
  Step, run_if, key_steps, rule_steps, take_step, take_steps,
}
use micro_config_drive.Modules.Users.Lookup.{
  switched, texts_found, texts_leaves, key_lines-text, sudo_lines-text,
}

take_steps-append :
    (os : Os) (s t : List Step) (w : World)
    → take_steps os (s ++ t) w ≡ take_steps os t (take_steps os s w).1
take_steps-append os [] t w = refl
take_steps-append os (step ∷ s) t w = take_steps-append os s t (take_step os step w).1

-- An action that takes some steps for the user whose name is in the buffer, and leaves it there.
pub record Takes {A : Type 0} (os : Os) (user : Bytes) (m : Io A) (steps : List Step) : Type 0 where
  pub takes : (w : World) → w.current_username ≡ user → (m w).1 ≡ (take_steps os steps w).1
  pub only : OnlyCalls m

module _ {A B : Type 0} where
  pub Takes-bind :
      (os : Os) (user : Bytes) (m : Io A) (f : A → Io B) (s t : List Step)
      → Takes os user m s
      → ((a : A) → Takes os user (f a) t)
      → Takes os user (m >>= f) (s ++ t)
  Takes-bind os user m f s t p q = record {
    takes = λ w e.
        let (a, v) = m w in
        let kept = ap (λ (u : World). u.current_username) (p.only.vars w) in
        (q a).takes v (kept ∙ e)
        ∙ ap (λ u. (take_steps os t u).1) (p.takes w e)
        ∙ ap (λ r. r.1) (sym (take_steps-append os s t w));
    only = OnlyCalls-bind m f p.only (λ a. (q a).only);
  }

-- A command that is run where a switch is on, and the variable that goes on.
pub run_if-steps :
    (os : Os) (found : Option Bool) (old : Bool) (command : Bytes) (w : World)
    → let (on, b) = switched found old in
      (if on then (do exec_task os command; pure b) w else (b, w)).1
      ≡ (take_steps os (run_if found command) w).1
run_if-steps os none old command w = refl
run_if-steps os (some true) old command w = refl
run_if-steps os (some false) old command w = refl

pub run_last-steps :
    (os : Os) (found : Option Bool) (old : Bool) (command : Bytes) (w : World)
    → let (on, b) = switched found old in
      (if on then (do exec_task os command; skip) w else (tt, w)).1
      ≡ (take_steps os (run_if found command) w).1
run_last-steps os none old command w = refl
run_last-steps os (some true) old command w = refl
run_last-steps os (some false) old command w = refl

pub add_user_keys_found :
    (os : Os) (node : GNode) (found : Option Texts) (w : World)
    → let r = cloud_config_find node (str "ssh-authorized-keys") in
      r.item ≡ texts_found found
      → leaves r.parent ≡ texts_leaves found
      → (add_user_keys os node w).1 ≡ (take_steps os (key_steps w.current_username found) w).1
unfolding add_user_keys
add_user_keys_found os node none w e l = rw (add_user_keys, e) refl
add_user_keys_found os node (some (one t)) w e l =
    rw (add_user_keys, e, l, key_lines-text (t ∷ [])) refl
add_user_keys_found os node (some (many t ts)) w e l =
    rw (add_user_keys, e, l, key_lines-text (t ∷ ts)) refl

pub add_user_sudo_found :
    (os : Os) (node : GNode) (found : Option Texts) (w : World)
    → let r = cloud_config_find node (str "sudo") in
      r.item ≡ texts_found found
      → leaves r.parent ≡ texts_leaves found
      → (add_user_sudo os node w).1 ≡ (take_steps os (rule_steps w.current_username found) w).1
unfolding add_user_sudo
add_user_sudo_found os node none w e l = rw (add_user_sudo, e) refl
add_user_sudo_found os node (some (one t)) w e l =
    rw (add_user_sudo, e, l, sudo_lines-text w.current_username (t ∷ [])) refl
add_user_sudo_found os node (some (many t ts)) w e l =
    rw (add_user_sudo, e, l, sudo_lines-text w.current_username (t ∷ ts)) refl
