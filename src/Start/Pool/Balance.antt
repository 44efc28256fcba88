-- ===== src/Start/Pool/Balance.antt =====
-- The pool of threads: what it has taken has been run or waits.
use micro_config_drive.Base.{
  ℕ, zero, suc, Bytes, Option, none, some, List, [], ◌∷◌, ◌++◌, Bool, true, false, if◌then◌else◌,
  ◌≡◌, refl, ◌∙◌, sym, ap, append_assoc, append-nil, Bool-cases, Option-cases, inl, inr,
}
use mathlib.Core.Path.{subst}
use mathlib.Core.List.Perm
use mathlib.Core.List.{Perm}
use micro_config_drive.System.Drive.{Task, MetadataFunc, metadata}
use micro_config_drive.System.Io.{World, Io, ◌>>=◌, ◌>>◌, pure}
use micro_config_drive.System.Views.{Keeps, Keeps-pure, the_pool}
use micro_config_drive.GNode.{GNode, null, gnode, children}
use micro_config_drive.OpenStack.{Host, the_drive}
use micro_config_drive.OpenStack.Tasks.{
  openstack_metadata_load_options, openstack_metadata_free_options, push, push_found,
  openstack_run_handler, option_of, run_handlers, openstack_process_metadata_file,
}
use micro_config_drive.Start.{
  Computer, run_task, run_tasks, pick, run_picked, run_picks, let_run, run_rest, async_task_finish,
}
use micro_config_drive.Start.Pending.{run_task-pool}
use micro_config_drive.Start.Pending.Drives.{
  load_options-pool, free_options-pool, ensure_metadata-pool,
}

-- What has been run and what waits is what the pool has taken, each as often.
abbrev pub IsBalanced : World → Type 0
IsBalanced w = Perm (w.ran ++ w.pushed) w.taken

pub record Balances {A : Type 0} (m : Io A) : Type 0 where
  pub balanced : (w : World) → IsBalanced w → IsBalanced (m w).1

pub Balances-Keeps : {A : Type 0} (m : Io A) → Keeps the_pool m → Balances m
Balances-Keeps m p = record {
  balanced = λ w h.
      subst (λ (q : List Task × List Task × List Task). Perm (q.2 ++ q.0) q.1) (sym (p.same w)) h;
}

pub Balances-bind :
    {A B : Type 0} (m : Io A) (f : A → Io B)
    → Balances m
    → ((a : A) → Balances (f a))
    → Balances (m >>= f)
Balances-bind m f p q = record {
  balanced = λ w h. let (a, v) = m w in (q a).balanced v (p.balanced w h);
}

pub Balances-seq :
    {A B : Type 0} (m : Io A) (k : Io B) → Balances m → Balances k → Balances (m >> k)
Balances-seq m k p q = Balances-bind m (λ _. k) p (λ _. q)

pub Balances-if :
    {A : Type 0} (b : Bool) (m k : Io A) → Balances m → Balances k → Balances (if b then m else k)
Balances-if true m k p q = p
Balances-if false m k p q = q

pub ruleset balance_rules = (Balances-bind, Balances-seq, Balances-if)

-- What the threads run is added to what they have run, and nothing else changes.
pub run_tasks-ran :
    (c : Computer) (tasks : List Task) (w : World)
    → let v = (run_tasks c tasks w).1 in
      (v.pushed ≡ w.pushed) × (v.taken ≡ w.taken) × (v.ran ≡ w.ran ++ tasks)
unfolding run_tasks
run_tasks-ran c [] w = (refl, refl, sym (append-nil w.ran))
run_tasks-ran c (task ∷ tasks) w =
    let v = (run_task c task w).1 in
    let u = record v { ran = v.ran ++ (task ∷ []) } in
    let same = (run_task-pool c task).same w in
    let (waiting, taken, ran) = run_tasks-ran c tasks u in
    (
      waiting ∙ ap (λ (q : List Task × List Task × List Task). q.0) same,
      taken ∙ ap (λ (q : List Task × List Task × List Task). q.1) same,
      ran
          ∙ ap (λ (ts : List Task). (ts ++ (task ∷ [])) ++ tasks)
              (ap (λ (q : List Task × List Task × List Task). q.2) same)
          ∙ append_assoc w.ran (task ∷ []) tasks,
    )

-- A pick of some tasks is one of them, with the others.
abbrev IsPick : List Task → Option (Task × List Task) → Type 0
IsPick tasks none = Unit
IsPick tasks (some (task, others)) = Perm tasks (task ∷ others)

IsPick-behind :
    (task : Task) (tasks : List Task) (r : Option (Task × List Task))
    → IsPick tasks r
    → IsPick (task ∷ tasks) (elim r as (λ _. Option (Task × List Task)) [
      | none ↦ none
      | some (found, others) ↦ some (found, task ∷ others)
    ])
IsPick-behind task tasks none p = tt
IsPick-behind task tasks (some (found, others)) p =
    Perm.trans (Perm.cons task p) (Perm.swap found task others)

pick-IsPick : (n : ℕ) (tasks : List Task) → IsPick tasks (pick n tasks)
unfolding pick
pick-IsPick n [] = tt
pick-IsPick zero (task ∷ tasks) = Perm.rfl
pick-IsPick (suc n) (task ∷ tasks) = IsPick-behind task tasks (pick n tasks) (pick-IsPick n tasks)

run_picked-Balances : (c : Computer) (n : ℕ) → Balances (λ w. run_picked c (pick n w.pushed) w)
unfolding run_picked
run_picked-Balances c n = record {
  balanced = λ w h. elim (Option-cases (pick n w.pushed)) [
    | inl e ↦ rw (e, run_picked) h
    | inr ((task, others), e) ↦
        let picked : Perm w.pushed (task ∷ others) =
          subst (IsPick w.pushed) e (pick-IsPick n w.pushed) in
        let kept : Perm ((w.ran ++ (task ∷ [])) ++ others) w.taken =
          rw append_assoc (Perm.trans (Perm.append_left w.ran (Perm.symm picked)) h) in
        let same = (run_task-pool c task).same (record w { pushed = others }) in
        rw (e, run_picked)
          (subst (λ (r : List Task × List Task × List Task). Perm ((r.2 ++ (task ∷ [])) ++ r.0) r.1)
            (sym same) kept)
  ];
}

run_picks-Balances : (c : Computer) (ns : List ℕ) → Balances (run_picks c ns)
unfolding run_picks
run_picks-Balances c [] = Balances-Keeps _ (Keeps-pure tt)
run_picks-Balances c (n ∷ ns) = Balances-seq _ _ (run_picked-Balances c n) (run_picks-Balances c ns)

pub let_run-Balances : (c : Computer) → Balances (let_run c)
unfolding let_run
let_run-Balances c = record {
  balanced = λ w h. (run_picks-Balances c (c.picks w.trace)).balanced w h;
}

-- Nothing waits, and what has been run is what was taken, each as often.
abbrev pub IsSettled : World → Type 0
IsSettled w = (w.pushed ≡ []) × Perm w.ran w.taken

pub record Settles {A : Type 0} (m : Io A) : Type 0 where
  pub settled : (w : World) → IsBalanced w → IsSettled (m w).1

pub Settles-bind :
    {A B : Type 0} (m : Io A) (f : A → Io B)
    → Balances m
    → ((a : A) → Settles (f a))
    → Settles (m >>= f)
Settles-bind m f p q = record {
  settled = λ w h. let (a, v) = m w in (q a).settled v (p.balanced w h);
}

pub Settles-seq : {A B : Type 0} (m : Io A) (k : Io B) → Balances m → Settles k → Settles (m >> k)
Settles-seq m k p q = Settles-bind m (λ _. k) p (λ _. q)

pub Settles-then :
    {A B : Type 0} (m : Io A) (k : Io B) → Settles m → Keeps the_pool k → Settles (m >> k)
Settles-then m k p q = record {
  settled = λ w h.
      subst (λ (r : List Task × List Task × List Task). (r.0 ≡ []) × Perm r.2 r.1)
        (sym (q.same (m w).1)) (p.settled w h);
}

run_rest-Settles : (c : Computer) → Settles (run_rest c)
unfolding run_rest
run_rest-Settles c = record {
  settled = λ w h.
      let (waiting, taken, ran) =
        run_tasks-ran c w.pushed (record w { thread_pool = false; pushed = [] }) in
      (waiting, rw (ran, taken) h);
}

pub async_task_finish-Settles : (c : Computer) → Settles (async_task_finish c)
unfolding async_task_finish
async_task_finish-Settles c = Settles-seq _ _ (let_run-Balances c) (run_rest-Settles c)

pub push-Balances : (h : Host) (task : Task) → Balances (push h task)
unfolding push
push-Balances h task = record {
  balanced = λ w p. elim (Bool-cases w.thread_pool) [
    | inl y ↦
        rw (push, y, ← append_assoc w.ran w.pushed (task ∷ [])) (Perm.append_right (task ∷ []) p)
    | inr y ↦ rw (push, y) p
  ];
}

push_found-Balances :
    (h : Host) (below : GNode) (func : Option MetadataFunc) → Balances (push_found h below func)
unfolding push_found
push_found-Balances h below none = Balances-Keeps _ (Keeps-pure tt)
push_found-Balances h below (some func) = push-Balances h (metadata func below)

run_handlers-Balances : (h : Host) (node : GNode) → Balances (run_handlers h node)
unfolding run_handlers openstack_run_handler
run_handlers-Balances h null = Balances-Keeps _ (Keeps-pure tt)
run_handlers-Balances h (gnode key below next) = record {
  balanced = λ w p.
      (run_handlers-Balances h next).balanced _
        ((push_found-Balances h below (option_of key w.drive.options)).balanced w p);
}

pub metadata_file-Balances :
    (h : Host) (filename : Bytes) → Balances (openstack_process_metadata_file h filename)
unfolding openstack_process_metadata_file
metadata_file-Balances h filename = record {
  balanced = λ w p.
      let v = (openstack_metadata_load_options w).1 in
      let free = Balances-Keeps openstack_metadata_free_options (free_options-pool h) in
      let handle : Balances (do
        d ← the_drive
        run_handlers h (children d.metadata_node)
        openstack_metadata_free_options
        pure true) =
        record {
          balanced = λ u q.
              free.balanced _
                ((run_handlers-Balances h (children u.drive.metadata_node)).balanced u q);
        } in
      let ensured = Balances-Keeps _ (ensure_metadata-pool h filename v.drive.metadata_node) in
      (Balances-bind _ _ ensured
          (λ loaded. Balances-if loaded _ _ handle (Balances-Keeps _ (Keeps-pure false)))).balanced
        v ((Balances-Keeps _ (load_options-pool h)).balanced w p);
}
