-- ===== src/Modules/Envar/Bindings.antt =====
-- Which variables the envar handler sets and writes.
use micro_config_drive.Base.{
  Bytes, str, clip, path_max, if◌then◌else◌, inl, inr, Bool-cases, Option, none, some, List, [],
  ◌∷◌, ◌++◌, append-nil, append_assoc, ◌≡◌, refl, ◌∙◌,
}
use micro_config_drive.System.{Os, Trace, setenv, o_creat, o_append, o_wronly}
use micro_config_drive.System.Io.{World}
use micro_config_drive.GNode.{GNode, null, gnode, children}
use micro_config_drive.Files.{make_dir, write_file}
use micro_config_drive.Modules.Envar.{export_line, envar_items, write_profile, envar_handler}

-- The variables of a list of nodes below a name, if any, with their values: every text below a name
-- is a value of it, whatever lists stand between.
pub bindings : Option Bytes → GNode → List (Bytes × Bytes)
bindings name null = []
bindings name (gnode none c n) = bindings name c ++ bindings name n
bindings none (gnode (some key) c n) = bindings (some key) c ++ bindings none n
bindings (some name) (gnode (some value) c n) = (name, value) ∷ bindings (some name) n

abbrev pub profile_text : List (Bytes × Bytes) → Bytes
profile_text [] = []
profile_text ((name, value) ∷ bs) = export_line name value ++ profile_text bs

abbrev pub setenv_calls : List (Bytes × Bytes) → Trace
setenv_calls [] = []
setenv_calls ((name, value) ∷ bs) = setenv name value ∷ setenv_calls bs

-- The buffer and the world behind some bindings.
abbrev pub bound : Bytes → World → List (Bytes × Bytes) → Bytes × World
bound buffer w bs = (buffer ++ profile_text bs, record w { trace = w.trace ++ setenv_calls bs })

profile_text-append :
    (as' bs : List (Bytes × Bytes)) → profile_text (as' ++ bs) ≡ profile_text as' ++ profile_text bs
profile_text-append [] bs = refl
profile_text-append ((n, v) ∷ as') bs =
    rw (profile_text-append as' bs) (rw (append_assoc (export_line n v)))

setenv_calls-append :
    (as' bs : List (Bytes × Bytes)) → setenv_calls (as' ++ bs) ≡ setenv_calls as' ++ setenv_calls bs
setenv_calls-append [] bs = refl
setenv_calls-append ((n, v) ∷ as') bs = rw (setenv_calls-append as' bs)

bound-bound :
    (buffer : Bytes) (w : World) (as' bs : List (Bytes × Bytes))
    → bound (bound buffer w as').0 (bound buffer w as').1 bs ≡ bound buffer w (as' ++ bs)
bound-bound buffer w as' bs = rw (profile_text-append, setenv_calls-append) (simp append_assoc)

envar_items-bound :
    (os : Os) (buffer : Bytes) (name : Option Bytes) (n : GNode) (w : World)
    → envar_items os buffer name n w ≡ bound buffer w (bindings name n)
unfolding envar_items bindings
envar_items-bound os buffer name null w = simp append-nil
envar_items-bound os buffer none (gnode none c n) w = rw (envar_items-bound os buffer none c w) (
    let (b, v) = bound buffer w (bindings none c) in
    envar_items-bound os b none n v ∙ bound-bound buffer w (bindings none c) (bindings none n))
envar_items-bound os buffer (some x) (gnode none c n) w =
    rw (envar_items-bound os buffer (some x) c w) (
      let (b, v) = bound buffer w (bindings (some x) c) in
      envar_items-bound os b (some x) n v
      ∙ bound-bound buffer w (bindings (some x) c) (bindings (some x) n))
envar_items-bound os buffer none (gnode (some key) c n) w =
    rw (envar_items-bound os buffer (some key) c w) (
      let (b, v) = bound buffer w (bindings (some key) c) in
      envar_items-bound os b none n v
      ∙ bound-bound buffer w (bindings (some key) c) (bindings none n))
envar_items-bound os buffer (some x) (gnode (some value) c n) w =
    envar_items-bound os (buffer ++ export_line x value) (some x) n
      (record w { trace = w.trace ++ (setenv x value ∷ []) })
    ∙ simp append_assoc

-- The line of the profile for a variable, and the lines of some.
abbrev pub exports : List (Bytes × Bytes) → Bytes
exports [] = []
exports ((name, value) ∷ bs) =
    str "export " ++ (name ++ (str "=\"" ++ (value ++ (str "\"\n" ++ exports bs))))

profile_text-exports : (bs : List (Bytes × Bytes)) → profile_text bs ≡ exports bs
profile_text-exports [] = refl
profile_text-exports ((name, value) ∷ bs) = rw (profile_text-exports bs) (simp append_assoc)

-- The envar handler sets every variable of the tree of its block, in the order of the tree and each once. Then it makes
-- the directory profile.d below the configuration, and if that is there it appends one export line for each of
-- these variables, in the same order, to cloud-init.sh in it; otherwise nothing is written.
pub envar_handler-bindings :
    (os : Os) (node : GNode) (w : World)
    → let bs = bindings none (children node) in
      let dir = clip path_max (os.sysconfdir ++ str "/profile.d") in
      let (made, u) = make_dir os dir 493 (record w { trace = w.trace ++ setenv_calls bs }) in
      (envar_handler os node w).1 ≡ (
        if made
        then (write_file os
            (exports bs)
            (clip path_max (dir ++ str "/cloud-init.sh"))
            (o_creat ∷ (o_append ∷ (o_wronly ∷ [])))
            493
            u).1
        else u)
unfolding envar_handler write_profile
envar_handler-bindings os node w =
    let bs = bindings none (children node) in
    let dir = clip path_max (os.sysconfdir ++ str "/profile.d") in
    let r = make_dir os dir 493 (record w { trace = w.trace ++ setenv_calls bs }) in
    rw (envar_items-bound os [] none (children node) w, profile_text-exports bs)
      (elim (Bool-cases r.0) [ inl e ↦ rw e refl | inr e ↦ rw e refl ])
