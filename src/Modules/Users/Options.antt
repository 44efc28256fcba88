-- ===== src/Modules/Users/Options.antt =====
-- The texts that the options of a user add to the `useradd` command.
use micro_config_drive.Base.{
  ℕ, Bytes, str, none, some, List, [], ◌∷◌, ◌++◌, append_assoc, append-nil, ◌≡◌, refl,
}
use micro_config_drive.GNode.{GNode, null, gnode}
use micro_config_drive.Modules.Users.{groups_text, group_list, drop_last}

abbrev pub group_nodes : Bytes → List Bytes → GNode
group_nodes g [] = gnode (some g) null null
group_nodes g (h ∷ gs) = gnode (some g) null (group_nodes h gs)

-- Names with commas between them.
abbrev pub comma_list : Bytes → List Bytes → Bytes
comma_list g [] = g
comma_list g (h ∷ gs) = g ++ (str "," ++ comma_list h gs)

group_list-comma :
    (g : Bytes) (gs : List Bytes) → group_list (group_nodes g gs) ≡ comma_list g gs ++ str ","
unfolding group_list
group_list-comma g [] = rw (append-nil (str ","))
group_list-comma g (h ∷ gs) = rw (group_list-comma h gs) (simp append_assoc)

drop_last-append : (s : Bytes) (c : ℕ) → drop_last (s ++ (c ∷ [])) ≡ s
drop_last-append [] c = refl
drop_last-append (x ∷ []) c = refl
drop_last-append (x ∷ (y ∷ s)) c = rw (drop_last-append (y ∷ s) c)

drop_comma :
    (s t u : Bytes) (g : Bytes) (gs : List Bytes)
    → t ≡ comma_list g gs ++ str ","
    → drop_last (s ++ t) ++ u ≡ s ++ (comma_list g gs ++ u)
unfolding str
drop_comma s t u g gs e =
    rw (e, ← append_assoc s (comma_list g gs) (str ","), drop_last-append)
      (append_assoc s (comma_list g gs) u)

-- A list of groups becomes one `-G` option, with commas between the names and none behind the last.
pub groups_text_list :
    (g : Bytes) (gs : List Bytes) (n : GNode)
    → groups_text (gnode none (group_nodes g gs) n) ≡ str " -G '" ++ (comma_list g gs ++ str "' ")
unfolding groups_text
groups_text_list g [] n = drop_comma (str " -G '") _ (str "' ") g [] (group_list-comma g [])
groups_text_list g (h ∷ gs) n =
    drop_comma (str " -G '") _ (str "' ") g (h ∷ gs) (group_list-comma g (h ∷ gs))
