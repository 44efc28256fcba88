-- ===== src/CloudConfig/Values.antt =====
-- Which texts are booleans.
use micro_config_drive.Base.{
  Bytes, str, starts_with_nocase, some, [], ◌∷◌, ◌++◌, Bool, true, false, ◌||◌, if◌then◌else◌, ◌≡◌,
  refl, arith,
}
use micro_config_drive.System.{Os}
use micro_config_drive.GNode.{GNode, gnode}
use micro_config_drive.CloudConfig.{cloud_config_bool}

starts_with_nocase-append :
    (s p q : Bytes) → starts_with_nocase s (p ++ q) ≡ true → starts_with_nocase s p ≡ true
unfolding starts_with_nocase
starts_with_nocase-append [] [] q h = refl
starts_with_nocase-append (x ∷ s) [] q h = refl
starts_with_nocase-append [] (y ∷ p) q h = cc
starts_with_nocase-append (x ∷ s) (y ∷ p) q h = ground (arith, starts_with_nocase-append s p q)

-- A text that begins, in any case, with `1`, `y`, `true` or `on`.
abbrev pub reads_true : Bytes → Bool
reads_true t =
    starts_with_nocase t (str "1")
    || (starts_with_nocase t (str "y")
        || (starts_with_nocase t (str "true") || starts_with_nocase t (str "on")))

-- A text that begins, in any case, with `0`, `n`, `false` or `off`.
abbrev pub reads_false : Bytes → Bool
reads_false t =
    starts_with_nocase t (str "0")
    || (starts_with_nocase t (str "n")
        || (starts_with_nocase t (str "false") || starts_with_nocase t (str "off")))

yes_y : str "y" ++ str "es" ≡ str "yes"
unfolding str
yes_y = refl

no_n : str "n" ++ str "o" ≡ str "no"
unfolding str
no_n = refl

-- What `cloud_config_bool` makes of a text: only its beginning counts. A text of neither kind is
-- refused, and then the variable keeps the value that it had.
pub cloud_config_bool_lem :
    (os : Os) (t : Bytes) (c n : GNode) (b : Bool)
    → cloud_config_bool os (gnode (some t) c n) b
      ≡ (if reads_true t then (true, true) else if reads_false t then (true, false) else (false, b))
unfolding cloud_config_bool
cloud_config_bool_lem os t c n b = ground (
  arith,
  rw yes_y at (starts_with_nocase-append t (str "y") (str "es")),
  rw no_n at (starts_with_nocase-append t (str "n") (str "o")),
)
