-- ===== src/SshKeys/Missing.antt =====
-- Which keys `write_ssh_keys` appends to a file that is there.
use micro_config_drive.Base.{
  false, ◌==◌, Bytes, starts_with, List, [], ◌∷◌, ◌++◌, true, if◌then◌else◌, ◌≡◌, refl, ◌⊎◌, arith,
}
use micro_config_drive.SshKeys.{contains}

starts_with-append : (s t p : Bytes) → starts_with s p ≡ true → starts_with (s ++ t) p ≡ true
unfolding starts_with
starts_with-append [] [] [] h = refl
starts_with-append [] (c ∷ t) [] h = refl
starts_with-append [] t (x ∷ p) h = cc
starts_with-append (y ∷ s) t [] h = refl
starts_with-append (y ∷ s) t (x ∷ p) h = ground (arith, starts_with-append s t p)

contains_of_starts : (s p : Bytes) → starts_with s p ≡ true → contains s p ≡ true
unfolding contains
contains_of_starts [] p h = h
contains_of_starts (c ∷ s) p h = rw h

pub contains-append_left : (s t p : Bytes) → contains s p ≡ true → contains (s ++ t) p ≡ true
unfolding contains
contains-append_left [] t p h = contains_of_starts t p (starts_with-append [] t p h)
contains-append_left (c ∷ s) t p h =
    ground (arith, starts_with-append (c ∷ s) t p, contains-append_left s t p)

pub contains-append_right : (s t p : Bytes) → contains t p ≡ true → contains (s ++ t) p ≡ true
unfolding contains
contains-append_right [] t p h = h
contains-append_right (c ∷ s) t p h = ground (arith, contains-append_right s t p)

-- Every line is in the file or in what is appended to it.
abbrev pub AllFound : Bytes → Bytes → List Bytes → Type 0
AllFound content more [] = Unit
AllFound content more (key ∷ keys) =
    ((contains content key ≡ true) ⊎ (contains more key ≡ true)) × AllFound content more keys

-- The keys that the text does not contain, in their order.
abbrev pub lacking : Bytes → List Bytes → List Bytes
lacking content [] = []
lacking content (key ∷ keys) =
    let rest = lacking content keys in if contains content key then rest else key ∷ rest

abbrev OneLine : Bytes → Type 0
OneLine [] = Unit
OneLine (c ∷ cs) = ((c == b'\n') ≡ false) × OneLine cs

abbrev AllOneLine : List Bytes → Type 0
AllOneLine [] = Unit
AllOneLine (l ∷ ls) = OneLine l × AllOneLine ls
