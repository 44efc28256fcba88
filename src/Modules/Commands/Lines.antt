-- ===== src/Modules/Commands/Lines.antt =====
-- Which command lines `runcmd` and `fbootcmd` run.
use mathlib.Core.Path.{fun_ext}
use micro_config_drive.Base.{
  Bytes, str, Option, none, some, List, [], ◌∷◌, ◌++◌, append-nil, append_assoc, if◌then◌else◌, ◌≡◌,
  refl, ◌∙◌, map,
}
use micro_config_drive.System.{Os}
use micro_config_drive.System.Io.{World, ◌>>=◌, ◌>>◌, skip}
use micro_config_drive.GNode.{GNode, null, gnode, children}
use micro_config_drive.Shell.{exec_task}
use micro_config_drive.Shell.Batch.{exec_all, Runs}
use micro_config_drive.Boot.{is_first_boot}
use micro_config_drive.Modules.Commands.{
  runcmd_items, runcmd_handler, fbootcmd_items, fbootcmd_handler,
}

-- An item of a block: a list of words, or a text that stands directly in the block.
pub data Entry : Type 0 where
  words : List Bytes → Entry
  word : Bytes → Entry

abbrev pub scalars : List Bytes → GNode → GNode
scalars [] rest = rest
scalars (w ∷ ws) rest = gnode (some w) null (scalars ws rest)

-- The nodes of a block.
abbrev pub block : List Entry → GNode
block [] = null
block (words ws ∷ es) = gnode none (scalars ws null) (block es)
block (word w ∷ es) = gnode (some w) null (block es)

-- Words joined, each with a blank behind it.
abbrev pub join : List Bytes → Bytes
join [] = []
join (w ∷ ws) = (w ++ str " ") ++ join ws

-- The command lines of a block, with the text that waits for the next list in front.
abbrev pub command_lines : Bytes → List Entry → List Bytes
command_lines waiting [] = []
command_lines waiting (words ws ∷ es) = (waiting ++ join ws) ∷ command_lines [] es
command_lines waiting (word w ∷ es) = command_lines (waiting ++ (w ++ str " ")) es

abbrev pub itself : Bytes → Bytes
itself line = line

runcmd_items-scalars :
    (os : Os) (ws : List Bytes) (line : Bytes) (w : World)
    → runcmd_items os line (scalars ws null) w ≡ (line ++ join ws, w)
unfolding runcmd_items
runcmd_items-scalars os [] line w = rw append-nil
runcmd_items-scalars os (x ∷ xs) line w =
    runcmd_items-scalars os xs (line ++ (x ++ str " ")) w
    ∙ rw (append_assoc line (x ++ str " ") (join xs))

runcmd_items-block :
    (os : Os) (es : List Entry) (line : Bytes) (w : World)
    → (do runcmd_items os line (block es); skip) w
      ≡ exec_all os (map itself (command_lines line es)) w
unfolding runcmd_items exec_all
runcmd_items-block os [] line w = refl
runcmd_items-block os (words ws ∷ es) line w =
    rw (runcmd_items-scalars os ws line w)
      (runcmd_items-block os es [] (exec_task os (line ++ join ws) w).1)
runcmd_items-block os (word x ∷ es) line w = runcmd_items-block os es (line ++ (x ++ str " ")) w

-- `runcmd` runs one command for each list of its block, in order: the words of the list, each with a
-- blank behind it, behind those texts of the block that stand between the list and the one before it.
pub runcmd_handler-Runs :
    (os : Os) (d : Option Bytes) (es : List Entry) (n : GNode)
    → Runs os itself (runcmd_handler os (gnode d (block es) n)) (command_lines [] es)
unfolding runcmd_handler
runcmd_handler-Runs os d es n = record { runs = fun_ext (runcmd_items-block os es []) }

command_lines-words :
    (es : List Entry) (ws : List Bytes) (waiting : Bytes)
    → command_lines waiting (es ++ map word ws) ≡ command_lines waiting es
command_lines-words [] [] waiting = refl
command_lines-words [] (w ∷ ws) waiting = command_lines-words [] ws (waiting ++ (w ++ str " "))
command_lines-words (words ws' ∷ es) ws waiting = rw (command_lines-words es ws [])
command_lines-words (word w ∷ es) ws waiting = command_lines-words es ws (waiting ++ (w ++ str " "))

-- Texts that no list follows are never run: behind any items they add no command.
pub runcmd_handler-words :
    (os : Os) (d : Option Bytes) (es : List Entry) (ws : List Bytes) (n : GNode)
    → Runs os itself
        (runcmd_handler os (gnode d (block (es ++ map word ws)) n))
        (command_lines [] es)
runcmd_handler-words os d es ws n =
    rw (command_lines-words es ws []) at (runcmd_handler-Runs os d (es ++ map word ws) n)

fbootcmd_items-eq :
    (os : Os) (n : GNode) (line : Bytes) (w : World)
    → fbootcmd_items os line n w ≡ runcmd_items os line n w
unfolding fbootcmd_items runcmd_items
fbootcmd_items-eq os null line w = refl
fbootcmd_items-eq os (gnode none c n) line w = rw (fbootcmd_items-eq os c line w) (
    let (collected, v) = runcmd_items os line c w in
    fbootcmd_items-eq os n [] (exec_task os collected v).1)
fbootcmd_items-eq os (gnode (some x) c n) line w = fbootcmd_items-eq os n (line ++ (x ++ str " ")) w

-- `fbootcmd` asks whether this is the first boot, and then does what `runcmd` does, or nothing.
pub fbootcmd_handler-eq :
    (os : Os) (node : GNode)
    → fbootcmd_handler os node
      ≡ (do first ← is_first_boot os; if first then runcmd_handler os node else skip)
unfolding fbootcmd_handler runcmd_handler
fbootcmd_handler-eq os node = rw (fun_ext (fbootcmd_items-eq os (children node) []))
