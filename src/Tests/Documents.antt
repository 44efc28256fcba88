-- ===== src/Tests/Documents.antt =====
-- Documents for the parser, and the values of options.
use micro_config_drive.Base.{str, none, some, [], ◌∷◌, ◌≡◌, arith}
use micro_config_drive.GNode.{null, gnode}
use micro_config_drive.Yaml.{mapping_start, mapping_end, stream_end, ignored, parse_file}
use micro_config_drive.Yaml.Documents.{
  Entries, end, entry, entry_list, nil, text, list, entry_events, entry_nodes, entry_size,
  item_size, parse_file_document,
}

-- `hostname: clear`, and `runcmd` with a list and a text.
abbrev document : Entries
document = entry (str "hostname") (str "clear") (
    entry_list (str "runcmd")
      (list (text (str "touch") (text (str "/x") nil)) (text (str "ls") nil)) end)

parse_file_document_example :
    parse_file 40 (str "user-data") (
      ignored
      ∷ (ignored
          ∷ (mapping_start ∷ entry_events document (mapping_end ∷ (ignored ∷ (stream_end ∷ []))))))
    ≡ some (gnode (some (str "user-data")) (gnode none (entry_nodes document) null) null)
unfolding entry_size item_size
parse_file_document_example = parse_file_document document 40 (str "user-data") (omega arith)
