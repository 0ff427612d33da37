-- ===== src/Agent/Upload/Tests.antt =====
-- Archives: one whose only root directory is stripped, and one that reaches into a neighbour.
use craft_stack.Prelude.{none, ◌≡◌, ◌⊎◌, refl, List, [], ◌∷◌, Text, codes, true, false, some, same}
use craft_stack.Prelude.Dict.{get, put}
use craft_stack.GoText.{has_prefix, has_suffix, contains_byte, split, before, to_lower}
use craft_stack.GoPath.{join, clean, dir}
use craft_stack.Agent.Upload.Zip.{
  ZipEntry, DirectoryAnswers, roots_of, strip_prefix, all_same, copy_entry, extract_file,
  extract_at, extract_entry, extract_entries, extract_server_zip,
}
use craft_stack.Agent.Upload.Extracted.{extract_server_zip-inside}

abbrev willing : DirectoryAnswers
willing = record { make_dir = λ _. true; open_file = λ _. true; write_file = λ _. none }

abbrev entry : Text → Text → ZipEntry
entry name content = record { name = name; is_dir = false; contents = some content }

abbrev packed : List ZipEntry
packed = entry (codes "srv/paper.jar") (codes "J") ∷ entry (codes "srv/cfg/a") (codes "A") ∷ []

unpacked : extract_server_zip willing packed (codes "servers/m") [] ≡ (
  true,
  record {
    files = (codes "servers/m/paper.jar", codes "J") ∷ (codes "servers/m/cfg/a", codes "A") ∷ [];
    detected_jar = codes "paper.jar";
  },
)
unfolding extract_server_zip extract_entries extract_entry extract_at extract_file copy_entry
    roots_of strip_prefix all_same has_prefix has_suffix contains_byte split before to_lower join
    clean dir same put
unpacked = refl

-- A target that is the beginning of another directory's name lets an archive write there.
neighbour :
    (extract_server_zip willing
      (entry (codes "../mc2/x") (codes "X") ∷ entry (codes "y") [] ∷ [])
      (codes "servers/mc")
      []).1.files
    ≡ (codes "servers/mc2/x", codes "X") ∷ (codes "servers/mc/y", []) ∷ []
unfolding extract_server_zip extract_entries extract_entry extract_at extract_file copy_entry
    roots_of strip_prefix all_same has_prefix has_suffix contains_byte split before to_lower join
    clean dir same put
neighbour = refl

extract_server_zip-inside_example :
    (get
        (extract_server_zip willing packed (codes "servers/m") []).1.files
        (codes "servers/m/cfg/a")
      ≡ get [] (codes "servers/m/cfg/a"))
    ⊎ (has_prefix (clean (codes "servers/m/cfg/a")) (clean (codes "servers/m")) ≡ true)
extract_server_zip-inside_example =
    extract_server_zip-inside willing packed (codes "servers/m") [] (codes "servers/m/cfg/a")
