-- ===== src/Agent/Upload/Zip.antt =====
-- extractServerZip of internal/agent/util.go, on the entries that the archive reader finds.
use craft_stack.Prelude.{
  List, [], ◌∷◌, ◌++◌, Text, codes, Bool, true, false, not, ◌&&◌, Option, none, some, same, drop,
  length, if◌then◌else◌,
}
use craft_stack.Prelude.Dict.{Dict, put}
use craft_stack.GoText.{has_prefix, has_suffix, contains_byte, before, to_lower}
use craft_stack.GoPath.{join, clean, dir}

-- zip.File; without contents it cannot be opened
pub record ZipEntry : Type 0 where
  pub name : Text
  pub is_dir : Bool
  pub contents : Option Text

-- Whether a directory can be made and a file opened, and the part of it that a failed copy leaves
pub record DirectoryAnswers : Type 0 where
  pub make_dir : Text → Bool
  pub open_file : Text → Bool
  pub write_file : Text → Option Text

pub record Extraction : Type 0 where
  pub files : Dict Text
  pub detected_jar : Text

abbrev root_file : Text
root_file = codes "__ROOT_FILE__"

-- The keys of `roots`, in the order of the entries
unfoldable pub roots_of : List ZipEntry → List Text
roots_of [] = []
roots_of (e ∷ es) =
    let rest = roots_of es in
    if contains_byte e.name b'/'
    then before e.name b'/' ∷ rest
    else if e.is_dir
    then rest
    else root_file ∷ rest

unfoldable pub all_same : Text → List Text → Bool
all_same r [] = true
all_same r (s ∷ ss) = same s r && all_same r ss

-- The prefix to strip: the only root directory, if no file lies beside it
unfoldable pub strip_prefix : List Text → Text
unfolding all_same
strip_prefix [] = []
strip_prefix (r ∷ rs) = if all_same r rs && not (same r root_file) then r ++ b'/' ∷ [] else []

abbrev pub is_jar : Text → Bool
is_jar name = has_suffix (to_lower name) (codes ".jar") && not (contains_byte name b'/')

abbrev pub detect : Text → Text → Text
detect name jar = if is_jar name then name else jar

-- The copy, which may fail and leave a part
unfoldable pub copy_entry : Text → Text → Text → Extraction → Option Text → Bool × Extraction
copy_entry name dest c x none =
    (true, record { files = put x.files dest c; detected_jar = detect name x.detected_jar })
copy_entry name dest c x (some part) = (false, record x { files = put x.files dest part })

-- An entry that is a file, at its destination
unfoldable pub extract_file :
    DirectoryAnswers → Text → Text → Option Text → Extraction → Bool × Extraction
unfolding copy_entry
extract_file ans name dest none x = (false, x)
extract_file ans name dest (some c) x =
    if ans.make_dir (dir dest) && ans.open_file dest
    then copy_entry name dest c x (ans.write_file dest)
    else (false, x)

-- An entry under its stripped name; a path that leads out of the target is passed over
unfoldable pub extract_at :
    DirectoryAnswers → Text → ZipEntry → Text → Extraction → Bool × Extraction
unfolding extract_file
extract_at ans target e name x =
    if same name []
    then (true, x)
    else if has_prefix (clean (join target name)) (clean target)
    then if e.is_dir
      then (ans.make_dir (join target name), x)
      else extract_file ans name (join target name) e.contents x
    else (true, x)

-- One round of the loop
unfoldable pub extract_entry :
    DirectoryAnswers → Text → Text → ZipEntry → Extraction → Bool × Extraction
unfolding extract_at
extract_entry ans target prefix e x =
    if same prefix []
    then extract_at ans target e e.name x
    else if has_prefix e.name prefix
    then extract_at ans target e (drop (length prefix) e.name) x
    else (true, x)

-- The loop, which stops at the first error
unfoldable pub extract_entries :
    DirectoryAnswers → Text → Text → List ZipEntry → Extraction → Bool × Extraction
unfolding extract_entry
extract_entries ans target prefix [] x = (true, x)
extract_entries ans target prefix (e ∷ es) x =
    let (ok, x') = extract_entry ans target prefix e x in
    let rest = extract_entries ans target prefix es x' in if ok then rest else (false, x')

-- extractServerZip
unfoldable pub extract_server_zip :
    DirectoryAnswers → List ZipEntry → Text → Dict Text → Bool × Extraction
unfolding extract_entries roots_of strip_prefix
extract_server_zip ans entries target files =
    extract_entries ans target (strip_prefix (roots_of entries)) entries
      (record { files = files; detected_jar = [] })
