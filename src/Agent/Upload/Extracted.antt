-- ===== src/Agent/Upload/Extracted.antt =====
-- internal/agent/util.go: where extractServerZip writes.
use craft_stack.Prelude.{
  ◌≡◌, refl, ◌∙◌, List, [], ◌∷◌, Text, true, ◌&&◌, Option, none, some, inl, inr, ◌⊎◌, same,
  same_iff, Bool-cases, drop, length,
}
use craft_stack.Prelude.Dict.{Dict, get, put, get-put}
use craft_stack.GoText.{has_prefix}
use craft_stack.GoPath.{join, clean, dir}
use craft_stack.Agent.Upload.Zip.{
  ZipEntry, DirectoryAnswers, Extraction, extract_file, copy_entry, extract_at, extract_entry,
  extract_entries, extract_server_zip, strip_prefix, roots_of,
}

-- The files are the same but for those whose clean path starts with that of the target.
abbrev KeepsOutside : Text → Dict Text → Dict Text → Type 0
KeepsOutside target old new =
    (p : Text) → (get new p ≡ get old p) ⊎ (has_prefix (clean p) (clean target) ≡ true)

put-KeepsOutside :
    (target dest c : Text) (files : Dict Text)
    → has_prefix (clean dest) (clean target) ≡ true
    → KeepsOutside target files (put files dest c)
put-KeepsOutside target dest c files h p = elim (Bool-cases (same dest p)) [
  | inl t ↦ let e : dest ≡ p = (same_iff dest p).0 t in inr (rw (← e) h)
  | inr f ↦ inl (simp (get-put, f))
]

module _ (ans : DirectoryAnswers) (target : Text) where
  extract_file-KeepsOutside :
      (name dest : Text) (o : Option Text) (x : Extraction)
      → has_prefix (clean dest) (clean target) ≡ true
      → KeepsOutside target x.files (extract_file ans name dest o x).1.files
  unfolding extract_file copy_entry
  extract_file-KeepsOutside name dest none x h p = inl refl
  extract_file-KeepsOutside name dest (some c) x h p =
      elim (Bool-cases (ans.make_dir (dir dest) && ans.open_file dest)) [
        | inr f ↦ rw f (inl refl)
        | inl t ↦ rw t (copied (ans.write_file dest) p)
      ]
    where
      copied : (o : Option Text) → KeepsOutside target x.files (copy_entry name dest c x o).1.files
      copied none = put-KeepsOutside target dest c x.files h
      copied (some part) = put-KeepsOutside target dest part x.files h

  extract_at-KeepsOutside :
      (e : ZipEntry) (name : Text) (x : Extraction)
      → KeepsOutside target x.files (extract_at ans target e name x).1.files
  unfolding extract_at
  extract_at-KeepsOutside e name x p = elim (Bool-cases (same name [])) [
    | inl t ↦ rw t (inl refl)
    | inr f ↦ elim (Bool-cases (has_prefix (clean (join target name)) (clean target))) [
      | inr g ↦ rw (f, g) (inl refl)
      | inl h ↦ elim (Bool-cases e.is_dir) [
        | inl d ↦ rw (f, h, d) (inl refl)
        | inr d ↦ rw (f, h, d) (extract_file-KeepsOutside name (join target name) e.contents x h p)
      ]
    ]
  ]

  extract_entry-KeepsOutside :
      (prefix : Text) (e : ZipEntry) (x : Extraction)
      → KeepsOutside target x.files (extract_entry ans target prefix e x).1.files
  unfolding extract_entry
  extract_entry-KeepsOutside prefix e x p = elim (Bool-cases (same prefix [])) [
    | inl t ↦ rw t (extract_at-KeepsOutside e e.name x p)
    | inr f ↦ elim (Bool-cases (has_prefix e.name prefix)) [
      | inl h ↦ rw (f, h) (extract_at-KeepsOutside e (drop (length prefix) e.name) x p)
      | inr g ↦ rw (f, g) (inl refl)
    ]
  ]

  extract_entries-KeepsOutside :
      (prefix : Text) (es : List ZipEntry) (x : Extraction)
      → KeepsOutside target x.files (extract_entries ans target prefix es x).1.files
  unfolding extract_entries
  extract_entries-KeepsOutside prefix [] x p = inl refl
  extract_entries-KeepsOutside prefix (e ∷ es) x p =
      elim (Bool-cases (extract_entry ans target prefix e x).0) [
        | inr f ↦ rw f (extract_entry-KeepsOutside prefix e x p)
        | inl t ↦ rw t (
            both (extract_entries-KeepsOutside prefix es (extract_entry ans target prefix e x).1 p)
              (extract_entry-KeepsOutside prefix e x p))
      ]
    where
      both : {a b c : Option Text} {Q : Type 0} → (a ≡ b) ⊎ Q → (b ≡ c) ⊎ Q → (a ≡ c) ⊎ Q
      both (inr q) h = inr q
      both (inl e) (inr q) = inr q
      both (inl e) (inl e') = inl (e ∙ e')

-- Whatever an archive contains, and whether or not its extraction succeeds, a file that differs
-- afterwards has a path that, once clean, starts with the clean path of the target directory.
pub extract_server_zip-inside :
    (ans : DirectoryAnswers) (entries : List ZipEntry) (target : Text) (files : Dict Text)
    (p : Text)
    → (get (extract_server_zip ans entries target files).1.files p ≡ get files p)
      ⊎ (has_prefix (clean p) (clean target) ≡ true)
unfolding extract_server_zip
extract_server_zip-inside ans entries target files p =
    extract_entries-KeepsOutside ans target (strip_prefix (roots_of entries)) entries
      (record { files = files; detected_jar = [] }) p
