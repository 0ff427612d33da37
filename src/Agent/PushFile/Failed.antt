-- ===== src/Agent/PushFile/Failed.antt =====
-- What a push that does not succeed leaves on the disk.
use craft_stack.Prelude.{
  ◌≡◌, ◌≢◌, ◌∙◌, refl, List, [], ◌∷◌, ◌++◌, Text, Bool, true, false, Option, none, some, same_iff,
  arith, if◌then◌else◌,
}
use craft_stack.Prelude.Dict.{Dict, get, put, remove, get-put, get-remove}
use craft_stack.Agent.PushFile.{
  FileMetadata, FileChunk, MoveAnswer, renamed, copied, not_copied, DiskAnswers, internal,
  failed_precondition, invalid_argument, data_loss, success, PushReply, tmp_path, Phase, waiting,
  receiving, finish, move_file, open_file, write_data, receive, push_file,
}

-- A failed reply keeps the path `k`.
abbrev pub FailKeeps : Text → Dict Text → PushReply → Type 0
FailKeeps k files (success h id, files') = Unit
FailKeeps k files (_, files') = get files' k ≡ get files k

-- `k` is not the temporary path of the metadata.
abbrev pub IsOther : Text → Text → Option FileMetadata → Type 0
IsOther base_dir k none = Unit
IsOther base_dir k (some m) = k ≢ tmp_path base_dir m

-- ... of the first chunk
abbrev pub IsApart : Text → Text → List FileChunk → Type 0
IsApart base_dir k [] = Unit
IsApart base_dir k (c ∷ cs) = IsOther base_dir k c.metadata

FailKeeps-trans :
    (k : Text) (files files' : Dict Text) (r : PushReply)
    → get files' k ≡ get files k
    → FailKeeps k files' r
    → FailKeeps k files r
FailKeeps-trans k files files' (internal, g) e h = h ∙ e
FailKeeps-trans k files files' (failed_precondition, g) e h = h ∙ e
FailKeeps-trans k files files' (invalid_argument, g) e h = h ∙ e
FailKeeps-trans k files files' (data_loss, g) e h = h ∙ e
FailKeeps-trans k files files' (success x y, g) e h = tt

module _ (hash : Text → Text) (base_dir : Text) (d : DiskAnswers) (k : Text)
    (whole : (left : Option Text) → d.move ≢ not_copied left) where
  abbrev OtherPhase : Phase → Type 0
  OtherPhase waiting = Unit
  OtherPhase (receiving m bytes) = k ≢ tmp_path base_dir m

  keeps_put : (files : Dict Text) (j v : Text) → k ≢ j → get (put files j v) k ≡ get files k
  keeps_put files j v n = ground (arith, get-put files j k v, same_iff j k)

  keeps_remove : (files : Dict Text) (j : Text) → k ≢ j → get (remove files j) k ≡ get files k
  keeps_remove files j n = ground (arith, get-remove files j k, same_iff j k)

  move-FailKeeps :
      (m : FileMetadata) (bytes : Text) (files : Dict Text) (a : MoveAnswer)
      → ((left : Option Text) → a ≢ not_copied left)
      → FailKeeps k files (move_file hash base_dir d m bytes files a)
  unfolding move_file
  move-FailKeeps m bytes files renamed h = tt
  move-FailKeeps m bytes files copied h = tt
  move-FailKeeps m bytes files (not_copied left) h = absurd (h left refl)

  finish-FailKeeps :
      (p : Phase) (files : Dict Text)
      → OtherPhase p
      → FailKeeps k files (finish hash base_dir d p files)
  unfolding finish
  finish-FailKeeps waiting files o = refl
  finish-FailKeeps (receiving m bytes) files o =
      ground (
        arith,
        move-FailKeeps m bytes files d.move whole,
        keeps_remove files (tmp_path base_dir m) o,
      )

  -- Every way to go on from an open file keeps `k`.
  abbrev RestKeeps : (Phase → Dict Text → PushReply) → Type 0
  RestKeeps rest =
      (m : FileMetadata) (bytes : Text) (files : Dict Text)
      → k ≢ tmp_path base_dir m
      → FailKeeps k files (rest (receiving m bytes) files)

  write-FailKeeps :
      (rest : Phase → Dict Text → PushReply)
      → RestKeeps rest
      → (c : FileChunk) (m : FileMetadata) (bytes : Text) (files : Dict Text)
      → k ≢ tmp_path base_dir m
      → FailKeeps k files (write_data hash base_dir d rest c m bytes files)
  unfolding write_data
  write-FailKeeps rest h c m bytes files n = ground (
    arith,
    h m bytes files n,
    FailKeeps-trans k files (put files (tmp_path base_dir m) (bytes ++ c.chunk_data)) _
        (keeps_put files (tmp_path base_dir m) (bytes ++ c.chunk_data) n)
        (h m (bytes ++ c.chunk_data) (put files (tmp_path base_dir m) (bytes ++ c.chunk_data)) n),
    keeps_remove files (tmp_path base_dir m) n,
  )

  open-FailKeeps :
      (rest : Phase → Dict Text → PushReply)
      → RestKeeps rest
      → (c : FileChunk) (o : Option FileMetadata) (files : Dict Text) → IsOther base_dir k o
      → FailKeeps k files (open_file hash base_dir d rest c o files)
  unfolding open_file
  open-FailKeeps rest h c none files n = refl
  open-FailKeeps rest h c (some m) files n = ground (
    arith,
    FailKeeps-trans k files (put files (tmp_path base_dir m) []) _
        (keeps_put files (tmp_path base_dir m) [] n)
        (write-FailKeeps rest h c m [] (put files (tmp_path base_dir m) []) n),
  )

  last_or :
      (files : Dict Text) (r r' : PushReply) (b : Bool)
      → FailKeeps k files r
      → FailKeeps k files r'
      → FailKeeps k files (if b then r else r')
  last_or files r r' true h h' = h
  last_or files r r' false h h' = h'

  receiving-FailKeeps :
      (cs : List FileChunk) (eof : Bool) → RestKeeps (receive hash base_dir d cs eof)
  unfolding receive
  receiving-FailKeeps [] true m bytes files n = finish-FailKeeps (receiving m bytes) files n
  receiving-FailKeeps [] false m bytes files n = keeps_remove files (tmp_path base_dir m) n
  receiving-FailKeeps (c ∷ cs) eof m bytes files n =
      write-FailKeeps
        (λ p f.
          if c.is_last then finish hash base_dir d p f else receive hash base_dir d cs eof p f)
        (λ m' bytes' files' n'.
          last_or files' _ _ c.is_last (finish-FailKeeps (receiving m' bytes') files' n')
            (receiving-FailKeeps cs eof m' bytes' files' n'))
        c m bytes files n

  push_file-FailKeeps :
      (cs : List FileChunk) (eof : Bool) (files : Dict Text)
      → IsApart base_dir k cs
      → FailKeeps k files (push_file hash base_dir d cs eof files)
  unfolding push_file receive
  push_file-FailKeeps [] true files n = refl
  push_file-FailKeeps [] false files n = refl
  push_file-FailKeeps (c ∷ cs) eof files n =
      open-FailKeeps
        (λ p f.
          if c.is_last then finish hash base_dir d p f else receive hash base_dir d cs eof p f)
        (λ m' bytes' files' n'.
          last_or files' _ _ c.is_last (finish-FailKeeps (receiving m' bytes') files' n')
            (receiving-FailKeeps cs eof m' bytes' files' n'))
        c c.metadata files n

  -- Where the move does not end in a failed copy, a push that is not answered with success leaves
  -- every path as it was but for the temporary one, whatever the chunks, where the stream breaks off
  -- and which calls fail: the final path is never left with a part of the file.
  pub push_file-failed :
      (cs : List FileChunk) (eof : Bool) (files : Dict Text)
      → IsApart base_dir k cs
      → ((h i : Text) → (push_file hash base_dir d cs eof files).0 ≢ success h i)
      → get (push_file hash base_dir d cs eof files).1 k ≡ get files k
  push_file-failed cs eof files n f =
      failed-keeps (push_file hash base_dir d cs eof files) (push_file-FailKeeps cs eof files n) f
    where
      failed-keeps :
          (r : PushReply)
          → FailKeeps k files r
          → ((h i : Text) → r.0 ≢ success h i)
          → get r.1 k ≡ get files k
      failed-keeps (internal, g) h f = h
      failed-keeps (failed_precondition, g) h f = h
      failed-keeps (invalid_argument, g) h f = h
      failed-keeps (data_loss, g) h f = h
      failed-keeps (success x y, g) h f = absurd (f x y refl)
