-- ===== src/Agent/PushFile/Received.antt =====
-- A file that arrives whole.
use mathlib.Core.Path.{subst}
use craft_stack.Prelude.{
  ℕ, ◌≡◌, ◌≢◌, refl, sym, ap, ◌∙◌, Bool, Option, if◌then◌else◌, List, [], ◌∷◌, ◌++◌, append-nil,
  append_assoc, Text, true, false, not, ◌&&◌, ◌⊎◌, inl, inr, none, some, same, same_iff, same_self,
  arith,
}
use craft_stack.Prelude.Dict.{Dict, get, put, get-put, get-put_self, get-remove}
use craft_stack.Agent.PushFile.{
  FileMetadata, FileChunk, renamed, copied, DiskAnswers, success, PushReply, tmp_path, final_path,
  receiving, finish, move_file, receive, push_file,
}

-- The data of later chunks
abbrev pub later : Text → FileChunk
later d = record { metadata = none; chunk_data = d; is_last = false }

abbrev pub first : FileMetadata → Text → FileChunk
first m d = record { metadata = some m; chunk_data = d; is_last = false }

abbrev pub all_later : List Text → List FileChunk
all_later [] = []
all_later (d ∷ ds) = later d ∷ all_later ds

-- A file in chunks: the metadata with the first, and the last one marked or not
abbrev is_empty : List Text → Bool
is_empty [] = true
is_empty (d ∷ ds) = false

abbrev pub marked : Bool → Option FileMetadata → Text → List Text → FileChunk
marked mark m d ds = record { metadata = m; chunk_data = d; is_last = is_empty ds && mark }

abbrev pub all_marked : Bool → List Text → List FileChunk
all_marked mark [] = []
all_marked mark (d ∷ ds) = marked mark none d ds ∷ all_marked mark ds

all_unmarked : (ds : List Text) → all_marked false ds ≡ all_later ds
all_unmarked [] = refl
all_unmarked (d ∷ []) = refl
all_unmarked (d ∷ e ∷ ds) = ap (◌∷◌ (later d)) (all_unmarked (e ∷ ds))

first_unmarked :
    (m : FileMetadata) (d : Text) (ds : List Text) → marked false (some m) d ds ≡ first m d
first_unmarked m d [] = refl
first_unmarked m d (e ∷ ds) = refl

abbrev pub concat : List Text → Text
concat [] = []
concat (d ∷ ds) = d ++ concat ds

-- The disk does what it is asked to.
pub record IsWorking (d : DiskAnswers) : Type 0 where
  pub dirs : d.make_dir ≡ true
  pub files : d.create ≡ true
  pub writes : (bytes : Text) → d.write bytes ≡ true
  pub moves : (d.move ≡ renamed) ⊎ (d.move ≡ copied)

module _ (hash : Text → Text) (base_dir : Text) where
  pub record Arrived (m : FileMetadata) (bytes : Text) (before : Dict Text) (r : PushReply)
      : Type 0 where
    pub ok : r.0 ≡ success (hash bytes) m.sync_id
    pub stored : get r.1 (final_path base_dir m) ≡ some bytes
    pub tmp_gone : get r.1 (tmp_path base_dir m) ≡ none
    pub others :
        (k : Text) → k ≢ final_path base_dir m → k ≢ tmp_path base_dir m → get r.1 k ≡ get before k

apart : (k j : Text) → k ≢ j → same j k ≡ false
apart k j n = ground (arith, same_iff j k)

module _ (hash : Text → Text) (base_dir : Text) (d : DiskAnswers) where
  renamed-Arrived :
      (m : FileMetadata) (bytes : Text) (before files : Dict Text)
      → tmp_path base_dir m ≢ final_path base_dir m
      → ((k : Text) → k ≢ tmp_path base_dir m → get files k ≡ get before k)
      → Arrived hash base_dir m bytes before (move_file hash base_dir d m bytes files renamed)
  unfolding move_file
  renamed-Arrived m bytes before files ne agree = record {
    ok = refl;
    stored = get-put_self _ _ _;
    tmp_gone = rw (get-put, apart _ _ ne, get-remove, same_self (tmp_path base_dir m)) refl;
    others = λ k nf nt. rw (get-put, apart _ _ nf, get-remove, apart _ _ nt) (agree k nt);
  }

  copied-Arrived :
      (m : FileMetadata) (bytes : Text) (before files : Dict Text)
      → tmp_path base_dir m ≢ final_path base_dir m
      → ((k : Text) → k ≢ tmp_path base_dir m → get files k ≡ get before k)
      → Arrived hash base_dir m bytes before (move_file hash base_dir d m bytes files copied)
  unfolding move_file
  copied-Arrived m bytes before files ne agree = record {
    ok = refl;
    stored = rw (get-remove, apart _ _ (λ e. ne (sym e)), get-put_self) refl;
    tmp_gone = rw (get-remove, same_self (tmp_path base_dir m)) refl;
    others = λ k nf nt. rw (get-remove, apart _ _ nt, get-put, apart _ _ nf) (agree k nt);
  }

  finish-Arrived :
      (m : FileMetadata) (bytes : Text) (before files : Dict Text)
      → IsWorking d
      → tmp_path base_dir m ≢ final_path base_dir m
      → ((m.file_hash ≡ []) ⊎ (m.file_hash ≡ hash bytes))
      → ((k : Text) → k ≢ tmp_path base_dir m → get files k ≡ get before k)
      → Arrived hash base_dir m bytes before (finish hash base_dir d (receiving m bytes) files)
  unfolding finish
  finish-Arrived m bytes before files w ne h agree = rw checked (elim w.moves [
    | inl e ↦
        subst
          (λ a. Arrived hash base_dir m bytes before (move_file hash base_dir d m bytes files a))
          (sym e) (renamed-Arrived m bytes before files ne agree)
    | inr e ↦
        subst
          (λ a. Arrived hash base_dir m bytes before (move_file hash base_dir d m bytes files a))
          (sym e) (copied-Arrived m bytes before files ne agree)
  ])
    where
      checked : (not (same m.file_hash []) && not (same (hash bytes) m.file_hash)) ≡ false
      checked = ground (arith, same_iff m.file_hash [], same_iff (hash bytes) m.file_hash)

  put-agrees :
      (m : FileMetadata) (bytes : Text) (before files : Dict Text)
      → ((k : Text) → k ≢ tmp_path base_dir m → get files k ≡ get before k)
      → (k : Text) → k ≢ tmp_path base_dir m
      → get (put files (tmp_path base_dir m) bytes) k ≡ get before k
  put-agrees m bytes before files agree k n = rw (get-put, apart _ _ n) (agree k n)

  module _ (mark eof : Bool) (ends : (mark ≡ true) ⊎ (eof ≡ true)) (m : FileMetadata) where
    -- The loop behind a chunk, where the data `ds` are still to come
    abbrev after : Text → Dict Text → List Text → PushReply
    after bytes files ds =
        if is_empty ds && mark
        then finish hash base_dir d (receiving m bytes) files
        else receive hash base_dir d (all_marked mark ds) eof (receiving m bytes) files

    write_step :
        (bytes : Text) (files : Dict Text) (c : ℕ) (x : Text) (ds : List Text)
        → d.write bytes ≡ true
        → after bytes files ((c ∷ x) ∷ ds)
          ≡ after (bytes ++ c ∷ x) (put files (tmp_path base_dir m) (bytes ++ c ∷ x)) ds
    unfolding receive same
    write_step bytes files c x ds w = rw w

    empty_step :
        (bytes : Text) (files : Dict Text) (ds : List Text)
        → after bytes files ([] ∷ ds) ≡ after bytes files ds
    unfolding receive same
    empty_step bytes files ds = refl

    last_step :
        (bytes : Text) (files : Dict Text)
        → after bytes files [] ≡ finish hash base_dir d (receiving m bytes) files
    unfolding receive
    last_step bytes files = ground (arith, ends)

    receive-Arrived :
        (ds : List Text) (bytes : Text) (before files : Dict Text)
        → IsWorking d
        → tmp_path base_dir m ≢ final_path base_dir m
        → ((m.file_hash ≡ []) ⊎ (m.file_hash ≡ hash (bytes ++ concat ds)))
        → ((k : Text) → k ≢ tmp_path base_dir m → get files k ≡ get before k)
        → Arrived hash base_dir m (bytes ++ concat ds) before (after bytes files ds)
    receive-Arrived [] bytes before files w ne h agree =
        rw (last_step bytes files, append-nil bytes)
          (finish-Arrived m bytes before files w ne (rw (append-nil bytes) at h) agree)
    receive-Arrived ([] ∷ ds) bytes before files w ne h agree =
        rw (empty_step bytes files ds) (receive-Arrived ds bytes before files w ne h agree)
    receive-Arrived ((c ∷ x) ∷ ds) bytes before files w ne h agree =
        rw
          (
            write_step bytes files c x ds (w.writes bytes),
            sym (append_assoc bytes (c ∷ x) (concat ds)),
          )
          (receive-Arrived ds (bytes ++ c ∷ x) before _ w ne
            (rw (sym (append_assoc bytes (c ∷ x) (concat ds))) at h)
            (put-agrees m (bytes ++ c ∷ x) before files agree))

    open_step :
        (x : Text) (ds : List Text) (files : Dict Text)
        → IsWorking d
        → push_file hash base_dir d (marked mark (some m) x ds ∷ all_marked mark ds) eof files
          ≡ after [] (put files (tmp_path base_dir m) []) (x ∷ ds)
    unfolding push_file receive
    open_step x ds files w = rw (w.dirs, w.files)

  -- On a disk that works, and where the path of the temporary file is not the final one, a file that
  -- comes in any number of chunks, the metadata with the first, the last one marked as the last or the
  -- stream ended behind it, and with no hash or the right one, is answered with success and its hash;
  -- the final path then holds the whole file, the temporary file is gone, and every other path is as it
  -- was.
  pub push_file-Arrived :
      (mark eof : Bool) (m : FileMetadata) (x : Text) (xs : List Text) (files : Dict Text)
      → ((mark ≡ true) ⊎ (eof ≡ true))
      → IsWorking d
      → tmp_path base_dir m ≢ final_path base_dir m
      → ((m.file_hash ≡ []) ⊎ (m.file_hash ≡ hash (x ++ concat xs)))
      → Arrived hash base_dir m
          (x ++ concat xs)
          files
          (push_file hash base_dir d (marked mark (some m) x xs ∷ all_marked mark xs) eof files)
  push_file-Arrived mark eof m x xs files ends w ne h =
      rw (open_step mark eof ends m x xs files w) (
        receive-Arrived mark eof ends m (x ∷ xs) [] files _ w ne h
          (put-agrees m [] files files (λ k n. refl)))

  -- The same for chunks none of which is marked, as the master sends them
  pub push_file-unmarked :
      (m : FileMetadata) (x : Text) (xs : List Text) (files : Dict Text)
      → IsWorking d
      → tmp_path base_dir m ≢ final_path base_dir m
      → ((m.file_hash ≡ []) ⊎ (m.file_hash ≡ hash (x ++ concat xs)))
      → Arrived hash base_dir m
          (x ++ concat xs)
          files
          (push_file hash base_dir d (first m x ∷ all_later xs) true files)
  push_file-unmarked m x xs files w ne h =
      subst
        (λ cs.
          Arrived hash base_dir m (x ++ concat xs) files (push_file hash base_dir d cs true files))
        (ap (λ c. c ∷ all_marked false xs) (first_unmarked m x xs)
          ∙ ap (◌∷◌ (first m x)) (all_unmarked xs))
        (push_file-Arrived false true m x xs files (inr refl) w ne h)
