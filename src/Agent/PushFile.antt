-- ===== src/Agent/PushFile.antt =====
-- PushFile of internal/agent/grpc_sync_service.go: an agent takes a file in chunks. The disk is a
-- map from paths to contents, and the answers of the calls that may fail are arguments. SHA-256 is a
-- parameter, a function of the bytes. The two numbers of a chunk are left out: PushFile does not read them.
pub mod Failed
pub mod Received
use craft_stack.Prelude.{
  ℕ, List, [], ◌∷◌, ◌++◌, Text, codes, Bool, true, false, not, ◌&&◌, Option, none, some, same,
  if◌then◌else◌,
}
use craft_stack.Prelude.Dict.{Dict, put, remove}
use craft_stack.GoPath.{join, dir, base}

pub record FileMetadata : Type 0 where
  pub file_path : Text
  pub file_hash : Text
  pub file_size : ℕ
  pub target_agent_id : Text
  pub sync_id : Text

pub record FileChunk : Type 0 where
  pub metadata : Option FileMetadata
  pub chunk_data : Text
  pub is_last : Bool

-- The move to the final path: renamed, copied, or a copy that failed and what it left there.
pub data MoveAnswer : Type 0 where
  renamed copied : MoveAnswer
  not_copied : Option Text → MoveAnswer

-- Whether MkdirAll and Create succeed, whether a Write behind the given bytes does, and how the move
-- ends
pub record DiskAnswers : Type 0 where
  pub make_dir : Bool
  pub create : Bool
  pub write : Text → Bool
  pub move : MoveAnswer

pub data PushStatus : Type 0 where
  internal failed_precondition invalid_argument data_loss : PushStatus
  success : Text → Text → PushStatus

abbrev pub PushReply : Type 0
PushReply = PushStatus × Dict Text

-- destDir, tmpPath and finalPath
abbrev pub dest_dir : Text → FileMetadata → Text
dest_dir base_dir m = join base_dir (dir m.file_path)

abbrev pub tmp_path : Text → FileMetadata → Text
tmp_path base_dir m = join (dest_dir base_dir m) (codes ".craftstack_tmp_" ++ base m.file_path)

abbrev pub final_path : Text → FileMetadata → Text
final_path base_dir m = join base_dir m.file_path

-- Before the first metadata, or after it with the bytes so far
pub data Phase : Type 0 where
  waiting : Phase
  receiving : FileMetadata → Text → Phase

module _ (hash : Text → Text) (base_dir : Text) (d : DiskAnswers) where
  -- From the rename on; the deferred function removes the temporary file where the copy fails.
  move_file : FileMetadata → Text → Dict Text → MoveAnswer → PushReply
  move_file m bytes files renamed = (
    success (hash bytes) m.sync_id,
    put (remove files (tmp_path base_dir m)) (final_path base_dir m) bytes,
  )
  move_file m bytes files copied = (
    success (hash bytes) m.sync_id,
    remove (put files (final_path base_dir m) bytes) (tmp_path base_dir m),
  )
  move_file m bytes files (not_copied none) = (internal, remove files (tmp_path base_dir m))
  move_file m bytes files (not_copied (some left)) =
      (internal, remove (put files (final_path base_dir m) left) (tmp_path base_dir m))

  -- After the loop
  finish : Phase → Dict Text → PushReply
  unfolding move_file
  finish waiting files = (invalid_argument, files)
  finish (receiving m bytes) files =
      if not (same m.file_hash []) && not (same (hash bytes) m.file_hash)
      then (data_loss, remove files (tmp_path base_dir m))
      else move_file m bytes files d.move

  -- The write of a chunk's data, then the rest of the loop.
  write_data :
      (Phase → Dict Text → PushReply) → FileChunk → FileMetadata → Text → Dict Text → PushReply
  write_data rest c m bytes files =
      if same c.chunk_data []
      then rest (receiving m bytes) files
      else if d.write bytes
      then rest (receiving m (bytes ++ c.chunk_data))
          (put files (tmp_path base_dir m) (bytes ++ c.chunk_data))
      else (internal, remove files (tmp_path base_dir m))

  open_file :
      (Phase → Dict Text → PushReply) → FileChunk → Option FileMetadata → Dict Text → PushReply
  unfolding write_data
  open_file rest c none files = (failed_precondition, files)
  open_file rest c (some m) files =
      if not d.make_dir
      then (internal, files)
      else if not d.create
      then (internal, files)
      else write_data rest c m [] (put files (tmp_path base_dir m) [])

  take_chunk : (Phase → Dict Text → PushReply) → FileChunk → Phase → Dict Text → PushReply
  unfolding open_file write_data
  take_chunk rest c waiting files = open_file rest c c.metadata files
  take_chunk rest c (receiving m bytes) files = write_data rest c m bytes files

  broken : Phase → Dict Text → PushReply
  broken waiting files = (internal, files)
  broken (receiving m bytes) files = (internal, remove files (tmp_path base_dir m))

  -- The loop over the stream, which ends in EOF or in an error of Recv.
  unfoldable pub receive : List FileChunk → Bool → Phase → Dict Text → PushReply
  unfolding finish take_chunk broken
  receive [] true p files = finish p files
  receive [] false p files = broken p files
  receive (c ∷ cs) eof p files =
      take_chunk (λ p' files'. if c.is_last then finish p' files' else receive cs eof p' files') c p
        files

  -- PushFile
  unfoldable pub push_file : List FileChunk → Bool → Dict Text → PushReply
  unfolding receive
  push_file cs eof files = receive cs eof waiting files
