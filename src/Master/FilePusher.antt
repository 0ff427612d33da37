-- ===== src/Master/FilePusher.antt =====
-- internal/master/file_pusher.go and the event handler of internal/master/sync/engine.go: a changed
-- file goes to the agents of its mapping. A file does not change while it is sent. SHA-256 and the ids
-- of the transfers are parameters. os.File.Read fills its buffer, and reports EOF with no bytes.
pub mod Sent
pub mod Delivered
mod Tests
use craft_stack.Prelude.{
  ℕ, zero, suc, ◌*◌, List, [], ◌∷◌, ◌++◌, Text, codes, Bool, true, false, not, ◌&&◌, ◌||◌, Option,
  none, some, same, any, keep, take, drop, length, if◌then◌else◌,
}
use craft_stack.Prelude.Dict.{Dict, get, put}
use craft_stack.GoPath.{join}
use craft_stack.Master.Registry.{TargetAgent}
use craft_stack.Master.Watcher.{EventType, event_delete, FileEvent}
use craft_stack.Agent.PushFile.{
  FileMetadata, FileChunk, DiskAnswers, PushStatus, success, PushReply, push_file,
}

-- The agent at an address: where it keeps its files, how its calls go, and its disk
pub record Host : Type 0 where
  pub base_dir : Text
  pub answers : DiskAnswers
  pub files : Dict Text

pub record SyncRecord : Type 0 where
  pub node_id : Text
  pub file_path : Text
  pub file_size : ℕ
  pub file_hash : Text

-- The agents by address, and the records that were written
pub record Fleet : Type 0 where
  pub hosts : Dict Host
  pub sync_records : List SyncRecord

-- sync.FileInfo, as far as it is read after handleEvent
pub record FileInfo : Type 0 where
  pub rel_path : Text
  pub abs_path : Text
  pub hash : Text

abbrev pub chunk_size : ℕ
chunk_size = 256 * 1024

-- What the reads of a file return, at most `n` of them
unfoldable pub reads : ℕ → Text → List Text
reads zero c = []
reads (suc n) [] = []
reads (suc n) (x ∷ c) = take chunk_size (x ∷ c) ∷ reads n (drop chunk_size (x ∷ c))

abbrev rest_chunks : List Text → List FileChunk
rest_chunks [] = []
rest_chunks (d ∷ ds) = record { metadata = none; chunk_data = d; is_last = false } ∷ rest_chunks ds

-- The chunks of pushFileToAgent: only the first has the metadata.
unfoldable pub chunks : FileMetadata → List Text → List FileChunk
chunks m [] = []
chunks m (d ∷ ds) = record { metadata = some m; chunk_data = d; is_last = false } ∷ rest_chunks ds

-- matchTarget
unfoldable pub match_target : List Text → Text → Text → Bool
match_target targets id name = any (λ t. same t (codes "*") || same t id || same t name) targets

-- The path under which an event's file goes out
unfoldable pub dest_path : FileEvent → Text
dest_path e =
    if not (same e.dest []) && not (same e.dest (codes "."))
    then join e.dest e.rel_path
    else e.rel_path

-- `nil` is true
module _ (hash : Text → Text) (uuid : Text → Text) where
  abbrev pub metadata_for : FileInfo → Text → Text → FileMetadata
  metadata_for file id content = record {
    file_path = file.rel_path;
    file_hash = if same file.hash [] then hash content else file.hash;
    file_size = length content;
    target_agent_id = id;
    sync_id = uuid id;
  }

  record_push : Text → FileMetadata → Host → Text → PushReply → Fleet → Bool × Fleet
  record_push id m h address (success _ _, files) fleet = (
    true,
    record {
      hosts = put fleet.hosts address (record h { files = files });
      sync_records =
          record {
            node_id = id;
            file_path = m.file_path;
            file_size = m.file_size;
            file_hash = m.file_hash;
          }
          ∷ fleet.sync_records;
    },
  )
  record_push id m h address (_, files) fleet =
      (false, record fleet { hosts = put fleet.hosts address (record h { files = files }) })

  send_to : FileInfo → Text → Text → Text → Option Host → Fleet → Bool × Fleet
  unfolding record_push
  send_to file content id address none fleet = (false, fleet)
  send_to file content id address (some h) fleet =
      record_push id (metadata_for file id content) h address
        (push_file hash h.base_dir h.answers
          (chunks (metadata_for file id content) (reads (length content) content)) true h.files)
        fleet

  -- pushFileToAgent, from the opened file on; an agent that is not there is an error of the stream
  unfoldable pub push_file_to_agent : FileInfo → Text → Text → TargetAgent → Fleet → Bool × Fleet
  unfolding send_to
  push_file_to_agent file content id a fleet =
      send_to file content id a.address (get fleet.hosts a.address) fleet

  -- The loop of PushToAgents, with whether all went well
  unfoldable pub push_to_all : FileInfo → Text → Dict TargetAgent → Fleet → Bool × Fleet
  unfolding push_file_to_agent
  push_to_all file content [] fleet = (true, fleet)
  push_to_all file content ((id, a) ∷ agents) fleet =
      let (ok, fleet') = push_file_to_agent file content id a fleet in
      let (all_ok, fleet'') = push_to_all file content agents fleet' in (ok && all_ok, fleet'')

  -- PushToAgents; without an absolute path it is a deletion, which is only logged
  unfoldable pub push_to_agents : FileInfo → Text → Dict TargetAgent → Fleet → Bool × Fleet
  unfolding push_to_all
  push_to_agents file content agents fleet =
      if same file.abs_path [] then (true, fleet) else push_to_all file content agents fleet

  update_all : FileEvent → Dict TargetAgent → Option Text → Fleet → Fleet
  unfolding push_to_agents
  update_all e agents none fleet = fleet
  update_all e agents (some content) fleet =
      (push_to_agents (record { rel_path = dest_path e; abs_path = e.path; hash = hash content })
        content agents fleet).1

  on_event : EventType → FileEvent → Dict TargetAgent → Option Text → Fleet → Fleet
  unfolding update_all push_to_agents
  on_event event_delete e agents content fleet =
      (push_to_agents (record { rel_path = dest_path e; abs_path = []; hash = [] }) [] agents
        fleet).1
  on_event _ e agents content fleet = update_all e agents content fleet

  abbrev pub filtered : FileEvent → Dict TargetAgent → Dict TargetAgent
  filtered e agents = keep (λ a. match_target e.targets a.0 a.1.name) agents

  -- handleEvent, given the content that the path has, if it can be read
  unfoldable pub handle_event : FileEvent → Dict TargetAgent → Option Text → Fleet → Fleet
  unfolding on_event
  handle_event e agents content fleet = on_event e.event_type e (filtered e agents) content fleet
