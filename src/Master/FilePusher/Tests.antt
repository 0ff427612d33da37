-- ===== src/Master/FilePusher/Tests.antt =====
-- Runs of a transfer, with a stand-in for SHA-256.
use craft_stack.Prelude.{
  ◌≡◌, ◌≢◌, inl, inr, refl, List, [], ◌∷◌, ◌++◌, Text, codes, true, false, some, same,
}
use craft_stack.Prelude.Dict.{Dict, get}
use craft_stack.GoText.{has_prefix, contains_byte, split}
use craft_stack.GoPath.{join, clean, dir, base}
use craft_stack.Master.Registry.{TargetAgent}
use craft_stack.Agent.PushFile.{
  FileMetadata, FileChunk, renamed, DiskAnswers, data_loss, push_file, tmp_path, final_path,
}
use craft_stack.Agent.PushFile.Received.{
  first, later, marked, concat, all_marked, IsWorking, Arrived, push_file-Arrived,
}
use craft_stack.Agent.PushFile.Failed.{push_file-failed}
use craft_stack.Master.Watcher.{event_update, FileEvent}
use craft_stack.Master.FilePusher.{
  Host, Fleet, FileInfo, match_target, dest_path, push_file_to_agent, handle_event,
}
use craft_stack.Master.FilePusher.Sent.{Ready, Holds}
use craft_stack.Master.FilePusher.Delivered.{handle_event-delivers, push_file_to_agent-empty}

abbrev tag : Text → Text
tag content = b'#' ∷ content

abbrev drawn : Text → Text
drawn id = codes "sync-" ++ id

abbrev good : DiskAnswers
good = record { make_dir = true; create = true; write = λ b. true; move = renamed }

good-IsWorking : IsWorking good
good-IsWorking = record { dirs = refl; files = refl; writes = λ b. refl; moves = inl refl }

abbrev jar : FileMetadata
jar = record {
  file_path = codes "plugins/x.jar";
  file_hash = tag (codes "abcd");
  file_size = 4;
  target_agent_id = codes "a1";
  sync_id = codes "s";
}

paths :
    (final_path (codes "/srv") jar ≡ codes "/srv/plugins/x.jar")
    × (tmp_path (codes "/srv") jar ≡ codes "/srv/plugins/.craftstack_tmp_x.jar")
unfolding join clean dir base same has_prefix split contains_byte
paths = (refl, refl)

paths_differ : tmp_path (codes "/srv") jar ≢ final_path (codes "/srv") jar
paths_differ e = cc (rw (paths.0, paths.1) at e)

push_file-Arrived_example :
    Arrived tag (codes "/srv") jar (codes "ab" ++ concat (codes "cd" ∷ [])) [] (
      push_file tag
        (codes "/srv")
        good
        (marked true (some jar) (codes "ab") (codes "cd" ∷ []) ∷ all_marked true (codes "cd" ∷ []))
        false
        [])
push_file-Arrived_example =
    push_file-Arrived tag (codes "/srv") good true false jar (codes "ab") (codes "cd" ∷ []) []
      (inl refl) good-IsWorking paths_differ (inr refl)

-- The bytes that come are not those of the hash.
abbrev spoilt : List FileChunk
spoilt = first jar (codes "ab") ∷ later (codes "xx") ∷ []

abbrev old_disk : Dict Text
old_disk = (codes "/srv/plugins/x.jar", codes "old") ∷ []

is_refused : (push_file tag (codes "/srv") good spoilt true old_disk).0 ≡ data_loss
unfolding push_file same
is_refused = refl

push_file-failed_example :
    get (push_file tag (codes "/srv") good spoilt true old_disk).1 (codes "/srv/plugins/x.jar")
    ≡ get old_disk (codes "/srv/plugins/x.jar")
push_file-failed_example =
    push_file-failed tag (codes "/srv") good (codes "/srv/plugins/x.jar") (λ left e. cc) spoilt true
      old_disk (λ e. cc (rw (paths.1) at e)) (λ h i e. cc (rw is_refused at e))

abbrev host : Host
host = record { base_dir = codes "/srv"; answers = good; files = [] }

abbrev agent : TargetAgent
agent = record { name = codes "alpha"; address = codes "10.0.0.2:1" }

abbrev fleet : Fleet
fleet = record { hosts = (codes "10.0.0.2:1", host) ∷ []; sync_records = [] }

abbrev saved : FileEvent
saved = record {
  path = codes "/master/x.jar";
  rel_path = codes "x.jar";
  event_type = event_update;
  mapping_name = codes "m";
  dest = codes "plugins";
  targets = codes "alpha" ∷ [];
}

goes_to : dest_path saved ≡ codes "plugins/x.jar"
unfolding dest_path join clean same has_prefix split
goes_to = refl

host-IsReady : Ready (dest_path saved) (codes "10.0.0.2:1") fleet
unfolding get same
host-IsReady =
    (host, refl, rw goes_to (record { works = good-IsWorking; distinct = λ e. paths_differ e }))

handle_event-delivers_example :
    Holds
      (dest_path saved)
      (codes "abcd")
      (codes "10.0.0.2:1")
      (handle_event tag drawn saved ((codes "a1", agent) ∷ []) (some (codes "abcd")) fleet)
unfolding get same match_target
handle_event-delivers_example =
    handle_event-delivers tag drawn saved ((codes "a1", agent) ∷ []) b'a' (codes "bcd") (codes "a1")
      agent fleet (λ e. cc) (λ e. cc) refl refl host-IsReady

abbrev empty_file : FileInfo
empty_file = record {
  rel_path = codes "plugins/x.jar";
  abs_path = codes "/master/x.jar";
  hash = tag [];
}

push_file_to_agent-empty_example :
    ((push_file_to_agent tag drawn empty_file [] (codes "a1") agent fleet).0 ≡ false)
    × ((push_file_to_agent tag drawn empty_file [] (codes "a1") agent fleet).1.sync_records
        ≡ fleet.sync_records)
    × ((k : Text)
        → get (push_file_to_agent tag drawn empty_file [] (codes "a1") agent fleet).1.hosts k
          ≡ get fleet.hosts k)
push_file_to_agent-empty_example =
    push_file_to_agent-empty tag drawn empty_file (codes "a1") agent fleet
