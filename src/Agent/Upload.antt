-- ===== src/Agent/Upload.antt =====
-- UploadServerData of internal/agent/grpc_agent_service.go and extractServerZip of
-- internal/agent/util.go: a server file that the master sends becomes a file, or a tree of files, in
-- the work directory of its instance. The archive reader is a parameter. A file that is closed is not
-- written any more, and the temporary file is not part of the tree.
pub mod Extracted
pub mod Zip
mod Tests
use craft_stack.Prelude.{
  ℕ, ◌+◌, List, [], ◌∷◌, ◌++◌, Text, codes, Bool, true, false, not, ◌&&◌, ◌||◌, Option, none, some,
  same, take, length, if◌then◌else◌,
}
use craft_stack.Prelude.Dict.{Dict, get, put}
use craft_stack.GoText.{to_lower}
use craft_stack.GoPath.{join}
use craft_stack.Agent.Upload.Zip.{ZipEntry, DirectoryAnswers, Extraction, extract_server_zip}

-- pb.UploadServerDataRequest
pub record UploadRequest : Type 0 where
  pub instance_name : Text
  pub file_type : Text
  pub file_name : Text
  pub total_size : ℕ
  pub chunk_data : Text

-- What the disk answers: to the temporary file, the work directory, and the destination of a JAR file,
-- whose copy may stop behind some bytes
pub record UploadAnswers : Type 0 where
  pub create_temp : Bool
  pub write_temp : Bool
  pub seek_temp : Bool
  pub make_work_dir : Bool
  pub create_file : Bool
  pub copied : Option ℕ
  pub read_temp : Bool
  pub directory : DirectoryAnswers

-- The files of the agent, and the ServerJar of each of its definitions
pub record AgentFiles : Type 0 where
  pub files : Dict Text
  pub server_jars : Dict Text

-- The answer of the call; an error of the stream is an error of the call
pub data UploadResponse : Type 0 where
  stream_error upload_failed : UploadResponse
  upload_done : Text → UploadResponse

-- The temporary file behind the loop over the stream: the first message, and what was received
pub data Received : Type 0 where
  broken refused nothing : Received
  stored : UploadRequest → Text → Received

-- The loop, once the first message was taken
unfoldable pub receive_rest :
    UploadAnswers → Bool → UploadRequest → Text → List UploadRequest → Received
receive_rest ans ended first content [] = if ended then stored first content else broken
receive_rest ans ended first content (r ∷ rs) =
    let rest = receive_rest ans ended first (content ++ r.chunk_data) rs in
    if same r.chunk_data [] || ans.write_temp then rest else refused

-- The loop; `ended` tells the end of the stream from an error
unfoldable pub receive_all : UploadAnswers → Bool → List UploadRequest → Received
unfolding receive_rest
receive_all ans ended [] = if ended then nothing else broken
receive_all ans ended (r ∷ rs) =
    if same r.instance_name [] || same r.file_name []
    then refused
    else if ans.create_temp
    then receive_rest ans ended r [] (r ∷ rs)
    else refused

abbrev pub work_dir : Text → Text
work_dir name = join (codes "./servers") name

-- The JAR file goes to the work directory.
unfoldable pub store_jar :
    UploadAnswers → UploadRequest → Text → AgentFiles → UploadResponse × AgentFiles
store_jar ans first content st =
    if ans.create_file
    then elim ans.copied [
      | none ↦ (
        upload_done [],
        record st {
          files = put st.files (join (work_dir first.instance_name) first.file_name) content;
        },
      )
      | some n ↦ (
        upload_failed,
        record st {
          files =
              put st.files (join (work_dir first.instance_name) first.file_name) (take n content);
        },
      )
    ]
    else (upload_failed, st)

-- The detected JAR file becomes that of a definition which has none but the default.
unfoldable pub update_jar : Text → Text → Dict Text → Dict Text
update_jar id jar jars = elim (get jars id) [
  | none ↦ jars
  | some old ↦ if same old [] || same old (codes "server.jar") then put jars id jar else jars
]

extracted : Text → UploadRequest → AgentFiles → Bool × Extraction → UploadResponse × AgentFiles
unfolding update_jar
extracted agent first st (false, x) = (upload_failed, record st { files = x.files })
extracted agent first st (true, x) = (
  upload_done x.detected_jar,
  record st {
    files = x.files;
    server_jars =
        if same x.detected_jar []
        then st.server_jars
        else update_jar (agent ++ b'-' ∷ first.instance_name) x.detected_jar st.server_jars;
  },
)

module _ (read_zip : Text → Option (List ZipEntry)) (agent : Text) where
  -- extractServerZip on what was received
  unfoldable pub store_zip :
      UploadAnswers → UploadRequest → Text → AgentFiles → UploadResponse × AgentFiles
  unfolding extracted
  store_zip ans first content st =
      if ans.read_temp
      then elim (read_zip content) [
        | none ↦ (upload_failed, st)
        | some entries ↦
            extracted agent first st
              (extract_server_zip ans.directory entries (work_dir first.instance_name) st.files)
      ]
      else (upload_failed, st)

  -- What follows the loop
  unfoldable pub store_upload : UploadAnswers → Received → AgentFiles → UploadResponse × AgentFiles
  unfolding store_jar store_zip
  store_upload ans broken st = (stream_error, st)
  store_upload ans refused st = (upload_failed, st)
  store_upload ans nothing st = (upload_failed, st)
  store_upload ans (stored first content) st =
      if ans.seek_temp && ans.make_work_dir
      then if same (to_lower first.file_type) (codes "jar")
        then store_jar ans first content st
        else if same (to_lower first.file_type) (codes "zip")
        then store_zip ans first content st
        else (upload_failed, st)
      else (upload_failed, st)

  -- UploadServerData
  unfoldable pub upload_server_data :
      UploadAnswers → Bool → List UploadRequest → AgentFiles → UploadResponse × AgentFiles
  unfolding receive_all store_upload
  upload_server_data ans ended messages st = store_upload ans (receive_all ans ended messages) st
