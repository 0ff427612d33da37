-- ===== src/Master/Instances/Uploaded.antt =====
-- streamUploadServerData of internal/master/web/handler_instance.go against UploadServerData of
-- internal/agent/grpc_agent_service.go: the file arrives as it was sent.
use craft_stack.Prelude.{
  ℕ, zero, suc, ◌≤◌, ◌≡◌, ◌≢◌, refl, ap, ◌∙◌, List, [], ◌∷◌, ◌++◌, append_assoc, append-nil, Text,
  codes, true, Option, none, some, same, same_iff, take, drop, length, length-take, length-drop,
  take-append-drop, All, arith,
}
use craft_stack.Prelude.Dict.{put}
use craft_stack.GoText.{to_lower}
use craft_stack.GoPath.{join}
use craft_stack.Agent.PushFile.Received.{concat}
use craft_stack.Agent.Upload.{
  UploadRequest, UploadAnswers, AgentFiles, upload_done, stored, receive_rest, receive_all,
  work_dir, store_jar, store_upload, upload_server_data,
}
use craft_stack.Agent.Upload.Zip.{ZipEntry}
use craft_stack.Master.Instances.Upload.{
  upload_chunk_size, slices, later_requests, requests, messages, stream_upload,
}

concat-slices : (n : ℕ) (d : Text) → length d ≤ n → concat (slices n d) ≡ d
unfolding slices
concat-slices zero [] h = refl
concat-slices zero (x ∷ d) h = absurd (omega arith)
concat-slices (suc n) [] h = refl
concat-slices (suc n) (x ∷ d) h =
    let rest =
      concat-slices n (drop upload_chunk_size (x ∷ d))
        (omega (arith, length-drop upload_chunk_size (x ∷ d))) in
    rw rest (take-append-drop upload_chunk_size (x ∷ d))

abbrev pub IsSmall : UploadRequest → Type 0
IsSmall m = length m.chunk_data ≤ upload_chunk_size

later-IsSmall : (n : ℕ) (d : Text) → All IsSmall (later_requests (slices n d))
unfolding slices later_requests
later-IsSmall zero d = tt
later-IsSmall (suc n) [] = tt
later-IsSmall (suc n) (x ∷ d) = (
  omega (arith, length-take upload_chunk_size (x ∷ d)),
  later-IsSmall n (drop upload_chunk_size (x ∷ d)),
)

messages-IsSmall : (name type file d : Text) → All IsSmall (messages name type file d)
unfolding slices requests later_requests
messages-IsSmall name type file [] = tt
messages-IsSmall name type file (x ∷ d) = (
  omega (arith, length-take upload_chunk_size (x ∷ d)),
  later-IsSmall (length d) (drop upload_chunk_size (x ∷ d)),
)

-- The disk of the agent does what it is asked.
pub record IsWorking (ans : UploadAnswers) : Type 0 where
  pub create_temp : ans.create_temp ≡ true
  pub write_temp : ans.write_temp ≡ true
  pub seek_temp : ans.seek_temp ≡ true
  pub make_work_dir : ans.make_work_dir ≡ true
  pub create_file : ans.create_file ≡ true
  pub copied : ans.copied ≡ none

module _ (ans : UploadAnswers) (w : IsWorking ans) where
  receive_rest-later :
      (first : UploadRequest) (acc : Text) (ds : List Text)
      → receive_rest ans true first acc (later_requests ds) ≡ stored first (acc ++ concat ds)
  unfolding receive_rest later_requests
  receive_rest-later first acc [] = rw (append-nil acc) refl
  receive_rest-later first acc (d ∷ ds) =
      rw (receive_rest-later first (acc ++ d) ds, append_assoc acc d (concat ds))
        (ground (arith, w.write_temp))

  receive_all-cons :
      (r : UploadRequest) (rs : List UploadRequest)
      → r.instance_name ≢ []
      → r.file_name ≢ []
      → receive_all ans true (r ∷ rs) ≡ receive_rest ans true r r.chunk_data rs
  unfolding receive_all receive_rest
  receive_all-cons r rs hn hf =
      ground
        (arith, w.create_temp, w.write_temp, same_iff r.instance_name [], same_iff r.file_name [])

  store_jar-put :
      (first : UploadRequest) (d : Text) (st : AgentFiles)
      → store_jar ans first d st ≡ (
        upload_done [],
        record st { files = put st.files (join (work_dir first.instance_name) first.file_name) d },
      )
  unfolding store_jar
  store_jar-put first d st = rw (w.create_file, w.copied) refl

  module _ (read_zip : Text → Option (List ZipEntry)) (agent : Text) where
    store_upload-jar :
        (first : UploadRequest) (d : Text) (st : AgentFiles)
        → same (to_lower first.file_type) (codes "jar") ≡ true
        → store_upload read_zip agent ans (stored first d) st ≡ store_jar ans first d st
    unfolding store_upload
    store_upload-jar first d st h = rw (w.seek_temp, w.make_work_dir, h) refl

    upload-messages :
        (name file : Text) (x : ℕ) (d : Text) (st : AgentFiles)
        → name ≢ []
        → file ≢ []
        → upload_server_data read_zip agent ans true (messages name (codes "jar") file (x ∷ d)) st
          ≡ (upload_done [], record st { files = put st.files (join (work_dir name) file) (x ∷ d) })
    unfolding upload_server_data slices requests to_lower same
    upload-messages name file x d st hn hf =
        let ds = slices (length d) (drop upload_chunk_size (x ∷ d)) in
        let whole : take upload_chunk_size (x ∷ d) ++ concat ds ≡ x ∷ d =
          ap (λ e. take upload_chunk_size (x ∷ d) ++ e)
            (concat-slices (length d) (drop upload_chunk_size (x ∷ d))
              (omega (arith, length-drop upload_chunk_size (x ∷ d))))
          ∙ take-append-drop upload_chunk_size (x ∷ d) in
        ap (λ r. store_upload read_zip agent ans r st)
          (receive_all-cons (head x d) (later_requests ds) hn hf
            ∙ receive_rest-later (head x d) (take upload_chunk_size (x ∷ d)) ds
            ∙ ap (stored (head x d)) whole)
        ∙ store_upload-jar (head x d) (x ∷ d) st refl
        ∙ store_jar-put (head x d) (x ∷ d) st
      where
        head : ℕ → Text → UploadRequest
        head x d = record {
          instance_name = name;
          file_type = codes "jar";
          file_name = file;
          total_size = length (x ∷ d);
          chunk_data = take upload_chunk_size (x ∷ d);
        }

-- A JAR file that is not empty, for an instance and under a file name that are not empty, with no ZIP
-- file beside it, is sent in messages with at most 4 MB of data each; an agent whose disk works and that
-- receives them all answers with success, and then the file stands under its name in the directory of
-- the instance with exactly the bytes that were sent, and nothing else has changed.
pub stream_upload-arrives :
    (read_zip : Text → Option (List ZipEntry)) (agent : Text) (ans : UploadAnswers)
    (name jar_name jar : Text) (st : AgentFiles)
    → IsWorking ans
    → name ≢ []
    → jar_name ≢ []
    → jar ≢ []
    → (ms : List UploadRequest) × (stream_upload name jar_name jar [] [] ≡ some ms)
      × All IsSmall ms
      × (upload_server_data read_zip agent ans true ms st ≡ (
        upload_done [],
        record st { files = put st.files (join (work_dir name) jar_name) jar },
      ))
unfolding stream_upload same
stream_upload-arrives read_zip agent ans name jar_name [] st w hn hf hj = absurd (hj refl)
stream_upload-arrives read_zip agent ans name jar_name (x ∷ d) st w hn hf hj = (
  messages name (codes "jar") jar_name (x ∷ d),
  refl,
  messages-IsSmall name (codes "jar") jar_name (x ∷ d),
  upload-messages ans w read_zip agent name jar_name x d st hn hf,
)
