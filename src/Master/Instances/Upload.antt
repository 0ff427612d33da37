-- ===== src/Master/Instances/Upload.antt =====
-- streamUploadServerData of internal/master/web/handler_instance.go: a file is sent in chunks of 4 MB.
use craft_stack.Prelude.{
  ℕ, zero, suc, ◌*◌, List, [], ◌∷◌, Text, codes, Option, none, some, same, take, drop, length,
  if◌then◌else◌,
}
use craft_stack.Agent.Upload.{UploadRequest}

abbrev pub upload_chunk_size : ℕ
upload_chunk_size = 4 * 1024 * 1024

-- The slices of the data, at most `n` of them; each takes a byte at least
unfoldable pub slices : ℕ → Text → List Text
slices zero d = []
slices (suc n) [] = []
slices (suc n) (x ∷ d) = take upload_chunk_size (x ∷ d) ∷ slices n (drop upload_chunk_size (x ∷ d))

unfoldable pub later_requests : List Text → List UploadRequest
later_requests [] = []
later_requests (d ∷ ds) =
    record { instance_name = []; file_type = []; file_name = []; total_size = 0; chunk_data = d }
    ∷ later_requests ds

-- Only the first message has the names and the size.
unfoldable pub requests : Text → Text → Text → ℕ → List Text → List UploadRequest
unfolding later_requests
requests name type file size [] = []
requests name type file size (d ∷ ds) =
    record {
      instance_name = name;
      file_type = type;
      file_name = file;
      total_size = size;
      chunk_data = d;
    }
    ∷ later_requests ds

abbrev pub messages : Text → Text → Text → Text → List UploadRequest
messages name type file d = requests name type file (length d) (slices (length d) d)

-- The messages of streamUploadServerData, if there is a file; a ZIP file goes before a JAR file
unfoldable pub stream_upload : Text → Text → Text → Text → Text → Option (List UploadRequest)
unfolding requests slices
stream_upload name jar_name jar zip_name zip =
    if same zip []
    then if same jar [] then none else some (messages name (codes "jar") jar_name jar)
    else some (messages name (codes "zip") zip_name zip)
