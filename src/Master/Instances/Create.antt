-- ===== src/Master/Instances/Create.antt =====
-- apiCreateInstance of internal/master/web/handler_instance.go, from the checks on,
-- with ensureDefaultNetwork. The calls to the agent are
-- recorded in the order in which they are made. The DNS record that a
-- goroutine makes afterwards is left out.
use craft_stack.Prelude.{
  ℕ, ◌-◌, ◌%◌, ◌^◌, List, [], ◌∷◌, ◌++◌, Text, codes, Bool, true, false, not, ◌&&◌, ◌||◌, Option,
  none, some, ltb, same, if◌then◌else◌,
}
use mathlib.Core.Option
use craft_stack.Prelude.Int.{ℤ, pos, negsuc}
use craft_stack.Prelude.Dict.{Dict, get}
use craft_stack.Master.Registry.{ConnectedAgent}
use craft_stack.Agent.Upload.{UploadRequest}
use craft_stack.Master.Instances.{Instance, Network, Tables, minecraft, valid_type, jvm_args_list}
use craft_stack.Master.Instances.Store.{
  create_instance, find_network, create_network, add_instance_to_network, create_audit_log,
}
use craft_stack.Master.Instances.Requests.{
  Caller, HttpReply, ok, bad_request, server_error, CreateInstanceCall, AgentCall,
  create_network_call, create_instance_call, upload_call, control_call, action_start, AgentAnswers,
}
use craft_stack.Master.Instances.Upload.{stream_upload}
use craft_stack.Master.Instances.Form.{
  CreateForm, ServerFiles, as_zip, both_files, instance_of, is_on, matches_name, type_of,
}

abbrev pub default_network : Text
default_network = codes "craftstack-default"

abbrev pub network_id : Text → Text
network_id agent = agent ++ b'-' ∷ default_network

-- What the database answers to the writes of the handler
pub record TableAnswers : Type 0 where
  pub creates_instance : Bool
  pub creates_network : Bool
  pub adds_to_network : Bool

-- GetAgentAddress
abbrev pub agent_address : Text → Dict ConnectedAgent → Option Text
agent_address agent agents = Option.map (λ (a : ConnectedAgent). a.address) (get agents agent)

unfoldable pub ensure_network : Bool → Text → Option Network → Tables → Bool × Tables
unfolding create_network
ensure_network write agent (some n) t = (true, t)
ensure_network write agent none t =
    create_network write
      (record {
        id = network_id agent;
        name = default_network;
        driver = codes "bridge";
        subnet = [];
        gateway = [];
        node_id = agent;
      })
      t

-- The network of the node in the table, and whether it is there now
unfoldable pub store_default_network : Bool → Text → Tables → Bool × Tables
unfolding ensure_network find_network
store_default_network write agent t =
    ensure_network write agent (find_network (network_id agent) t.networks) t

-- The call of ensureDefaultNetwork, once the network is stored
abbrev pub network_calls : Bool → AgentAnswers → Option Text → List AgentCall
network_calls false ans address = []
network_calls true ans none = []
network_calls true ans (some a) =
    if ans.connects then create_network_call a default_network ∷ [] else []

-- int32(p)
abbrev pub int32 : ℕ → ℤ
int32 p = if ltb (p % 2 ^ 32) (2 ^ 31) then pos (p % 2 ^ 32) else negsuc (2 ^ 32 - 1 - p % 2 ^ 32)

abbrev pub needs_upload : ServerFiles → Bool
needs_upload s = not (same s.jar []) || not (same s.zip [])

unfoldable pub create_call : CreateForm → ServerFiles → Instance → CreateInstanceCall
create_call f s i = record {
  name = f.name;
  port = int32 i.port;
  memory_min = i.memory_min;
  memory_max = i.memory_max;
  server_jar_name = i.server_jar;
  auto_start = i.auto_start;
  auto_restart = i.auto_restart;
  accept_eula = true;
  start_after_create = is_on f.start_after_create && not (needs_upload s);
  java_path = i.java_path;
  jvm_args = jvm_args_list i;
  instance_type = i.instance_type;
  service_version = i.service_version;
  java_version = i.java_version;
  custom_dockerfile = i.custom_dockerfile;
  custom_compose = i.custom_compose;
  network_name = default_network;
  server_zip_name = s.zip_name;
}

-- The upload, and the start behind it; a response without success is an error of the upload
unfoldable pub upload_calls :
    AgentAnswers
    → Text
    → CreateForm
    → ServerFiles
    → Instance
    → Option (List UploadRequest)
    → List AgentCall
upload_calls ans a f s i none = []
upload_calls ans a f s i (some ms) = upload_call a ms ∷ elim ans.uploads [
  | some true ↦
      if is_on f.start_after_create then control_call a i.node_id i.id action_start ∷ [] else []
  | _ ↦ []
]

-- The calls to the agent that is to run the instance
unfoldable pub agent_calls :
    AgentAnswers → CreateForm → ServerFiles → Instance → Option Text → List AgentCall
unfolding create_call upload_calls stream_upload
agent_calls ans f s i none = []
agent_calls ans f s i (some a) =
    if ans.connects
    then create_instance_call a (create_call f s i) ∷ elim ans.creates [
      | none ↦ []
      | some _ ↦ upload_calls ans a f s i (stream_upload f.name s.jar_name s.jar s.zip_name s.zip)
    ]
    else []

abbrev pub audit_created : Caller → Instance → Tables → Tables
audit_created user i t =
    (create_audit_log (user.records [])
      (record {
        username = user.username;
        action = codes "create";
        target_id = i.id;
        target_name = i.name;
        field_name = [];
        old_value = [];
        new_value = [];
        rolled_back = false;
      })
      t).1

unfoldable pub linked : Text → TableAnswers → Instance → Tables → Tables
unfolding add_instance_to_network
linked agent w i t =
    (add_instance_to_network w.adds_to_network
      (record {
        instance_id = i.id;
        network_id = network_id agent;
        alias = codes "craftstack-" ++ i.name;
        ip_address = [];
      })
      t).1

-- The part behind the insert
unfoldable pub after_insert :
    Caller
    → TableAnswers
    → AgentAnswers
    → Dict ConnectedAgent
    → CreateForm
    → ServerFiles
    → Instance
    → Tables
    → HttpReply × Tables × List AgentCall
unfolding store_default_network agent_calls linked create_audit_log
after_insert user w ans agents f s i t =
    let (there, t') = store_default_network w.creates_network f.agent_id (audit_created user i t) in
    (
      ok,
      linked f.agent_id w i t',
      network_calls there ans (agent_address f.agent_id agents)
          ++ agent_calls ans f s i (agent_address f.agent_id agents),
    )

unfoldable pub insert :
    Caller
    → TableAnswers
    → AgentAnswers
    → Dict ConnectedAgent
    → CreateForm
    → ServerFiles
    → Tables
    → HttpReply × Tables × List AgentCall
unfolding after_insert create_instance instance_of
insert user w ans agents f s t =
    let (written, t') = create_instance w.creates_instance (instance_of f s) t in
    let done = after_insert user w ans agents f s (instance_of f s) t' in
    if written then done else (server_error, t, [])

-- A Minecraft server needs a file.
unfoldable pub with_files :
    Caller
    → TableAnswers
    → AgentAnswers
    → Dict ConnectedAgent
    → CreateForm
    → Option ServerFiles
    → Tables
    → HttpReply × Tables × List AgentCall
unfolding insert
with_files user w ans agents f none t = (server_error, t, [])
with_files user w ans agents f (some s) t =
    if same (type_of f) minecraft && not (needs_upload (as_zip s))
    then (bad_request, t, [])
    else insert user w ans agents f (as_zip s) t

-- apiCreateInstance
unfoldable pub api_create_instance :
    Caller
    → TableAnswers
    → AgentAnswers
    → Dict ConnectedAgent
    → CreateForm
    → Tables
    → HttpReply × Tables × List AgentCall
unfolding with_files
api_create_instance user w ans agents f t =
    if valid_type (type_of f)
      && not (same f.agent_id [])
      && not (same f.name [])
      && matches_name f.name
    then with_files user w ans agents f (both_files f.server_jar f.server_zip) t
    else (bad_request, t, [])
