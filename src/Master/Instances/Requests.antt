-- ===== src/Master/Instances/Requests.antt =====
-- What the handlers of instances answer, and the calls that they make to an agent: the messages of
-- proto/craftstack/agent.proto, as internal/master/web/handler_instance.go fills them.
use craft_stack.Prelude.{List, Text, Bool, Option}
use craft_stack.Prelude.Int.{ℤ}
use craft_stack.Agent.Upload.{UploadRequest}

-- Who makes a request, and whether the database stores an audit entry about a field; an entry about none
-- has the field []
pub record Caller : Type 0 where
  pub username : Text
  pub records : Text → Bool

-- The HTTP status of an answer
pub data HttpReply : Type 0 where
  ok bad_request not_found unavailable server_error : HttpReply

-- pb.CreateInstanceRequest, without the two fields for data, which stay empty
pub record CreateInstanceCall : Type 0 where
  pub name : Text
  pub port : ℤ
  pub memory_min : Text
  pub memory_max : Text
  pub server_jar_name : Text
  pub auto_start : Bool
  pub auto_restart : Bool
  pub accept_eula : Bool
  pub start_after_create : Bool
  pub java_path : Text
  pub jvm_args : List Text
  pub instance_type : Text
  pub service_version : Text
  pub java_version : Text
  pub custom_dockerfile : Text
  pub custom_compose : Text
  pub network_name : Text
  pub server_zip_name : Text

-- pb.InstanceAction, as far as a handler sends it
pub data InstanceAction : Type 0 where
  action_start action_stop action_restart action_kill : InstanceAction

-- One call to the agent at an address
pub data AgentCall : Type 0 where
  create_network_call : Text → Text → AgentCall
  create_instance_call : Text → CreateInstanceCall → AgentCall
  upload_call : Text → List UploadRequest → AgentCall
  control_call : Text → Text → Text → InstanceAction → AgentCall
  disconnect_call : Text → Text → Text → AgentCall
  delete_call : Text → Text → Bool → AgentCall

-- How an agent answers: whether the client can be made, and the calls; `none` is an error of the call,
-- and otherwise it is the Success of the response
pub record AgentAnswers : Type 0 where
  pub connects : Bool
  pub creates : Option Bool
  pub uploads : Option Bool
  pub controls : Option Bool
