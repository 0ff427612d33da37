-- ===== src/Master/Instances/Control.antt =====
-- apiControlInstance and apiDeleteInstance of internal/master/web/handler_instance.go, and
-- overlayInstanceStatus of internal/master/web/handler.go. The calls to the agent are recorded in
-- order. The DNS records of the mesh are left out.
use craft_stack.Prelude.{
  List, [], ◌∷◌, ◌++◌, Text, codes, Bool, true, false, Option, none, some, same, map, if◌then◌else◌,
}
use craft_stack.Prelude.Dict.{Dict, get}
use craft_stack.Master.Registry.{ConnectedAgent}
use craft_stack.Master.Instances.{Instance, InstanceNetwork, Network, Tables}
use craft_stack.Master.Instances.Store.{
  get_instance, list_instance_networks, find_network, remove_instance_from_network, delete_instance,
  create_audit_log,
}
use craft_stack.Master.Instances.Requests.{
  Caller, HttpReply, ok, bad_request, not_found, unavailable, server_error, InstanceAction,
  action_start, action_stop, action_restart, action_kill, AgentCall, control_call, disconnect_call,
  delete_call, AgentAnswers,
}
use craft_stack.Master.Instances.Create.{agent_address}

-- The switch over the action
unfoldable pub action_of : Text → Option InstanceAction
action_of a =
    if same a (codes "start")
    then some action_start
    else if same a (codes "stop")
    then some action_stop
    else if same a (codes "restart")
    then some action_restart
    else if same a (codes "kill")
    then some action_kill
    else none

abbrev pub audit_action : Caller → Text → Text → Text → Tables → Tables
audit_action user action id name t =
    (create_audit_log (user.records [])
      (record {
        username = user.username;
        action = action;
        target_id = id;
        target_name = name;
        field_name = [];
        old_value = [];
        new_value = [];
        rolled_back = false;
      })
      t).1

abbrev pub name_or : Text → Option Instance → Text
name_or id none = id
name_or id (some i) = i.name

-- What follows the call, by its answer
unfoldable pub answered : Caller → Text → Text → Option Bool → Tables → HttpReply × Tables
unfolding create_audit_log
answered user id action none t = (server_error, t)
answered user id action (some false) t = (server_error, t)
answered user id action (some true) t =
    (ok, audit_action user action id (name_or id (get_instance id t)) t)

-- The call to the agent that owns the instance
unfoldable pub forward :
    Caller
    → AgentAnswers
    → Text
    → Text
    → InstanceAction
    → Text
    → Option Text
    → Tables
    → HttpReply × Tables × List AgentCall
unfolding answered
forward user ans id action a agent none t = (unavailable, t, [])
forward user ans id action a agent (some address) t =
    let (reply, t') = answered user id action ans.controls t in
    if ans.connects
    then (reply, t', control_call address agent id a ∷ [])
    else (server_error, t, [])

unfoldable pub to_owner :
    Caller
    → AgentAnswers
    → Text
    → Text
    → InstanceAction
    → Dict ConnectedAgent
    → Option Text
    → Tables
    → HttpReply × Tables × List AgentCall
unfolding forward
to_owner user ans id action a agents none t = (not_found, t, [])
to_owner user ans id action a agents (some agent) t =
    forward user ans id action a agent (agent_address agent agents) t

unfoldable pub with_action :
    Caller
    → AgentAnswers
    → Text
    → Text
    → Dict Text
    → Dict ConnectedAgent
    → Option InstanceAction
    → Tables
    → HttpReply × Tables × List AgentCall
unfolding to_owner
with_action user ans id action owners agents none t = (bad_request, t, [])
with_action user ans id action owners agents (some a) t =
    to_owner user ans id action a agents (get owners id) t

-- apiControlInstance, given the owners that heartbeats reported; a body that does not bind is `none`
unfoldable pub api_control_instance :
    Caller
    → AgentAnswers
    → Dict Text
    → Dict ConnectedAgent
    → Text
    → Option Text
    → Tables
    → HttpReply × Tables × List AgentCall
unfolding with_action
api_control_instance user ans owners agents id none t = (bad_request, t, [])
api_control_instance user ans owners agents id (some action) t =
    with_action user ans id action owners agents (action_of action) t

-- DisconnectNetwork, for every network of the instance that is in the table
unfoldable pub disconnect_calls : Text → Text → List Network → List InstanceNetwork → List AgentCall
disconnect_calls address container ns [] = []
disconnect_calls address container ns (l ∷ ls) =
    let rest = disconnect_calls address container ns ls in
    elim (find_network l.network_id ns) [
      | none ↦ rest
      | some n ↦ disconnect_call address n.name container ∷ rest
    ]

-- The calls to the agent of the instance; whatever it answers, the handler goes on
unfoldable pub delete_calls : AgentAnswers → Bool → Instance → Option Text → Tables → List AgentCall
unfolding disconnect_calls
delete_calls ans remove_data i none t = []
delete_calls ans remove_data i (some a) t =
    if ans.connects
    then disconnect_calls a (codes "craftstack-" ++ i.name) t.networks
        (list_instance_networks i.id t)
      ++ delete_call a i.id remove_data ∷ []
    else []

-- The loop over the networks of the instance
unfoldable pub unlink_all : Bool → Text → List InstanceNetwork → Tables → Tables
unfolding remove_instance_from_network
unlink_all write id [] t = t
unlink_all write id (l ∷ ls) t =
    unlink_all write id ls (remove_instance_from_network write id l.network_id t).1

unfoldable pub deleted : Caller → Instance → Bool × Tables → HttpReply × Tables
unfolding create_audit_log
deleted user i (false, t) = (server_error, t)
deleted user i (true, t) = (ok, audit_action user (codes "delete") i.id i.name t)

unfoldable pub delete_found :
    Caller
    → Bool
    → Bool
    → AgentAnswers
    → Dict ConnectedAgent
    → Bool
    → Option Instance
    → Tables
    → HttpReply × Tables × List AgentCall
unfolding delete_calls deleted unlink_all delete_instance
delete_found user unlinks deletes ans agents remove_data none t = (not_found, t, [])
delete_found user unlinks deletes ans agents remove_data (some i) t =
    let (reply, t') =
      deleted user i (
        delete_instance deletes i.id (unlink_all unlinks i.id (list_instance_networks i.id t) t)) in
    (reply, t', delete_calls ans remove_data i (agent_address i.node_id agents) t)

-- apiDeleteInstance, by whether the writes to the two tables succeed; a body that does not bind keeps
-- the data
unfoldable pub api_delete_instance :
    Caller
    → Bool
    → Bool
    → AgentAnswers
    → Dict ConnectedAgent
    → Text
    → Bool
    → Tables
    → HttpReply × Tables × List AgentCall
unfolding delete_found
api_delete_instance user unlinks deletes ans agents id remove_data t =
    delete_found user unlinks deletes ans agents remove_data (get_instance id t) t

-- overlayInstanceStatus, given which agents are online
unfoldable pub overlay_instance_status : (Text → Bool) → List Instance → List Instance
overlay_instance_status online =
    map (λ i. if online i.node_id then i else record i { status = codes "offline" })
