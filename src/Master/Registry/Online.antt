-- ===== src/Master/Registry/Online.antt =====
-- Health checks, heartbeats and the targets of file synchronisation.
use craft_stack.Prelude.{
  ℕ, ◌≡◌, refl, ap, ◌∙◌, List, [], ◌∷◌, Text, Bool, true, false, not, ◌&&◌, none, some, same,
  same_self, any, arith, if◌then◌else◌,
}
use craft_stack.Prelude.Dict.{Dict, get, get-map_values, get-put_self, get-remove}
use craft_stack.Master.Registry.{
  ConnectedAgent, Master, online, offline, timed_out, drop_agent, drop_all_timed_out, health_check,
  is_agent_online, update_agent_heartbeat, seen, heartbeat, report, update_instance_owner,
}

offline-ne-online : same offline online ≡ false
offline-ne-online = unfold same in refl

-- The key has an entry that timed out.
abbrev expired : ℕ → Text → Dict ConnectedAgent → Bool
expired now k = any (λ e. same e.0 k && timed_out now e.1)

sync_agents-drop :
    (now : ℕ) (k : Text) (agents : Dict ConnectedAgent) (m : Master)
    → get (drop_all_timed_out now agents m).sync_agents k
      ≡ (if expired now k agents then none else get m.sync_agents k)
unfolding drop_all_timed_out drop_agent
sync_agents-drop now k [] m = refl
sync_agents-drop now k ((id, a) ∷ agents) m =
    sync_agents-drop now k agents (if timed_out now a then drop_agent id m else m)
    ∙ ground (arith, get-remove m.sync_agents id k)

get-expired :
    (now : ℕ) (k : Text) (agents : Dict ConnectedAgent) (a : ConnectedAgent)
    → get agents k ≡ some a
    → timed_out now a ≡ true
    → expired now k agents ≡ true
unfolding get
get-expired now k [] a e t = cc
get-expired now k ((id, b) ∷ agents) a e t = ground (arith, get-expired now k agents a)

checked-target :
    (now : ℕ) (id : Text) (m : Master) (a : ConnectedAgent)
    → get m.agents id ≡ some a
    → timed_out now a ≡ true
    → get (health_check now m).sync_agents id ≡ none
unfolding health_check
checked-target now id m a e t =
    sync_agents-drop now id m.agents m ∙ rw (get-expired now id m.agents a e t)

-- A health check leaves an agent online exactly if it was online and was seen in the last 90
-- seconds, and ends the synchronisation to it if it was not.
pub online-health_check :
    (now : ℕ) (id : Text) (m : Master) (a : ConnectedAgent)
    → get m.agents id ≡ some a
    → (is_agent_online id (health_check now m) ≡ (is_agent_online id m && not (timed_out now a)))
      × (timed_out now a ≡ true → get (health_check now m).sync_agents id ≡ none)
online-health_check now id m a e = (shown, checked-target now id m a e)
  where
    shown :
        is_agent_online id (health_check now m) ≡ (is_agent_online id m && not (timed_out now a))
    shown =
        unfold is_agent_online health_check in
        rw (get-map_values, e) (ground (arith, offline-ne-online))

sync_agents-report :
    (agent : Text) (reports : List (Text × Text)) (m : Master)
    → ((report agent reports m).sync_agents ≡ m.sync_agents)
      × ((report agent reports m).agents ≡ m.agents)
unfolding report
sync_agents-report agent [] m = (refl, refl)
sync_agents-report agent ((inst, status) ∷ reports) m =
    unfold update_instance_owner in sync_agents-report agent reports _

-- A heartbeat keeps the targets of synchronisation, and makes exactly the known agents online.
heartbeat_fields :
    (now : ℕ) (id : Text) (reports : List (Text × Text)) (m : Master)
    → ((heartbeat now id reports m).sync_agents ≡ m.sync_agents)
      × ((heartbeat now id reports m).agents ≡ (update_agent_heartbeat now id m).agents)
unfolding heartbeat
heartbeat_fields now id reports m =
    let (s, a) = sync_agents-report id reports (update_agent_heartbeat now id m) in
    (s ∙ unfold update_agent_heartbeat in refl, a)

-- An agent that timed out and then sends a heartbeat again is online, and file synchronisation
-- leaves it out all the same.
pub heartbeat-health_check :
    (now later : ℕ) (id : Text) (reports : List (Text × Text)) (m : Master) (a : ConnectedAgent)
    → get m.agents id ≡ some a
    → timed_out now a ≡ true
    → (is_agent_online id (heartbeat later id reports (health_check now m)) ≡ true)
      × (get (heartbeat later id reports (health_check now m)).sync_agents id ≡ none)
heartbeat-health_check now later id reports m a e t =
    let (s, ags) = heartbeat_fields later id reports (health_check now m) in
    (back ags, ap (λ d. get d id) s ∙ checked-target now id m a e t)
  where
    known : get (health_check now m).agents id ≡ some (record a { status = offline })
    known = unfold health_check in rw (get-map_values, e, t)

    back :
        (heartbeat later id reports (health_check now m)).agents
          ≡ (update_agent_heartbeat later id (health_check now m)).agents
        → is_agent_online id (heartbeat later id reports (health_check now m)) ≡ true
    back ags =
        unfold is_agent_online in
        rw ags (unfold update_agent_heartbeat in rw (known, seen, get-put_self) (same_self online))
