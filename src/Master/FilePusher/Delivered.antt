-- ===== src/Master/FilePusher/Delivered.antt =====
-- What an event brings to the agents.
use mathlib.Core.Path.{subst}
use craft_stack.Prelude.{
  ℕ, ◌≡◌, ◌≢◌, ◌⊎◌, inl, inr, refl, sym, [], ◌∷◌, Text, Bool, true, false, Option, none, some, same,
  same_iff, keep, arith, Bool-cases,
}
use craft_stack.Prelude.Dict.{Dict, get, get-put}
use craft_stack.Master.Registry.{TargetAgent}
use craft_stack.Agent.PushFile.{DiskAnswers, invalid_argument, push_file}
use craft_stack.Master.FilePusher.Sent.{Ready, Holds, sent-Holds, sent-keeps, sent-Ready}
use craft_stack.Master.Watcher.{EventType, event_create, event_update, event_delete, FileEvent}
use craft_stack.Master.FilePusher.{
  Host, Fleet, FileInfo, reads, chunks, match_target, dest_path, record_push, send_to,
  push_file_to_agent, push_to_all, push_to_agents, update_all, on_event, filtered, handle_event,
}

module _ (hash uuid : Text → Text) (file : FileInfo) (x : ℕ) (c : Text)
    (e : (file.hash ≡ []) ⊎ (file.hash ≡ hash (x ∷ c))) where
  push_to_all-keeps :
      (agents : Dict TargetAgent) (address : Text) (fleet : Fleet)
      → Holds file.rel_path (x ∷ c) address fleet
      → Holds file.rel_path (x ∷ c) address (push_to_all hash uuid file (x ∷ c) agents fleet).1
  unfolding push_to_all
  push_to_all-keeps [] address fleet h = h
  push_to_all-keeps ((id, a) ∷ agents) address fleet h =
      push_to_all-keeps agents address (push_file_to_agent hash uuid file (x ∷ c) id a fleet).1
        (sent-keeps hash uuid file x c e id address a fleet h)

  push_to_all-Holds :
      (p : Text × TargetAgent → Bool) (agents : Dict TargetAgent) (id : Text) (a : TargetAgent)
      (fleet : Fleet)
      → get agents id ≡ some a
      → p (id, a) ≡ true
      → Ready file.rel_path a.address fleet
      → Holds file.rel_path
          (x ∷ c)
          a.address
          (push_to_all hash uuid file (x ∷ c) (keep p agents) fleet).1
  unfolding push_to_all get
  push_to_all-Holds p [] id a fleet g m r = absurd (ground arith)
  push_to_all-Holds p ((j, b) ∷ agents) id a fleet g m r = elim (Bool-cases (same j id)) [
    | inl t ↦
        let s : b ≡ a = cc (rw t at g) in
        let k : p (j, b) ≡ true = rw ((same_iff j id).0 t, s) m in
        rw k (
          push_to_all-keeps (keep p agents) a.address
            (push_file_to_agent hash uuid file (x ∷ c) j b fleet).1
            (subst
              (λ z.
                Holds file.rel_path (x ∷ c) a.address
                  (push_file_to_agent hash uuid file (x ∷ c) j z fleet).1)
              (sym s) (sent-Holds hash uuid file x c e j a fleet r).1))
    | inr t ↦ elim (Bool-cases (p (j, b))) [
      | inl k ↦ rw k (
          push_to_all-Holds p agents id a (push_file_to_agent hash uuid file (x ∷ c) j b fleet).1
            (rw t at g) m (sent-Ready hash uuid file x c e j a.address b fleet r))
      | inr k ↦ rw k (push_to_all-Holds p agents id a fleet (rw t at g) m r)
    ]
  ]

module _ (hash uuid : Text → Text) where
  not_deleted :
      (file : FileInfo) (content : Text) (agents : Dict TargetAgent) (fleet : Fleet)
      → file.abs_path ≢ []
      → push_to_agents hash uuid file content agents fleet
        ≡ push_to_all hash uuid file content agents fleet
  unfolding push_to_agents
  not_deleted file content agents fleet ne = ground (arith, same_iff file.abs_path [])

  -- An event that is no deletion, of a file that can be read and is not empty, puts the whole content
  -- at the destination path on the host of every agent that the targets name by "*", its id or its
  -- name, if that host is there, its calls succeed and its temporary and final paths differ.
  pub handle_event-delivers :
      (e : FileEvent) (agents : Dict TargetAgent) (x : ℕ) (c : Text) (id : Text) (a : TargetAgent)
      (fleet : Fleet)
      → e.event_type ≢ event_delete
      → e.path ≢ []
      → get agents id ≡ some a
      → match_target e.targets id a.name ≡ true
      → Ready (dest_path e) a.address fleet
      → Holds (dest_path e) (x ∷ c) a.address (handle_event hash uuid e agents (some (x ∷ c)) fleet)
  handle_event-delivers e agents x c id a fleet n ne g m r =
      unfold handle_event in on_update e.event_type n
    where
      sent :
          Holds
            (dest_path e)
            (x ∷ c)
            a.address
            (push_to_all hash uuid
              (record { rel_path = dest_path e; abs_path = e.path; hash = hash (x ∷ c) })
              (x ∷ c)
              (filtered hash uuid e agents)
              fleet).1
      sent =
          push_to_all-Holds hash uuid
            (record { rel_path = dest_path e; abs_path = e.path; hash = hash (x ∷ c) }) x c
            (inr refl) (λ b. match_target e.targets b.0 b.1.name) agents id a fleet g m r

      updated :
          Holds
            (dest_path e)
            (x ∷ c)
            a.address
            (update_all hash uuid e (filtered hash uuid e agents) (some (x ∷ c)) fleet)
      updated =
          unfold update_all in
          subst (λ r. Holds (dest_path e) (x ∷ c) a.address r.1)
            (sym (
              not_deleted
                (record { rel_path = dest_path e; abs_path = e.path; hash = hash (x ∷ c) }) (x ∷ c)
                (filtered hash uuid e agents) fleet ne))
            sent

      on_update :
          (t : EventType)
          → t ≢ event_delete
          → Holds
              (dest_path e)
              (x ∷ c)
              a.address
              (on_event hash uuid t e (filtered hash uuid e agents) (some (x ∷ c)) fleet)
      on_update event_create k = unfold on_event in updated
      on_update event_update k = unfold on_event in updated
      on_update event_delete k = absurd (k refl)

  push_file-empty :
      (base_dir : Text) (d : DiskAnswers) (files : Dict Text)
      → push_file hash base_dir d [] true files ≡ (invalid_argument, files)
  unfolding push_file
  push_file-empty base_dir d files = refl

  send_to-empty :
      (file : FileInfo) (id address : Text) (o : Option Host) (fleet : Fleet)
      → get fleet.hosts address ≡ o
      → ((send_to hash uuid file [] id address o fleet).0 ≡ false)
        × ((send_to hash uuid file [] id address o fleet).1.sync_records ≡ fleet.sync_records)
        × ((k : Text)
            → get (send_to hash uuid file [] id address o fleet).1.hosts k ≡ get fleet.hosts k)
  unfolding send_to chunks reads push_file record_push
  send_to-empty file id address none fleet e = (refl, refl, λ k. refl)
  send_to-empty file id address (some h) fleet e =
      (refl, refl, λ k. ground (arith, get-put fleet.hosts address k h, same_iff address k))

  -- The push of an empty file to any agent is an error: no chunk is sent, so that the agent has no
  -- metadata. No disk changes, and no record is written.
  pub push_file_to_agent-empty :
      (file : FileInfo) (id : Text) (a : TargetAgent) (fleet : Fleet)
      → ((push_file_to_agent hash uuid file [] id a fleet).0 ≡ false)
        × ((push_file_to_agent hash uuid file [] id a fleet).1.sync_records ≡ fleet.sync_records)
        × ((k : Text)
            → get (push_file_to_agent hash uuid file [] id a fleet).1.hosts k ≡ get fleet.hosts k)
  unfolding push_file_to_agent
  push_file_to_agent-empty file id a fleet =
      send_to-empty file id a.address (get fleet.hosts a.address) fleet refl
