-- ===== src/Agent/Instances/Ready.antt =====
-- internal/agent/instance_sync.go: one round of a synchronisation, where docker works.
use craft_stack.Prelude.{
  ◌≡◌, ◌≢◌, refl, ap, ◌∙◌, [], Text, true, not, ◌&&◌, ◌||◌, Option, none, some, inl, inr, ◌⊎◌, same,
  same_iff, Option-cases, arith,
}
use craft_stack.Prelude.Dict.{Dict, get, put}
use craft_stack.Master.Instances.{valid_type, minecraft, mysql, postgresql, mongodb, redis, kafka}
use craft_stack.Agent.Containers.{
  ContainerConfig, ServiceImageConfig, container_for, default_images, get_image_config,
  build_container_config, with_image,
}
use craft_stack.Agent.Instances.{
  InstanceConfig, InstanceDef, Managed, AgentState, DockerAnswers, AgentConfig, container_config,
  env_overrides, effective_memory, custom_ok, ensure_container, with_container,
  ensure_docker_container, container_name, add_instance, managed, customised, custom_files,
}
use craft_stack.Agent.Instances.Sync.{
  def_of, prepare_files, auto_start_process, registered, sync_at, sync_one,
}

-- Docker and the disk do what they are asked.
pub record IsWorking (ans : DockerAnswers) : Type 0 where
  pub make_dir : ans.make_dir ≡ true
  pub write_file : ans.write_file ≡ true
  pub daemon : ans.daemon ≡ true
  pub compose_up : ans.compose_up ≡ true
  pub builds : ans.builds ≡ true
  pub pulls : ans.pulls ≡ true
  pub creates : ans.creates ≡ true

-- Both maps as they were
abbrev SameMaps : AgentState → AgentState → Type 0
SameMaps st st' = (st'.instances ≡ st.instances) × (st'.defs ≡ st.defs)

-- The six types have an image.
known_type : (t : Text) → valid_type t ≡ true → get default_images t ≢ none
unfolding default_images get valid_type
known_type t h e = ground (
  arith,
  h,
  e,
  same_iff t minecraft,
  same_iff minecraft t,
  same_iff t mysql,
  same_iff mysql t,
  same_iff t postgresql,
  same_iff postgresql t,
  same_iff t mongodb,
  same_iff mongodb t,
  same_iff t redis,
  same_iff redis t,
  same_iff t kafka,
  same_iff kafka t,
)

module _ (cfg : AgentConfig) (ans : DockerAnswers) (w : IsWorking ans) where
  custom_ok-working :
      (d : InstanceDef)
      → (custom_ok ans.write_file ans.compose_up d.custom_compose
          && custom_ok ans.write_file ans.builds d.custom_dockerfile)
        ≡ true
  custom_ok-working d = ground (arith, w.write_file, w.compose_up, w.builds)

  ensure_container-made :
      (d : InstanceDef) (c : ContainerConfig) (o : Option ContainerConfig) (st : AgentState)
      → (m : Managed) × (st' : AgentState) × (ensure_container cfg ans d c o st ≡ (some m, st'))
        × SameMaps st st'
  unfolding ensure_container
  ensure_container-made d c (some old) st = (_, st, refl, (refl, refl))
  ensure_container-made d c none st = (_, _, made, (refl, refl))
    where
      allowed : ((not (same d.custom_dockerfile []) || ans.pulls) && ans.creates) ≡ true
      allowed = ground (arith, w.pulls, w.creates)

      made : ensure_container cfg ans d c none st ≡ (
        some (managed ans d),
        record st { containers = put st.containers (container_name d.name) (customised cfg d c) },
      )
      made = rw allowed refl

  container_config-defined :
      (d : InstanceDef) → valid_type d.type ≡ true → container_config cfg d ≢ none
  unfolding container_config build_container_config get_image_config
  container_config-defined d h e = known_type d.type h (found (get default_images d.type) e)
    where
      found :
          (o : Option ServiceImageConfig)
          → (elim (with_image d.type d.service_version d.java_version o) [
            | none ↦ none
            | some c ↦ some (
                container_for cfg.cwd d.name d.type d.port d.work_dir
                  (env_overrides d)
                  (effective_memory d)
                  d.docker_cpus
                  d.network_name
                  c)
          ])
            ≡ none
          → o ≡ none
      found none k = refl
      found (some c) k = absurd (cc k)

  ensure_docker_container-made :
      (d : InstanceDef) (st : AgentState)
      → valid_type d.type ≡ true
      → (m : Managed) × (st' : AgentState) × (ensure_docker_container cfg ans d st ≡ (some m, st'))
        × SameMaps st st'
  unfolding ensure_docker_container with_container
  ensure_docker_container-made d st h = go (container_config cfg d) refl
    where
      go :
          (o : Option ContainerConfig)
          → container_config cfg d ≡ o
          → (m : Managed) × (st' : AgentState) × (ensure_docker_container cfg ans d st
              ≡ (some m, st'))
            × SameMaps st st'
      go none e = absurd (container_config-defined d h e)
      go (some c) e =
          let (m, st', made, same_maps) =
            ensure_container-made d c (get st.containers (container_name d.name))
              (record st { files = custom_files ans d st.files }) in
          (m, st', (rw (w.daemon, e, custom_ok-working d) made), same_maps)

  sync_at-new :
      (c : InstanceConfig) (st : AgentState)
      → valid_type (def_of cfg c).type ≡ true
      → get st.instances c.instance_id ≡ none
      → (m : Managed) × ((sync_at cfg ans c none st).instances ≡ put st.instances c.instance_id m)
        × ((sync_at cfg ans c none st).defs ≡ put st.defs c.instance_id (def_of cfg c))
  unfolding sync_at registered add_instance
  sync_at-new c st h n =
      let (m, st', made, (i, d)) =
        ensure_docker_container-made (def_of cfg c)
          (record st { files = prepare_files ans.stores (def_of cfg c) st.files }) h in
      let m' : Managed = record m {
        process = auto_start_process ans (def_of cfg c) st'.files m.process;
      } in
      let free : get st'.instances c.instance_id ≡ none =
        ap (λ (k : Dict Managed). get k c.instance_id) i ∙ n in
      let whole : sync_at cfg ans c none st ≡ record st' {
        instances = put st'.instances c.instance_id m';
        defs = put st'.defs c.instance_id (def_of cfg c);
      } =
        rw (w.make_dir, made, free) refl in
      (
        m',
        ap (λ (k : AgentState). k.instances) whole
            ∙ ap (λ (k : Dict Managed). put k c.instance_id m') i,
        ap (λ (k : AgentState). k.defs) whole
            ∙ ap (λ (k : Dict InstanceDef). put k c.instance_id (def_of cfg c)) d,
      )

  -- A round leaves what is registered, and registers its config.
  pub sync_one-cases :
      (c : InstanceConfig) (st : AgentState)
      → valid_type (def_of cfg c).type ≡ true
      → ((m : Managed) × (get st.instances c.instance_id ≡ some m) × (sync_one cfg ans c st ≡ st))
        ⊎ ((m : Managed) × (get st.instances c.instance_id ≡ none)
            × ((sync_one cfg ans c st).instances ≡ put st.instances c.instance_id m)
            × ((sync_one cfg ans c st).defs ≡ put st.defs c.instance_id (def_of cfg c)))
  unfolding sync_one sync_at
  sync_one-cases c st h = elim (Option-cases (get st.instances c.instance_id)) [
    | inr (m, s) ↦ inl (m, s, rw s refl)
    | inl n ↦
        let (m, i, d) = sync_at-new c st h n in
        inr (
          m,
          n,
          ap (λ o. (sync_at cfg ans c o st).instances) n ∙ i,
          ap (λ o. (sync_at cfg ans c o st).defs) n ∙ d,
        )
  ]
