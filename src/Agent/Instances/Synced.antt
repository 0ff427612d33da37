-- ===== src/Agent/Instances/Synced.antt =====
-- internal/agent/instance_sync.go: what a synchronisation registers, where docker works.
use craft_stack.Prelude.{
  ◌≡◌, refl, sym, ap, ◌∙◌, List, [], ◌∷◌, Text, Bool, true, false, Option, none, some, inl, inr,
  same, same_iff, All, Option-cases, if◌then◌else◌, arith,
}
use craft_stack.Prelude.Dict.{Dict, get, get-put, get-put_self}
use craft_stack.Master.Instances.{valid_type}
use craft_stack.Agent.Instances.{
  InstanceConfig, InstanceDef, Managed, AgentState, DockerAnswers, AgentConfig,
}
use craft_stack.Agent.Instances.Sync.{def_of, sync_at, sync_one, sync_instances}
use craft_stack.Agent.Instances.Ready.{IsWorking, sync_one-cases}

-- The first config of an id
unfoldable pub first_config : Text → List InstanceConfig → Option InstanceConfig
first_config id [] = none
first_config id (c ∷ cs) = if same c.instance_id id then some c else first_config id cs

abbrev pub IsPresent : AgentState → InstanceConfig → Type 0
IsPresent st c = (m : Managed) × (get st.instances c.instance_id ≡ some m)

-- An instance that is there stays; a new one gets the definition of its first config.
abbrev pub expected_def :
    AgentConfig → Option Managed → Option InstanceConfig → Option InstanceDef → Option InstanceDef
expected_def cfg (some m) c d = d
expected_def cfg none none d = d
expected_def cfg none (some c) d = some (def_of cfg c)

abbrev pub old_or : Option Managed → Option Managed → Option Managed
old_or (some m) o = some m
old_or none o = o

module _ (cfg : AgentConfig) where
  sync_instances-present :
      (ans : Text → DockerAnswers) (cs : List InstanceConfig) (st : AgentState)
      → All (IsPresent st) cs
      → sync_instances cfg ans cs st ≡ st
  unfolding sync_instances sync_one sync_at
  sync_instances-present ans [] st a = refl
  sync_instances-present ans (c ∷ cs) st ((m, s), a) =
      let here : sync_one cfg (ans c.instance_id) c st ≡ st =
        ap (λ o. sync_at cfg (ans c.instance_id) c o st) s in
      ap (λ k. sync_instances cfg ans cs k) here ∙ sync_instances-present ans cs st a

  module _ (ans : Text → DockerAnswers) (w : (id : Text) → IsWorking (ans id)) where
    sync_one-keeps :
        (c : InstanceConfig) (st : AgentState) (id : Text) (m : Managed)
        → valid_type (def_of cfg c).type ≡ true
        → get st.instances id ≡ some m
        → get (sync_one cfg (ans c.instance_id) c st).instances id ≡ some m
    sync_one-keeps c st id m h g =
        elim (sync_one-cases cfg (ans c.instance_id) (w c.instance_id) c st h) [
          | inl (k, s, e) ↦ ap (λ (x : AgentState). get x.instances id) e ∙ g
          | inr (k, n, i, d) ↦
              ap (λ (x : Dict Managed). get x id) i
              ∙ get-put st.instances c.instance_id id k
              ∙ ground (arith, g, n, same_iff c.instance_id id)
        ]

    sync_instances-keeps :
        (cs : List InstanceConfig) (st : AgentState) (id : Text) (m : Managed)
        → All (λ c. valid_type (def_of cfg c).type ≡ true) cs
        → get st.instances id ≡ some m
        → get (sync_instances cfg ans cs st).instances id ≡ some m
    unfolding sync_instances
    sync_instances-keeps [] st id m h g = g
    sync_instances-keeps (c ∷ cs) st id m (h, hs) g =
        sync_instances-keeps cs (sync_one cfg (ans c.instance_id) c st) id m hs
          (sync_one-keeps c st id m h g)

    sync_instances-all :
        (cs : List InstanceConfig) (st : AgentState)
        → All (λ c. valid_type (def_of cfg c).type ≡ true) cs
        → All (IsPresent (sync_instances cfg ans cs st)) cs
    unfolding sync_instances
    sync_instances-all [] st h = tt
    sync_instances-all (c ∷ cs) st (h, hs) =
        let st' = sync_one cfg (ans c.instance_id) c st in
        let (m, g) = present in
        ((m, sync_instances-keeps cs st' c.instance_id m hs g), sync_instances-all cs st' hs)
      where
        present :
            (m : Managed) × (get (sync_one cfg (ans c.instance_id) c st).instances c.instance_id
              ≡ some m)
        present = elim (sync_one-cases cfg (ans c.instance_id) (w c.instance_id) c st h) [
          | inl (k, s, e) ↦ (k, ap (λ (x : AgentState). get x.instances c.instance_id) e ∙ s)
          | inr (k, n, i, d) ↦ (
            k,
            ap (λ (x : Dict Managed). get x c.instance_id) i
                ∙ get-put_self st.instances c.instance_id k,
          )
        ]

    expected-step :
        (c : InstanceConfig) (b : Bool) (m : Managed) (i i' : Option Managed)
        (f : Option InstanceConfig) (d d' : Option InstanceDef)
        → (b ≡ true → i ≡ none)
        → i' ≡ (if b then some m else i)
        → d' ≡ (if b then some (def_of cfg c) else d)
        → expected_def cfg i' f d' ≡ expected_def cfg i (if b then some c else f) d
    expected-step c true m i i' f d d' n hi hd = rw (n refl, hi, hd) refl
    expected-step c false m i i' f d d' n hi hd = rw (hi, hd) refl

    expected-there :
        (c : InstanceConfig) (b : Bool) (m : Managed) (i : Option Managed)
        (f : Option InstanceConfig) (d : Option InstanceDef)
        → (b ≡ true → i ≡ some m)
        → expected_def cfg i f d ≡ expected_def cfg i (if b then some c else f) d
    expected-there c true m i f d there = rw (there refl) refl
    expected-there c false m i f d there = refl

    sync_instances-defs :
        (cs : List InstanceConfig) (st : AgentState) (id : Text)
        → All (λ c. valid_type (def_of cfg c).type ≡ true) cs
        → get (sync_instances cfg ans cs st).defs id
          ≡ expected_def cfg (get st.instances id) (first_config id cs) (get st.defs id)
    unfolding sync_instances first_config
    sync_instances-defs [] st id h = elim (Option-cases (get st.instances id)) [
      | inl n ↦ rw n refl
      | inr (m, s) ↦ rw s refl
    ]
    sync_instances-defs (c ∷ cs) st id (h, hs) =
        sync_instances-defs cs (sync_one cfg (ans c.instance_id) c st) id hs
        ∙ elim (sync_one-cases cfg (ans c.instance_id) (w c.instance_id) c st h) [
          | inl (m, s, e) ↦
              ap
                (λ (x : AgentState).
                  expected_def cfg (get x.instances id) (first_config id cs) (get x.defs id))
                e
              ∙ expected-there c (same c.instance_id id) m (get st.instances id)
                  (first_config id cs) (get st.defs id)
                  (λ t. ap (get st.instances) (sym ((same_iff c.instance_id id).0 t)) ∙ s)
          | inr (m, n, i, d) ↦
              expected-step c (same c.instance_id id) m (get st.instances id) _ (first_config id cs)
                (get st.defs id) _
                (λ t. ap (get st.instances) (sym ((same_iff c.instance_id id).0 t)) ∙ n)
                (ap (λ (x : Dict Managed). get x id) i ∙ get-put st.instances c.instance_id id m)
                (ap (λ (x : Dict InstanceDef). get x id) d
                  ∙ get-put st.defs c.instance_id id (def_of cfg c))
        ]

-- Where docker and the disk do what they are asked, and every config has one of the six types or none, a
-- synchronisation leaves every instance that is registered as it is, with its definition; registers every
-- other config, with the definition that the first config of its id gives; and a further one with the
-- same configs changes nothing, whatever docker answers then.
pub sync_instances-registers :
    (cfg : AgentConfig) (ans ans' : Text → DockerAnswers) (cs : List InstanceConfig)
    (st : AgentState) (id : Text)
    → ((k : Text) → IsWorking (ans k))
    → All (λ c. valid_type (def_of cfg c).type ≡ true) cs
    → All (IsPresent (sync_instances cfg ans cs st)) cs
      × (get (sync_instances cfg ans cs st).instances id
          ≡ old_or (get st.instances id) (get (sync_instances cfg ans cs st).instances id))
      × (get (sync_instances cfg ans cs st).defs id
          ≡ expected_def cfg (get st.instances id) (first_config id cs) (get st.defs id))
      × (sync_instances cfg ans' cs (sync_instances cfg ans cs st) ≡ sync_instances cfg ans cs st)
sync_instances-registers cfg ans ans' cs st id w h = (
  sync_instances-all cfg ans w cs st h,
  kept (get st.instances id) refl,
  sync_instances-defs cfg ans w cs st id h,
  sync_instances-present cfg ans' cs (sync_instances cfg ans cs st)
      (sync_instances-all cfg ans w cs st h),
)
  where
    kept :
        (o : Option Managed)
        → get st.instances id ≡ o
        → get (sync_instances cfg ans cs st).instances id
          ≡ old_or o (get (sync_instances cfg ans cs st).instances id)
    kept none e = refl
    kept (some m) e = sync_instances-keeps cfg ans w cs st id m h e
