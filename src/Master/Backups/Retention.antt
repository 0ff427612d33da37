-- ===== src/Master/Backups/Retention.antt =====
-- Which backups a scheduled backup leaves.
use craft_stack.Prelude.{
  ℕ, zero, suc, ◌≡◌, ◌≢◌, refl, ap, ◌∙◌, List, [], ◌∷◌, Text, codes, Bool, Option, none, true,
  false, ◌&&◌, ◌⊎◌, inl, inr, sym, Bool-cases, some, ltb, same_iff, same_self, take, drop, map,
  arith, if◌then◌else◌,
}
use mathlib.Core.Path.{subst}
use mathlib.Core.Option.{some_inj}
use craft_stack.Prelude.Dict.{get}
use craft_stack.Master.Registry.{Master, get_instance_owner, is_agent_online, get_agent_address}
use craft_stack.Master.Backups.{
  Backup, BackupSettings, BackupState, create_backup, of_instance, keep_newest, old_paths,
  delete_oldest_backups, update_backup_last_at, made, store_backup, run_backup, is_empty, is_there,
  StoreAnswers,
}

of_instance-keep_newest :
    (inst : Text) (n : ℕ) (bs : List Backup)
    → of_instance inst (keep_newest inst n bs) ≡ take n (of_instance inst bs)
unfolding keep_newest
of_instance-keep_newest inst zero [] = refl
of_instance-keep_newest inst (suc n) [] = refl
of_instance-keep_newest inst zero (b ∷ bs) = ground (arith, of_instance-keep_newest inst zero bs)
of_instance-keep_newest inst (suc n) (b ∷ bs) =
    ground (arith, of_instance-keep_newest inst n bs, of_instance-keep_newest inst (suc n) bs)

other-keep_newest :
    (inst other : Text) (n : ℕ) (bs : List Backup)
    → other ≢ inst
    → of_instance other (keep_newest inst n bs) ≡ of_instance other bs
unfolding keep_newest
other-keep_newest inst other zero [] d = refl
other-keep_newest inst other (suc n) [] d = refl
other-keep_newest inst other zero (b ∷ bs) d = ground (
  arith,
  other-keep_newest inst other zero bs d,
  same_iff b.instance_id inst,
  same_iff b.instance_id other,
)
other-keep_newest inst other (suc n) (b ∷ bs) d = ground (
  arith,
  other-keep_newest inst other n bs d,
  other-keep_newest inst other (suc n) bs d,
  same_iff b.instance_id inst,
  same_iff b.instance_id other,
)

old_paths-drop :
    (inst : Text) (n : ℕ) (bs : List Backup)
    → old_paths inst n bs ≡ map (λ b. b.file_path) (drop n (of_instance inst bs))
unfolding old_paths
old_paths-drop inst zero [] = refl
old_paths-drop inst (suc n) [] = refl
old_paths-drop inst zero (b ∷ bs) = ground (arith, old_paths-drop inst zero bs)
old_paths-drop inst (suc n) (b ∷ bs) =
    ground (arith, old_paths-drop inst n bs, old_paths-drop inst (suc n) bs)

take-nothing_dropped :
    (n : ℕ) (xs : List Backup)
    → is_empty (map (λ b. b.file_path) (drop n xs)) ≡ true
    → take n xs ≡ xs
take-nothing_dropped zero [] e = refl
take-nothing_dropped zero (x ∷ xs) e = cc
take-nothing_dropped (suc n) [] e = refl
take-nothing_dropped (suc n) (x ∷ xs) e = ap (◌∷◌ x) (take-nothing_dropped n xs e)

module _ (inst : Text) (n : ℕ) (st : BackupState) where
  -- What a deletion that succeeds leaves
  pub record IsCut (paths : List Text) (st' : BackupState) : Type 0 where
    pub removed : paths ≡ map (λ b. b.file_path) (drop n (of_instance inst st.backups))
    pub own : of_instance inst st'.backups ≡ take n (of_instance inst st.backups)
    pub others :
        (other : Text) → other ≢ inst → of_instance other st'.backups ≡ of_instance other st.backups

  whole-IsCut :
      is_empty (old_paths inst n st.backups) ≡ true → IsCut (old_paths inst n st.backups) st
  whole-IsCut e = record {
    removed = old_paths-drop inst n st.backups;
    own = ground (
      arith,
      old_paths-drop inst n st.backups,
      take-nothing_dropped n (of_instance inst st.backups),
    );
    others = λ other d. refl;
  }

  shortened-IsCut :
      IsCut (old_paths inst n st.backups) (record st { backups = keep_newest inst n st.backups })
  shortened-IsCut = record {
    removed = old_paths-drop inst n st.backups;
    own = of_instance-keep_newest inst n st.backups;
    others = λ other d. other-keep_newest inst other n st.backups d;
  }

  abbrev IsDeletion : Option (List Text) × BackupState → Type 0
  IsDeletion out =
      (out ≡ (none, st)) ⊎ ((paths : List Text) × (out.0 ≡ some paths) × IsCut paths out.1)

  delete-cases :
      (queries deletes : Bool) → IsDeletion (delete_oldest_backups queries deletes inst n st)
  unfolding delete_oldest_backups
  delete-cases false deletes = inl refl
  delete-cases true deletes = elim (Bool-cases (is_empty (old_paths inst n st.backups))) [
    | inl e ↦ rw e (inr (old_paths inst n st.backups, refl, whole-IsCut e))
    | inr e ↦ rw e (at_deletion deletes)
  ]
    where
      at_deletion :
          (deletes : Bool)
          → IsDeletion (
              if deletes
              then (
                some (old_paths inst n st.backups),
                record st { backups = keep_newest inst n st.backups },
              )
              else (none, st))
      at_deletion true = inr (old_paths inst n st.backups, refl, shortened-IsCut)
      at_deletion false = inl refl

-- DeleteOldestBackups, for a count that is not negative: where its query and its deletion succeed, it
-- returns no error. Where it returns no error, it returns the paths of all backups of the instance but the
-- first `n` in the order of the table, leaves exactly these first ones of the instance in their order,
-- and leaves those of every other instance as they were; where it returns an error, nothing changes.
pub delete_oldest_backups_lem :
    (queries deletes : Bool) (inst : Text) (n : ℕ) (st : BackupState)
    → (queries ≡ true → deletes ≡ true → (delete_oldest_backups queries deletes inst n st).0 ≢ none)
      × ((delete_oldest_backups queries deletes inst n st).0 ≡ none
          → (delete_oldest_backups queries deletes inst n st).1 ≡ st)
      × ((paths : List Text)
          → (delete_oldest_backups queries deletes inst n st).0 ≡ some paths
          → IsCut inst n st paths (delete_oldest_backups queries deletes inst n st).1)
delete_oldest_backups_lem queries deletes inst n st = (
  λ q d. unfold delete_oldest_backups in ground (arith, q, d),
  λ e. elim (delete-cases inst n st queries deletes) [
    | inl f ↦ ap (λ r. r.1) f
    | inr (paths, p, c) ↦ absurd (cc (rw p at e))
  ],
  λ paths e. elim (delete-cases inst n st queries deletes) [
    | inl f ↦ absurd (cc (rw f at e))
    | inr (found, p, c) ↦
        subst (λ ps. IsCut inst n st ps (delete_oldest_backups queries deletes inst n st).1)
          (some_inj.0 (sym p ∙ e)) c
  ],
)

-- The row of a scheduled backup
abbrev pub new_row : Text → Text → ℕ → Text → BackupState → Backup
new_row id path size checksum st = record {
  id = st.next_id;
  instance_id = id;
  file_path = path;
  file_size = size;
  checksum = checksum;
  trigger_type = codes "scheduled";
  status = codes "completed";
}

backups-update_backup_last_at :
    (ok : Bool) (id : Text) (now : ℕ) (st : BackupState)
    → (update_backup_last_at ok id now st).backups ≡ st.backups
unfolding update_backup_last_at
backups-update_backup_last_at ok id now st = ground arith

module _ (db : StoreAnswers) (now : ℕ) (id path : Text) (size : ℕ) (checksum : Text)
    (st : BackupState) where
  -- The rows of the instance with the new one, if it can be stored
  abbrev pub with_new : List Backup
  with_new =
      if db.creates && is_there (get st.instances id)
      then new_row id path size checksum st ∷ of_instance id st.backups
      else of_instance id st.backups

  abbrev created : BackupState
  created =
      (create_backup db.creates id path size checksum (codes "scheduled") (codes "completed") st).1

  abbrev with_row : BackupState
  with_row = update_backup_last_at db.touches id now created

  of_instance_with : of_instance id with_row.backups ≡ with_new
  of_instance_with =
      ap (of_instance id) (backups-update_backup_last_at db.touches id now created)
      ∙ unfold create_backup in ground (arith, same_self id)

  of_other_with :
      (other : Text)
      → other ≢ id
      → of_instance other with_row.backups ≡ of_instance other st.backups
  of_other_with other d =
      ap (of_instance other) (backups-update_backup_last_at db.touches id now created)
      ∙ unfold create_backup in ground (arith, same_iff id other)

  cut :
      (queries deletes : Bool) (n : ℕ)
      → (of_instance id (delete_oldest_backups queries deletes id n with_row).1.backups
          ≡ (if queries && deletes then take n with_new else with_new))
        × ((other : Text)
            → other ≢ id
            → of_instance other (delete_oldest_backups queries deletes id n with_row).1.backups
              ≡ of_instance other st.backups)
  unfolding delete_oldest_backups
  cut queries deletes n = (
    ground (
      arith,
      of_instance_with,
      old_paths-drop id n with_row.backups,
      of_instance-keep_newest id n with_row.backups,
      take-nothing_dropped n (of_instance id with_row.backups),
    ),
    λ other d.
        ground (arith, other-keep_newest id other n with_row.backups d, of_other_with other d),
  )

  -- A scheduled backup of an instance whose owner is online, has an address and makes the backup: its row
  -- stands before the earlier ones of the instance, which stay in their order, unless the insert fails or
  -- the instance is gone; where the maximal count is positive and the query and the deletion succeed,
  -- these rows are cut off at it; and the rows of every other instance are as they were.
  pub run_backup-rows :
      (inst : BackupSettings) (m : Master) (agent address : Text)
      → get_instance_owner id m ≡ some agent
      → is_agent_online agent m ≡ true
      → get_agent_address agent m ≡ some address
      → (of_instance id (run_backup db now id inst (made path size checksum) m st).backups ≡ (
          if ltb 0 inst.backup_max_count && (db.queries && db.deletes)
          then take inst.backup_max_count with_new
          else with_new))
        × ((other : Text)
            → other ≢ id
            → of_instance other (run_backup db now id inst (made path size checksum) m st).backups
              ≡ of_instance other st.backups)
  unfolding run_backup store_backup
  run_backup-rows inst m agent address o on at =
      let (left, others) = cut db.queries db.deletes inst.backup_max_count in
      rw (o, on, at)
        (
          ground (arith, left, of_instance_with),
          λ other d. ground (arith, others other d, of_other_with other d),
        )
