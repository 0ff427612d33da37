-- ===== src/Master/SyncMappings/Targets.antt =====
-- The targets of a mapping after they are set as a whole.
use craft_stack.Prelude.{
  ℕ, ◌+◌, ◌≡◌, ◌≢◌, refl, ap, ◌∙◌, List, [], ◌∷◌, ◌++◌, append-nil, append_assoc, Text, codes, Bool,
  Option, none, some, true, false, ◌&&◌, ◌⊎◌, inl, inr, Bool-cases, same, if◌then◌else◌, not, ◌==◌,
  keep, keep-append, arith,
}
use craft_stack.Master.SyncMappings.{
  BulkAnswers, committed, SyncTarget, SyncTables, list_sync_targets, placed, insert_all,
  bulk_set_sync_targets,
}

-- A path, or "." for an empty one
abbrev pub or_dot : Text → Text
or_dot [] = codes "."
or_dot (c ∷ p) = c ∷ p

-- The rows of new targets, numbered from `n` on
pub numbered : ℕ → ℕ → List SyncTarget → List SyncTarget
numbered mapping n [] = []
numbered mapping n (s ∷ ss) =
    record {
      id = n;
      mapping_id = mapping;
      agent_id = s.agent_id;
      instance_id = s.instance_id;
      dest_path = or_dot s.dest_path;
      enabled = s.enabled;
    }
    ∷ numbered mapping (n + 1) ss

placed-numbered :
    (mapping n : ℕ) (s : SyncTarget) → placed mapping n s ∷ [] ≡ numbered mapping n (s ∷ [])
unfolding placed numbered same
placed-numbered mapping n s =
    ap (λ p. record s { id = n; mapping_id = mapping; dest_path = p } ∷ []) (path s.dest_path)
  where
    path : (p : Text) → (if same p [] then codes "." else p) ≡ or_dot p
    path [] = refl
    path (c ∷ p) = refl

targets-insert_all :
    (inserts : ℕ → Bool) (mapping : ℕ) (ss : List SyncTarget) (t t' : SyncTables)
    → insert_all inserts mapping ss t ≡ some t'
    → t'.targets ≡ t.targets ++ numbered mapping t.next_target ss
unfolding insert_all numbered
targets-insert_all inserts mapping [] t t' e = rw (append-nil t.targets) cc
targets-insert_all inserts mapping (s ∷ ss) t t' e =
    targets-insert_all inserts mapping ss
      (record t {
        targets = t.targets ++ placed mapping t.next_target s ∷ [];
        next_target = t.next_target + 1;
      })
      t' (ground (arith, e))
    ∙ append_assoc t.targets (placed mapping t.next_target s ∷ [])
        (numbered mapping (t.next_target + 1) ss)
    ∙ ap (λ (new : List SyncTarget). t.targets ++ (new ++ numbered mapping (t.next_target + 1) ss))
        (placed-numbered mapping t.next_target s)

all_inserted :
    (inserts : ℕ → Bool) (mapping : ℕ) (ss : List SyncTarget) (t : SyncTables)
    → ((n : ℕ) → inserts n ≡ true)
    → (t' : SyncTables) × (insert_all inserts mapping ss t ≡ some t')
unfolding insert_all
all_inserted inserts mapping [] t h = (t, refl)
all_inserted inserts mapping (s ∷ ss) t h =
    rw (h t.next_target) (all_inserted inserts mapping ss _ h)

keep-numbered :
    (mapping n : ℕ) (ss : List SyncTarget)
    → keep (λ s. s.mapping_id == mapping) (numbered mapping n ss) ≡ numbered mapping n ss
unfolding numbered
keep-numbered mapping n [] = refl
keep-numbered mapping n (s ∷ ss) = ground (arith, keep-numbered mapping (n + 1) ss)

drop_numbered :
    (mapping other n : ℕ) (ss : List SyncTarget)
    → other ≢ mapping
    → keep (λ s. s.mapping_id == other) (numbered mapping n ss) ≡ []
unfolding numbered
drop_numbered mapping other n [] d = refl
drop_numbered mapping other n (s ∷ ss) d = ground (arith, drop_numbered mapping other (n + 1) ss d)

abbrev without : ℕ → List SyncTarget → List SyncTarget
without mapping = keep (λ s. not (s.mapping_id == mapping))

own-without :
    (mapping : ℕ) (ts : List SyncTarget)
    → keep (λ s. s.mapping_id == mapping) (without mapping ts) ≡ []
own-without mapping [] = refl
own-without mapping (s ∷ ts) = ground (arith, own-without mapping ts)

other-without :
    (mapping other : ℕ) (ts : List SyncTarget)
    → other ≢ mapping
    → keep (λ s. s.mapping_id == other) (without mapping ts) ≡ keep (λ s. s.mapping_id == other) ts
other-without mapping other [] d = refl
other-without mapping other (s ∷ ts) d = ground (arith, other-without mapping other ts d)

module _ (ans : BulkAnswers) (mapping : ℕ) (ss : List SyncTarget) (t : SyncTables) where
  -- What a transaction that is committed leaves
  record IsReplaced (t' : SyncTables) : Type 0 where
    own : list_sync_targets mapping t' ≡ numbered mapping t.next_target ss
    others : (other : ℕ) → other ≢ mapping → list_sync_targets other t' ≡ list_sync_targets other t

  inserted-IsReplaced :
      (t' : SyncTables)
      → t'.targets ≡ without mapping t.targets ++ numbered mapping t.next_target ss
      → IsReplaced t'
  unfolding list_sync_targets
  inserted-IsReplaced t' rows = record {
    own =
        ap (keep (λ s. s.mapping_id == mapping)) rows
        ∙ keep-append (λ s. s.mapping_id == mapping) (without mapping t.targets)
            (numbered mapping t.next_target ss)
        ∙ rw (own-without mapping t.targets) (keep-numbered mapping t.next_target ss);
    others = λ other d.
        ap (keep (λ s. s.mapping_id == other)) rows
        ∙ keep-append (λ s. s.mapping_id == other) (without mapping t.targets)
            (numbered mapping t.next_target ss)
        ∙ rw
            (
              other-without mapping other t.targets d,
              drop_numbered mapping other t.next_target ss d,
            )
            (append-nil (keep (λ s. s.mapping_id == other) t.targets));
  }

  abbrev emptied : SyncTables
  emptied = record t { targets = without mapping t.targets }

  committed-cases :
      (commits : Bool) (o : Option SyncTables)
      → insert_all ans.inserts mapping ss emptied ≡ o
      → (committed commits t o ≡ (false, t))
        ⊎ (((committed commits t o).0 ≡ true) × IsReplaced (committed commits t o).1)
  unfolding committed
  committed-cases commits none e = inl refl
  committed-cases true (some t') e =
      inr (refl, inserted-IsReplaced t' (targets-insert_all ans.inserts mapping ss emptied t' e))
  committed-cases false (some t') e = inl refl

  bulk-cases :
      (bulk_set_sync_targets ans mapping ss t ≡ (false, t))
      ⊎ (((bulk_set_sync_targets ans mapping ss t).0 ≡ true)
          × IsReplaced (bulk_set_sync_targets ans mapping ss t).1)
  unfolding bulk_set_sync_targets
  bulk-cases = elim (Bool-cases (ans.begins && ans.deletes)) [
    | inl c ↦ rw c (committed-cases ans.commits _ refl)
    | inr c ↦ inl (rw c refl)
  ]

  succeeds :
      ans.begins ≡ true
      → ans.deletes ≡ true
      → ans.commits ≡ true
      → ((n : ℕ) → ans.inserts n ≡ true)
      → (bulk_set_sync_targets ans mapping ss t).0 ≡ true
  unfolding bulk_set_sync_targets committed
  succeeds b d c i =
      let (t', e) = all_inserted ans.inserts mapping ss emptied i in rw (b, d, e, c) refl

  -- BulkSetSyncTargets succeeds where every statement of its transaction does. Where it succeeds, it
  -- leaves exactly the given targets of the mapping, in order, with their agent, instance and switch,
  -- with fresh ids from the next one on and with "." for an empty path, and leaves those of every other
  -- mapping; where it fails, at whatever statement, it leaves the tables as they were.
  pub bulk_set_sync_targets_lem :
      (ans.begins ≡ true
        → ans.deletes ≡ true
        → ans.commits ≡ true
        → ((n : ℕ) → ans.inserts n ≡ true)
        → (bulk_set_sync_targets ans mapping ss t).0 ≡ true)
      × ((bulk_set_sync_targets ans mapping ss t).0 ≡ false
          → (bulk_set_sync_targets ans mapping ss t).1 ≡ t)
      × ((bulk_set_sync_targets ans mapping ss t).0 ≡ true
          → (list_sync_targets mapping (bulk_set_sync_targets ans mapping ss t).1
              ≡ numbered mapping t.next_target ss)
            × ((other : ℕ)
                → other ≢ mapping
                → list_sync_targets other (bulk_set_sync_targets ans mapping ss t).1
                  ≡ list_sync_targets other t))
  bulk_set_sync_targets_lem = (
    succeeds,
    λ f. elim bulk-cases [ inl e ↦ ap (λ r. r.1) e | inr (y, set) ↦ absurd (cc (rw y at f)) ],
    λ y. elim bulk-cases [
      | inl e ↦ absurd (cc (rw e at y))
      | inr (y', set) ↦ (set.own, set.others)
    ],
  )
