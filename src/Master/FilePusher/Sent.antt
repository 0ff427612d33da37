-- ===== src/Master/FilePusher/Sent.antt =====
-- What one push leaves on a host.
use mathlib.Core.Path.{subst}
use craft_stack.Prelude.{
  ℕ, zero, suc, ◌≤◌, ◌≡◌, ◌≢◌, ◌⊎◌, inl, inr, refl, sym, ap, ◌∙◌, List, [], ◌∷◌, ◌++◌, Text, true,
  false, Option, none, some, same, same_iff, take, drop, length, length-drop, take-append-drop,
  arith, Bool-cases,
}
use craft_stack.Prelude.Dict.{get, put, get-put, get-put_self}
use craft_stack.Master.Registry.{TargetAgent}
use craft_stack.Agent.PushFile.{
  FileMetadata, internal, failed_precondition, invalid_argument, data_loss, success, PushReply,
  push_file, tmp_path, final_path,
}
use craft_stack.Agent.PushFile.Received.{
  later, first, concat, all_later, IsWorking, Arrived, push_file-unmarked,
}
use craft_stack.Master.FilePusher.{
  Host, Fleet, FileInfo, chunk_size, reads, rest_chunks, chunks, metadata_for, record_push, send_to,
  push_file_to_agent,
}

-- The reads of a file, put together, are the file.
concat-reads : (n : ℕ) (c : Text) → length c ≤ n → concat (reads n c) ≡ c
unfolding reads
concat-reads zero [] h = refl
concat-reads zero (x ∷ c) h = absurd (omega arith)
concat-reads (suc n) [] h = refl
concat-reads (suc n) (x ∷ c) h =
    ap (λ r. take chunk_size (x ∷ c) ++ r)
      (concat-reads n (drop chunk_size (x ∷ c)) (omega (arith, length-drop chunk_size (x ∷ c))))
    ∙ take-append-drop chunk_size (x ∷ c)

rest_chunks_later : (ds : List Text) → rest_chunks ds ≡ all_later ds
rest_chunks_later [] = refl
rest_chunks_later (d ∷ ds) = ap (◌∷◌ (later d)) (rest_chunks_later ds)

module _ (hash uuid : Text → Text) where
  -- A push of a file that is not empty to a disk that works
  pushed :
      (file : FileInfo) (x : ℕ) (c : Text) (id : Text) (h : Host)
      → ((file.hash ≡ []) ⊎ (file.hash ≡ hash (x ∷ c)))
      → IsWorking h.answers
      → tmp_path h.base_dir (metadata_for hash uuid file id (x ∷ c))
        ≢ final_path h.base_dir (metadata_for hash uuid file id (x ∷ c))
      → Arrived hash h.base_dir (metadata_for hash uuid file id (x ∷ c)) (x ∷ c) h.files (
          push_file hash h.base_dir h.answers
            (chunks (metadata_for hash uuid file id (x ∷ c)) (reads (length (x ∷ c)) (x ∷ c)))
            true
            h.files)
  unfolding chunks reads
  pushed file x c id h e w ne =
      rw (rest_chunks_later (reads (length c) (drop chunk_size (x ∷ c)))) (
        subst
          (λ t. Arrived hash h.base_dir m t h.files (
            push_file hash h.base_dir h.answers
              (first m (take chunk_size (x ∷ c))
                ∷ all_later (reads (length c) (drop chunk_size (x ∷ c))))
              true h.files))
          whole
          (push_file-unmarked hash h.base_dir h.answers m (take chunk_size (x ∷ c))
            (reads (length c) (drop chunk_size (x ∷ c))) h.files w ne (right_hash)))
    where
      m : FileMetadata
      m = metadata_for hash uuid file id (x ∷ c)

      whole : take chunk_size (x ∷ c) ++ concat (reads (length c) (drop chunk_size (x ∷ c))) ≡ x ∷ c
      whole = unfold reads in concat-reads (suc (length c)) (x ∷ c) (omega arith)

      right_hash :
          (m.file_hash ≡ [])
          ⊎ (m.file_hash
              ≡ hash
                  (take chunk_size (x ∷ c) ++ concat (reads (length c) (drop chunk_size (x ∷ c)))))
      right_hash = inr (rw whole (ground (arith, same_iff file.hash [])))

-- The metadata of a path; the paths on a host depend on nothing else.
abbrev pub named : Text → FileMetadata
named rel = record {
  file_path = rel;
  file_hash = [];
  file_size = 0;
  target_agent_id = [];
  sync_id = [];
}

-- The host works, and its temporary and final paths of a file differ.
pub record IsReady (rel : Text) (host : Host) : Type 0 where
  pub works : IsWorking host.answers
  pub distinct : tmp_path host.base_dir (named rel) ≢ final_path host.base_dir (named rel)

-- The host at an address is ready.
abbrev pub Ready : Text → Text → Fleet → Type 0
Ready rel address fleet = (h : Host) × (get fleet.hosts address ≡ some h) × IsReady rel h

-- It has a content at a file's final path, too.
abbrev pub Holds : Text → Text → Text → Fleet → Type 0
Holds rel content address fleet =
    (h : Host) × (get fleet.hosts address ≡ some h)
    × IsReady rel h
    × (get h.files (final_path h.base_dir (named rel)) ≡ some content)

apart : (j k : Text) → k ≢ j → same j k ≡ false
apart j k n = ground (arith, same_iff j k)

module _ (hash uuid : Text → Text) where
  record_push-hosts :
      (id address : Text) (m : FileMetadata) (h : Host) (r : PushReply) (fleet : Fleet)
      → (record_push hash uuid id m h address r fleet).1.hosts
        ≡ put fleet.hosts address (record h { files = r.1 })
  unfolding record_push
  record_push-hosts id address m h (internal, g) fleet = refl
  record_push-hosts id address m h (failed_precondition, g) fleet = refl
  record_push-hosts id address m h (invalid_argument, g) fleet = refl
  record_push-hosts id address m h (data_loss, g) fleet = refl
  record_push-hosts id address m h (success i j, g) fleet = refl

  record_push-ok :
      (id address : Text) (m : FileMetadata) (h : Host) (r : PushReply) (fleet : Fleet) (i j : Text)
      → r.0 ≡ success i j
      → (record_push hash uuid id m h address r fleet).0 ≡ true
  unfolding record_push
  record_push-ok id address m h r fleet i j e = ground arith

  send_to-other :
      (file : FileInfo) (content id address other : Text) (o : Option Host) (fleet : Fleet)
      → other ≢ address
      → get (send_to hash uuid file content id address o fleet).1.hosts other
        ≡ get fleet.hosts other
  unfolding send_to
  send_to-other file content id address other none fleet n = refl
  send_to-other file content id address other (some h) fleet n =
      rw (record_push-hosts, get-put, apart address other n) refl

module _ (hash uuid : Text → Text) (file : FileInfo) (x : ℕ) (c : Text)
    (e : (file.hash ≡ []) ⊎ (file.hash ≡ hash (x ∷ c))) where
  pub sent-Holds :
      (id : Text) (a : TargetAgent) (fleet : Fleet)
      → Ready file.rel_path a.address fleet
      → ((push_file_to_agent hash uuid file (x ∷ c) id a fleet).0 ≡ true)
        × Holds file.rel_path
            (x ∷ c)
            a.address
            (push_file_to_agent hash uuid file (x ∷ c) id a fleet).1
  unfolding push_file_to_agent send_to
  sent-Holds id a fleet (h, p, r) =
      let arrived = pushed hash uuid file x c id h e r.works r.distinct in
      rw p (
        ok_at id a fleet h arrived.ok,
        (
          record h { files = _ },
          record_at id a fleet h,
          record { works = r.works; distinct = r.distinct },
          arrived.stored,
        ),
      )
    where
      ok_at :
          (id : Text) (a : TargetAgent) (fleet : Fleet) (h : Host)
          → (push_file hash h.base_dir h.answers
              (chunks (metadata_for hash uuid file id (x ∷ c)) (reads (length (x ∷ c)) (x ∷ c)))
              true
              h.files).0
            ≡ success (hash (x ∷ c)) (uuid id)
          → (send_to hash uuid file (x ∷ c) id a.address (some h) fleet).0 ≡ true
      ok_at id a fleet h k =
          unfold send_to in
          record_push-ok hash uuid id a.address (metadata_for hash uuid file id (x ∷ c)) h _ fleet
            (hash (x ∷ c)) (uuid id) k

      record_at :
          (id : Text) (a : TargetAgent) (fleet : Fleet) (h : Host)
          → get (send_to hash uuid file (x ∷ c) id a.address (some h) fleet).1.hosts a.address
            ≡ some (record h {
              files =
                  (push_file hash h.base_dir h.answers
                    (chunks
                      (metadata_for hash uuid file id (x ∷ c))
                      (reads (length (x ∷ c)) (x ∷ c)))
                    true
                    h.files).1;
            })
      record_at id a fleet h = unfold send_to in rw (record_push-hosts, get-put_self) refl

  -- A push to any agent keeps what an address holds.
  pub sent-keeps :
      (id address : Text) (a : TargetAgent) (fleet : Fleet)
      → Holds file.rel_path (x ∷ c) address fleet
      → Holds file.rel_path (x ∷ c) address (push_file_to_agent hash uuid file (x ∷ c) id a fleet).1
  sent-keeps id address a fleet (h, p, r, held) = elim (Bool-cases (same address a.address)) [
    | inl t ↦
        subst
          (λ k.
            Holds file.rel_path (x ∷ c) k (push_file_to_agent hash uuid file (x ∷ c) id a fleet).1)
          (sym ((same_iff address a.address).0 t))
          (sent-Holds id a fleet (
            subst (λ k. Ready file.rel_path k fleet) ((same_iff address a.address).0 t)
              (h, p, r))).1
    | inr t ↦ (h, other t ∙ p, r, held)
  ]
    where
      other :
          same address a.address ≡ false
          → get (push_file_to_agent hash uuid file (x ∷ c) id a fleet).1.hosts address
            ≡ get fleet.hosts address
      other t =
          unfold push_file_to_agent in
          send_to-other hash uuid file (x ∷ c) id a.address address (get fleet.hosts a.address)
            fleet (ground (arith, same_iff address a.address))

  -- A push to any agent keeps a host ready.
  pub sent-Ready :
      (id address : Text) (a : TargetAgent) (fleet : Fleet)
      → Ready file.rel_path address fleet
      → Ready file.rel_path address (push_file_to_agent hash uuid file (x ∷ c) id a fleet).1
  sent-Ready id address a fleet (h, p, r) = elim (Bool-cases (same address a.address)) [
    | inl t ↦ to_same ((same_iff address a.address).0 t)
    | inr t ↦ (h, other t ∙ p, r)
  ]
    where
      to_same :
          address ≡ a.address
          → Ready file.rel_path address (push_file_to_agent hash uuid file (x ∷ c) id a fleet).1
      to_same k =
          let (h', p', r', held) =
            (sent-Holds id a fleet (subst (λ k'. Ready file.rel_path k' fleet) k (h, p, r))).1 in
          (
            h',
            ap (λ k'. get (push_file_to_agent hash uuid file (x ∷ c) id a fleet).1.hosts k') k ∙ p',
            r',
          )

      other :
          same address a.address ≡ false
          → get (push_file_to_agent hash uuid file (x ∷ c) id a fleet).1.hosts address
            ≡ get fleet.hosts address
      other t =
          unfold push_file_to_agent in
          send_to-other hash uuid file (x ∷ c) id a.address address (get fleet.hosts a.address)
            fleet (ground (arith, same_iff address a.address))
