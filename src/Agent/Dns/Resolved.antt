-- ===== src/Agent/Dns/Resolved.antt =====
-- What the embedded DNS server answers from the records it was last given.
use craft_stack.Prelude.{
  List, [], ◌∷◌, ◌++◌, append-nil, append_assoc, Text, Bool, true, Option, none, some, same,
  if◌then◌else◌, ◌≢◌, codes, ◌==◌, ◌≡◌, refl, sym, ap, ◌∙◌, arith,
}
use craft_stack.Prelude.Dict.{Dict, get, put, get-put, get-empty}
use craft_stack.GoText.{to_lower, has_suffix}
use craft_stack.Agent.Dns.{
  Record, Server, Question, QueryType, type_a, type_aaaa, other_type, Answer, key_of, put_records,
  update_records, answer_with, answer_found, answer_all, rcode_of, handle_query, with_dot,
  name_error, success,
}

abbrev pub or_else : Option Text → Option Text → Option Text
or_else none b = b
or_else (some a) b = some a

-- A name with a dot behind it, where it does not end in one
abbrev pub dotted : Text → Text
dotted [] = codes "."
dotted (c ∷ []) = if c == b'.' then c ∷ [] else c ∷ codes "."
dotted (c ∷ d ∷ s) = c ∷ dotted (d ∷ s)

-- The address of the last record of a name
abbrev pub last_of : Text → List Record → Option Text
last_of name [] = none
last_of name (r ∷ rs) =
    or_else (last_of name rs)
      (if same (to_lower (dotted r.fqdn)) name then some r.ip_address else none)

with_dot_lem : (s : Text) → with_dot s ≡ dotted s
unfolding with_dot has_suffix same
with_dot_lem [] = refl
with_dot_lem (c ∷ []) = ground arith
with_dot_lem (c ∷ d ∷ s) = rw (sym (with_dot_lem (d ∷ s))) (ground arith)

or_else-if :
    (last : Option Text) (b : Bool) (ip : Text) (rest : Option Text)
    → or_else last (if b then some ip else rest)
      ≡ or_else (or_else last (if b then some ip else none)) rest
or_else-if last b ip rest = ground arith

get-put_records :
    (rs : List Record) (m : Dict Text) (name : Text)
    → get (put_records rs m) name ≡ or_else (last_of name rs) (get m name)
unfolding put_records
get-put_records [] m name = refl
get-put_records (r ∷ rs) m name =
    get-put_records rs (put m (key_of r) r.ip_address) name
    ∙ ap (or_else (last_of name rs)) (get-put m (key_of r) name r.ip_address)
    ∙ rw (with_dot_lem r.fqdn) (
        or_else-if (last_of name rs) (same (to_lower (dotted r.fqdn)) name) r.ip_address
          (get m name))

-- The bytes of the last address of a name, for a question of type A
module _ (to4 : Text → Option Text) where
  abbrev pub bytes_for : QueryType → Option Text → Option Text
  bytes_for type_a (some ip) = to4 ip
  bytes_for type_a none = none
  bytes_for type_aaaa last = none
  bytes_for (other_type n) last = none

  abbrev pub answer_of : Question → Option Text → List Answer
  answer_of q none = []
  answer_of q (some bytes) = record { name = q.name; ttl = 30; address = bytes } ∷ []

  abbrev pub expected : List Record → List Question → List Answer
  expected rs [] = []
  expected rs (q ∷ qs) =
      answer_of q (bytes_for q.qtype (last_of (to_lower q.name) rs)) ++ expected rs qs

  answer_with_lem : (q : Question) (b : Option Text) → answer_with to4 q b ≡ answer_of q b
  unfolding answer_with
  answer_with_lem q none = refl
  answer_with_lem q (some bytes) = refl

  answer_found_lem :
      (q : Question) (t : QueryType) (last : Option Text)
      → answer_found to4 q t last ≡ answer_of q (bytes_for t last)
  unfolding answer_found
  answer_found_lem q type_a (some ip) = answer_with_lem q (to4 ip)
  answer_found_lem q type_a none = refl
  answer_found_lem q type_aaaa last = refl
  answer_found_lem q (other_type n) last = refl

  or_none : (last : Option Text) → or_else last none ≡ last
  or_none last = ground arith

  found_at :
      (rs : List Record) (q : Question)
      → answer_found to4 q q.qtype (get (put_records rs []) (to_lower q.name))
        ≡ answer_of q (bytes_for q.qtype (last_of (to_lower q.name) rs))
  found_at rs q = rw (answer_found_lem, get-put_records, get-empty, or_none)

  answer_all_lem :
      (rs : List Record) (qs : List Question) (answers : List Answer)
      → answer_all to4 (put_records rs []) qs answers ≡ answers ++ expected rs qs
  unfolding answer_all
  answer_all_lem rs [] answers = sym (append-nil answers)
  answer_all_lem rs (q ∷ qs) answers =
      ap (λ found. answer_all to4 (put_records rs []) qs (answers ++ found)) (found_at rs q)
      ∙ answer_all_lem rs qs
          (answers ++ answer_of q (bytes_for q.qtype (last_of (to_lower q.name) rs)))
      ∙ append_assoc answers (answer_of q (bytes_for q.qtype (last_of (to_lower q.name) rs)))
          (expected rs qs)

  -- A query for names of the mesh is answered, with authority, from the records that were given
  -- last: each question of type A by the last record whose name, with a dot at its end and in small
  -- letters, is the name that is asked for in small letters, if its address is one of IPv4; no
  -- other question has an answer; and the reply is NXDOMAIN exactly where no question has one.
  pub handle_query-update_records :
      (rs : List Record) (s : Server) (qs : List Question)
      → ((handle_query to4 (update_records rs s) qs).answers ≡ expected rs qs)
        × (expected rs qs ≡ [] → (handle_query to4 (update_records rs s) qs).rcode ≡ name_error)
        × (expected rs qs ≢ [] → (handle_query to4 (update_records rs s) qs).rcode ≡ success)
        × ((handle_query to4 (update_records rs s) qs).authoritative ≡ true)
  unfolding handle_query update_records
  handle_query-update_records rs s qs = (
    answer_all_lem rs qs [],
    λ e. ap rcode_of (answer_all_lem rs qs [] ∙ e),
    λ e. ap rcode_of (answer_all_lem rs qs []) ∙ some_answer (expected rs qs) e,
    refl,
  )
    where
      some_answer : (answers : List Answer) → answers ≢ [] → rcode_of answers ≡ success
      some_answer [] e = absurd (e refl)
      some_answer (a ∷ answers) e = refl
