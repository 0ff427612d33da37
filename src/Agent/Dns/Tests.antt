-- ===== src/Agent/Dns/Tests.antt =====
-- Runs of the embedded DNS server.
use craft_stack.Prelude.{
  ◌≡◌, ◌≢◌, refl, List, [], ◌∷◌, Text, codes, true, Option, none, some, same, if◌then◌else◌,
}
use craft_stack.GoText.{has_prefix, has_suffix, to_lower}
use craft_stack.GoText.Format.{show_int, digits}
use craft_stack.Agent.Dns.{
  Record, Server, Question, type_a, type_aaaa, new_server, with_dot, update_records, put_records,
  update_dns_records, receive_records, handle_query, name_error, success, handle_forward,
  forward_to, or_next, relayed, server_failure, listen_address,
}
use craft_stack.Agent.Dns.Resolved.{expected, handle_query-update_records}

abbrev parse : Text → Option Text
parse ip = if same ip (codes "172.30.1.4") then some (172 ∷ 30 ∷ 1 ∷ 4 ∷ []) else none

abbrev server : Server
server = new_server (codes "10.10.0.1") 0 []

abbrev records : List Record
records =
    record { fqdn = codes "Db.craftstack.internal"; ip_address = codes "fd00::1" }
    ∷ record { fqdn = codes "db.craftstack.internal."; ip_address = codes "172.30.1.4" }
    ∷ []

-- The second record of a name wins; a question for an IPv6 address has no answer.
abbrev questions : List Question
questions =
    record { name = codes "DB.craftstack.internal."; qtype = type_a }
    ∷ record { name = codes "db.craftstack.internal."; qtype = type_aaaa }
    ∷ []

handle_query-update_records_example :
    ((handle_query parse (update_records records server) questions).answers
      ≡ expected parse records questions)
    × (expected parse records questions ≡ []
        → (handle_query parse (update_records records server) questions).rcode ≡ name_error)
    × (expected parse records questions ≢ []
        → (handle_query parse (update_records records server) questions).rcode ≡ success)
    × ((handle_query parse (update_records records server) questions).authoritative ≡ true)
handle_query-update_records_example = handle_query-update_records parse records server questions

one_answer :
    expected parse records questions
    ≡ record { name = codes "DB.craftstack.internal."; ttl = 30; address = 172 ∷ 30 ∷ 1 ∷ 4 ∷ [] }
      ∷ []
unfolding same to_lower with_dot has_suffix
one_answer = refl

-- An answer without records does not clear the last one.
stale_record :
    receive_records [] (some (update_records records server)) ≡ some (update_records records server)
unfolding receive_records
stale_record = refl

updated_server : update_dns_records [] (some server) ≡ some server
unfolding update_dns_records update_records put_records new_server with_dot has_suffix same
updated_server = refl

listens : listen_address server ≡ codes "10.10.0.1:53"
unfolding listen_address show_int digits new_server
listens = refl

abbrev second_only : Text → Option Text
second_only resolver = if same resolver (codes "1.1.1.1:53") then some (codes "answer") else none

-- The server does not ask itself.
forwards :
    (handle_forward second_only [] server ≡ relayed (codes "answer"))
    × (handle_forward some (codes "10.10.0.1:53" ∷ []) server ≡ server_failure)
unfolding handle_forward forward_to or_next has_prefix same new_server
forwards = (refl, refl)
