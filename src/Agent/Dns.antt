-- ===== src/Agent/Dns.antt =====
-- internal/agent/dns/server.go: the embedded DNS server of an agent, with updateDNSRecords of
-- internal/agent/wireguard_integration.go and its call in internal/agent/heartbeat.go. The address test of the net package, the configured
-- resolvers and their answers are arguments.
pub mod Resolved
mod Tests
use craft_stack.Prelude.{
  ℕ, List, [], ◌∷◌, ◌++◌, map, Text, codes, Bool, true, false, Option, none, some, ◌==◌, same,
  if◌then◌else◌,
}
use craft_stack.Prelude.Int.{pos}
use craft_stack.Prelude.Dict.{Dict, get, put}
use craft_stack.GoText.{has_prefix, has_suffix, to_lower}
use craft_stack.GoText.Format.{show_int}

pub record Record : Type 0 where
  pub fqdn : Text
  pub ip_address : Text

-- Server; a map of the source is never nil here
pub record Server : Type 0 where
  pub listen_ip : Text
  pub port : ℕ
  pub domain : Text
  pub records : Dict Text

-- A name with a dot at its end
unfoldable pub with_dot : Text → Text
unfolding has_suffix
with_dot s = if has_suffix s (codes ".") then s else s ++ codes "."

-- NewServer
unfoldable pub new_server : Text → ℕ → Text → Server
unfolding with_dot same
new_server listen_ip port domain = record {
  listen_ip = listen_ip;
  port = if port == 0 then 53 else port;
  domain = with_dot (if same domain [] then codes "craftstack.internal" else domain);
  records = [];
}

-- The name under which a record is kept
abbrev pub key_of : Record → Text
key_of r = to_lower (with_dot r.fqdn)

unfoldable pub put_records : List Record → Dict Text → Dict Text
put_records [] m = m
put_records (r ∷ rs) m = put_records rs (put m (key_of r) r.ip_address)

-- UpdateRecords
unfoldable pub update_records : List Record → Server → Server
unfolding put_records
update_records rs s = record s { records = put_records rs [] }

-- pb.DNSRecord
pub record DnsRecord : Type 0 where
  pub fqdn : Text
  pub ip_address : Text
  pub instance_id : Text
  pub node_id : Text

-- updateDNSRecords; an agent without a mesh has no server
unfoldable pub update_dns_records : List DnsRecord → Option Server → Option Server
update_dns_records rs none = none
update_dns_records rs (some s) =
    some (update_records (map (λ r. record { fqdn = r.fqdn; ip_address = r.ip_address }) rs) s)

-- What the reader of runHeartbeatStream does with the records of an answer: none leave the old ones
unfoldable pub receive_records : List DnsRecord → Option Server → Option Server
unfolding update_dns_records
receive_records [] s = s
receive_records (r ∷ rs) s = update_dns_records (r ∷ rs) s

pub data QueryType : Type 0 where
  type_a : QueryType
  type_aaaa : QueryType
  other_type : ℕ → QueryType

pub record Question : Type 0 where
  pub name : Text
  pub qtype : QueryType

-- A record of type A and class IN, with the four bytes of an address
pub record Answer : Type 0 where
  pub name : Text
  pub ttl : ℕ
  pub address : Text

pub data Rcode : Type 0 where
  success : Rcode
  name_error : Rcode

pub record DnsReply : Type 0 where
  pub authoritative : Bool
  pub rcode : Rcode
  pub answers : List Answer

abbrev pub rcode_of : List Answer → Rcode
rcode_of [] = name_error
rcode_of (a ∷ answers) = success

-- `to4` is net.ParseIP with To4: the four bytes, or nil
module _ (to4 : Text → Option Text) where
  unfoldable pub answer_with : Question → Option Text → List Answer
  answer_with q none = []
  answer_with q (some bytes) = record { name = q.name; ttl = 30; address = bytes } ∷ []

  unfoldable pub answer_found : Question → QueryType → Option Text → List Answer
  unfolding answer_with
  answer_found q type_a (some ip) = answer_with q (to4 ip)
  answer_found q type_a none = []
  answer_found q type_aaaa found = []
  answer_found q (other_type n) found = []

  unfoldable pub answer_all : Dict Text → List Question → List Answer → List Answer
  unfolding answer_found
  answer_all records [] answers = answers
  answer_all records (q ∷ qs) answers =
      answer_all records qs (answers ++ answer_found q q.qtype (get records (to_lower q.name)))

  -- handleQuery, up to the message that is written
  unfoldable pub handle_query : Server → List Question → DnsReply
  unfolding answer_all
  handle_query s qs =
      let answers = answer_all s.records qs [] in
      record { authoritative = true; rcode = rcode_of answers; answers = answers }

-- The message that handleForward writes: that of a resolver, or SERVFAIL
pub data Forwarded {ℓ} (R : Type ℓ) : Type ℓ where
  relayed : R → Forwarded R
  server_failure : Forwarded R

module _ {ℓ} {R : Type ℓ} (exchange : Text → Option R) where
  unfoldable pub or_next : Option R → Forwarded R → Forwarded R
  or_next none next = next
  or_next (some r) next = relayed r

  unfoldable pub forward_to : Text → List Text → Forwarded R
  unfolding or_next
  forward_to listen_ip [] = server_failure
  forward_to listen_ip (resolver ∷ resolvers) =
      let next = forward_to listen_ip resolvers in
      if has_prefix resolver (listen_ip ++ codes ":")
      then next
      else or_next (exchange resolver) next

  abbrev pub or_public : List Text → List Text
  or_public [] = codes "8.8.8.8:53" ∷ codes "1.1.1.1:53" ∷ []
  or_public (r ∷ rs) = r ∷ rs

  -- handleForward, with the resolvers that the system names
  unfoldable pub handle_forward : List Text → Server → Forwarded R
  unfolding forward_to
  handle_forward resolvers s = forward_to s.listen_ip (or_public resolvers)

-- The address on which Start listens
unfoldable pub listen_address : Server → Text
unfolding show_int
listen_address s = s.listen_ip ++ codes ":" ++ show_int (pos s.port)
