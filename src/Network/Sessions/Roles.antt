-- ===== src/Network/Sessions/Roles.antt =====
-- `_assign_roles`: who is the client of a connection; the identifiers of flows and sessions; the
-- service ports of protocols/hints.py. The hexadecimal SHA-256 of hashlib is a parameter.
use securemailscope.Base.{
  ℕ, zero, suc, ◌+◌, ◌/◌, ◌%◌, Bool, ◌&&◌, not, List, [], ◌∷◌, ◌++◌, any, take, ltb, ◌==◌,
  if◌then◌else◌,
}
use securemailscope.Evidence.{EvidenceStatus}
use securemailscope.Network.Flows.{Text, Endpoint, FlowKey}
use securemailscope.Network.Sessions.{
  Packet, RoleBasis, tcp_syn, tcp_syn_ack, well_known_port, first_packet_sender,
}

-- SERVICE_PORTS: the keys of EMAIL_SERVICE_PORTS and seven more.
abbrev pub service_ports : List ℕ
service_ports =
    25 ∷ 110 ∷ 143 ∷ 465 ∷ 587 ∷ 993 ∷ 995 ∷ 2525 ∷ 21 ∷ 22 ∷ 53 ∷ 80 ∷ 443 ∷ 8080 ∷ 8443 ∷ []

unfoldable pub is_service_port : ℕ → Bool
is_service_port port = any (◌==◌ port) service_ports

pub record Roles : Type 0 where
  pub client : Endpoint
  pub server : Endpoint
  pub status : EvidenceStatus
  pub basis : RoleBasis

unfoldable pub roles : Endpoint → Endpoint → EvidenceStatus → RoleBasis → Roles
roles client server status basis = record {
  client = client;
  server = server;
  status = status;
  basis = basis;
}

unfoldable pub assign_roles : Packet → Roles
unfolding roles is_service_port
assign_roles packet =
    let syn = packet.segment.syn in
    let source_is_service = is_service_port packet.source.port in
    let destination_is_service = is_service_port packet.destination.port in
    if syn && not packet.ack_flag
    then roles packet.source packet.destination EvidenceStatus.observed tcp_syn
    else if syn && packet.ack_flag
    then roles packet.destination packet.source EvidenceStatus.observed tcp_syn_ack
    else if source_is_service && not destination_is_service
    then roles packet.destination packet.source EvidenceStatus.inferred well_known_port
    else if destination_is_service && not source_is_service
    then roles packet.source packet.destination EvidenceStatus.inferred well_known_port
    else roles packet.source packet.destination EvidenceStatus.inferred first_packet_sender

-- str(n)
digits : ℕ → ℕ → Text
digits zero n = []
digits (suc fuel) n =
    let front = digits fuel (n / 10) in
    if ltb n 10 then (48 + n) ∷ [] else front ++ ((48 + n % 10) ∷ [])

unfoldable pub decimal : ℕ → Text
unfolding digits
decimal n = digits (suc n) n

-- "flow-", "sess-", "TCP|"
abbrev flow_prefix : Text
flow_prefix = 102 ∷ 108 ∷ 111 ∷ 119 ∷ 45 ∷ []

abbrev session_prefix : Text
session_prefix = 115 ∷ 101 ∷ 115 ∷ 115 ∷ 45 ∷ []

abbrev transport_prefix : Text
transport_prefix = 84 ∷ 67 ∷ 80 ∷ 124 ∷ []

unfoldable pub flow_material : FlowKey → Text
flow_material key =
    transport_prefix
    ++ (key.left.ip
        ++ (58
            ∷ (decimal key.left.port ++ (124 ∷ (key.right.ip ++ (58 ∷ decimal key.right.port))))))

module _ (sha256_hex : Text → Text) where
  unfoldable pub flow_id_for : FlowKey → Text
  flow_id_for key = flow_prefix ++ take 16 (sha256_hex (flow_material key))

  unfoldable pub session_id_for : Text → Text → ℕ → Text
  session_id_for capture_id flow_id flow_instance =
      session_prefix
      ++ take 16 (sha256_hex (capture_id ++ (124 ∷ (flow_id ++ (124 ∷ decimal flow_instance)))))
