-- ===== src/Network/Sessions.antt =====
-- network/sessions.py: the state of one connection, `_SessionState`, and what it is read from.
pub mod Roles
pub mod Observe
pub mod Finalize
pub mod Engine
use securemailscope.Base.{ℕ, Bool, false, List, [], Option, none}
use securemailscope.Evidence.{PacketReference, EvidenceStatus, WarningCode}
use securemailscope.Network.ByteBudget as Budget
use securemailscope.Network.Flows.{Text, Endpoint, FlowKey, normalize}
use securemailscope.Network.Reassembly.Directional.{ParsedPacket, DirectionalReassembler}

-- ParsedPacket of ingestion/dissect.py as the sessions read it: `segment` holds the fields that
-- reassembly reads too, `source` and `destination` pair src_ip with src_port and dst_ip with dst_port.
pub record Packet : Type 0 where
  pub packet_number : ℕ
  pub timestamp_ns : ℕ
  pub source : Endpoint
  pub destination : Endpoint
  pub ack_flag : Bool
  pub ack : ℕ
  pub segment : ParsedPacket

-- The limits of config.AnalysisConfig that the sessions read.
pub record AnalysisConfig : Type 0 where
  pub max_segments_per_direction : ℕ
  pub max_session_payload_bytes : ℕ
  pub max_total_payload_bytes : ℕ
  pub max_concurrent_sessions : ℕ
  pub max_total_sessions : ℕ

pub data RoleBasis : Type 0 where
  tcp_syn tcp_syn_ack well_known_port first_packet_sender : RoleBasis

-- models/tcp.py, TCPFlow; the address family is passed on from the packet and is left out.
pub record TcpFlow : Type 0 where
  pub flow_id : Text
  pub client : Endpoint
  pub server : Endpoint
  pub role_status : EvidenceStatus
  pub role_basis : RoleBasis

-- What every connection of a capture shares: the global budget and the warning sink, whose codes
-- stand with the latest first.
pub record Shared : Type 0 where
  pub global_budget : Budget.ByteBudget
  pub warnings : List WarningCode

-- `flow_instance` is the source's `instance`.
pub record SessionState : Type 0 where
  pub session_id : Text
  pub flow : TcpFlow
  pub flow_instance : ℕ
  pub budget : Budget.ByteBudget
  pub c2s : DirectionalReassembler
  pub s2c : DirectionalReassembler
  pub packet_count : ℕ
  pub first_packet : Option PacketReference
  pub last_packet : Option PacketReference
  pub syn_observed : Bool
  pub syn_ack_observed : Bool
  pub handshake_ack_observed : Bool
  pub client_isn : Option ℕ
  pub server_isn : Option ℕ
  pub syn_packet : Option PacketReference
  pub syn_ack_packet : Option PacketReference
  pub client_fin : Option PacketReference
  pub server_fin : Option PacketReference
  pub reset_packet : Option PacketReference
  pub saw_payload : Bool
  pub closed : Bool

-- DirectionalReassembler(...): `__init__`.
unfoldable pub new_direction : Budget.ByteBudget → Shared → DirectionalReassembler
new_direction budget shared = record {
  space = none;
  syn_ext = none;
  intervals = [];
  signatures = [];
  conflicts = [];
  segments = [];
  limit_dropped = [];
  not_captured = [];
  packet_count = 0;
  payload_packet_count = 0;
  retransmission_count = 0;
  duplicate_count = 0;
  out_of_order_count = 0;
  dropped_by_limit_count = 0;
  fin_observed = false;
  raised = false;
  rst_observed = false;
  snapshot_truncated_count = 0;
  max_end_ext = none;
  peer_ack_ext = none;
  first_packet = none;
  last_packet = none;
  limits = record {
    session_budget = budget;
    global_budget = shared.global_budget;
    truncated_by_limit = false;
    warnings = shared.warnings;
  };
}

-- _SessionState(...): `__init__`.
unfoldable pub new_session : AnalysisConfig → Shared → Text → TcpFlow → ℕ → SessionState
unfolding new_direction
new_session config shared session_id flow flow_instance =
    let budget = Budget.new config.max_session_payload_bytes in
    record {
      session_id = session_id;
      flow = flow;
      flow_instance = flow_instance;
      budget = budget;
      c2s = new_direction budget shared;
      s2c = new_direction budget shared;
      packet_count = 0;
      first_packet = none;
      last_packet = none;
      syn_observed = false;
      syn_ack_observed = false;
      handshake_ack_observed = false;
      client_isn = none;
      server_isn = none;
      syn_packet = none;
      syn_ack_packet = none;
      client_fin = none;
      server_fin = none;
      reset_packet = none;
      saw_payload = false;
      closed = false;
    }

-- The flow key of a connection, which the engine files it under.
unfoldable pub key_of : SessionState → FlowKey
key_of s = normalize s.flow.client s.flow.server
