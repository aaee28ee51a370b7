-- ===== src/Network/Sessions/Engine.antt =====
-- TCPSessionEngine: `observe`, `_create` and `_starts_new_connection`. A connection is known by its
-- place in `order`; `active` and `completed` hold places, as the source's hold references.
pub mod Tables
pub mod Cases
pub mod Filed
pub mod Capacity
pub mod Counted
pub mod Separate
pub mod Numbered
pub mod Bytes
pub mod Refused
pub mod Report
use securemailscope.Base.{
  ℕ, zero, suc, ◌+◌, Bool, false, ◌&&◌, ◌||◌, not, List, [], ◌∷◌, ◌++◌, Option, none, some, length,
  get_elem?, any, leb, ◌==◌, if◌then◌else◌,
}
use securemailscope.Evidence.{PacketReference, WarningCode}
use securemailscope.Network.ByteBudget as Budget
use securemailscope.Network.Flows.{Text, FlowKey, normalize, eq_key}
use securemailscope.Network.Reassembly.Directional.{is_some}
use securemailscope.Network.Sessions.{Packet, AnalysisConfig, Shared, SessionState, new_session}
use securemailscope.Network.Sessions.Roles.{assign_roles, flow_id_for, session_id_for}
use securemailscope.Network.Sessions.Observe as Session

pub record TcpSessionEngine : Type 0 where
  pub shared : Shared
  pub order : List SessionState
  pub active : List (FlowKey × ℕ)
  pub completed : List ℕ
  pub instances : List (FlowKey × ℕ)
  pub refused_keys : List FlowKey
  pub refused_packet_count : ℕ
  pub tuple_reuse_count : ℕ

-- TCPSessionEngine(...): `__init__`.
unfoldable pub new : AnalysisConfig → TcpSessionEngine
new config = record {
  shared = record { global_budget = Budget.new config.max_total_payload_bytes; warnings = [] };
  order = [];
  active = [];
  completed = [];
  instances = [];
  refused_keys = [];
  refused_packet_count = 0;
  tuple_reuse_count = 0;
}

-- table.get(key)
unfoldable pub find_key {ℓ} : {A : Type ℓ} → FlowKey → List (FlowKey × A) → Option A
find_key key [] = none
find_key key ((k, a) ∷ table) = if eq_key key k then some a else find_key key table

-- table[key] = a
unfoldable pub set_key {ℓ} : {A : Type ℓ} → FlowKey → A → List (FlowKey × A) → List (FlowKey × A)
set_key key a [] = (key, a) ∷ []
set_key key a ((k, b) ∷ table) =
    if eq_key key k then (k, a) ∷ table else (k, b) ∷ set_key key a table

-- del table[key]
unfoldable pub del_key {ℓ} : {A : Type ℓ} → FlowKey → List (FlowKey × A) → List (FlowKey × A)
del_key key [] = []
del_key key ((k, a) ∷ table) =
    let rest = del_key key table in if eq_key key k then rest else (k, a) ∷ rest

unfoldable pub set_at {ℓ} : {A : Type ℓ} → ℕ → A → List A → List A
set_at i a [] = []
set_at zero a (x ∷ xs) = a ∷ xs
set_at (suc i) a (x ∷ xs) = x ∷ set_at i a xs

-- A connection that is not closed.
unfoldable pub is_open : Option SessionState → Bool
is_open none = false
is_open (some s) = not s.closed

unfoldable pub count_open : List SessionState → List (FlowKey × ℕ) → ℕ
unfolding is_open
count_open order [] = 0
count_open order ((key, i) ∷ active) =
    (if is_open (get_elem? order i) then 1 else 0) + count_open order active

unfoldable pub open_session_count : TcpSessionEngine → ℕ
unfolding count_open
open_session_count e = count_open e.order e.active

unfoldable pub differs : Option ℕ → ℕ → Bool
differs none seq = false
differs (some isn) seq = not (seq == isn)

unfoldable pub starts_new_connection : SessionState → Packet → Bool
unfolding differs
starts_new_connection s packet =
    let progressed =
      s.saw_payload || (s.closed || (is_some s.client_fin || is_some s.server_fin)) in
    (packet.segment.syn && not packet.ack_flag)
    && (not s.syn_observed || (differs s.client_isn packet.segment.seq || progressed))

unfoldable pub starts_new : Option SessionState → Packet → Bool
starts_new none packet = false
starts_new (some s) packet = starts_new_connection s packet

unfoldable pub or_zero : Option ℕ → ℕ
or_zero none = 0
or_zero (some n) = n

unfoldable pub warn : TcpSessionEngine → WarningCode → TcpSessionEngine
warn e code = record e { shared = record e.shared { warnings = code ∷ e.shared.warnings } }

unfoldable pub ref_of : Packet → PacketReference
ref_of packet = record { packet_number = packet.packet_number; timestamp_ns = packet.timestamp_ns }

-- A packet of a key that was turned away before.
unfoldable pub skip : TcpSessionEngine → TcpSessionEngine
skip e = record e { refused_packet_count = e.refused_packet_count + 1 }

-- The active connection of a key, which sits at `i`, makes room for a new one.
unfoldable pub reuse : TcpSessionEngine → FlowKey → ℕ → TcpSessionEngine
unfolding warn
reuse e key i =
    warn
      (record e {
        completed = e.completed ++ (i ∷ []);
        active = del_key key e.active;
        tuple_reuse_count = e.tuple_reuse_count + 1;
      })
      WarningCode.tuple_reuse

-- What `_create` refuses a connection for.
unfoldable pub refusal : AnalysisConfig → TcpSessionEngine → Option WarningCode
refusal config e =
    if leb config.max_concurrent_sessions (open_session_count e)
    then some WarningCode.limit_concurrent_sessions
    else if leb config.max_total_sessions (length e.order)
    then some WarningCode.limit_total_sessions
    else none

unfoldable pub refuse : TcpSessionEngine → FlowKey → WarningCode → TcpSessionEngine
unfolding warn
refuse e key code = record (warn e code) {
  refused_keys = key ∷ e.refused_keys;
  refused_packet_count = e.refused_packet_count + 1;
}

module _ (sha256_hex : Text → Text) (capture_id : Text) (config : AnalysisConfig) where
  -- The flow, the connection and its number, as `_create` makes them.
  unfoldable pub created : TcpSessionEngine → FlowKey → Packet → SessionState
  unfolding or_zero
  created e key packet =
      let roles = assign_roles packet in
      let flow_id = flow_id_for sha256_hex key in
      let flow_instance = or_zero (find_key key e.instances) + 1 in
      new_session config e.shared (session_id_for sha256_hex capture_id flow_id flow_instance)
        (record {
          flow_id = flow_id;
          client = roles.client;
          server = roles.server;
          role_status = roles.status;
          role_basis = roles.basis;
        })
        flow_instance

  unfoldable pub opened : TcpSessionEngine → FlowKey → Packet → TcpSessionEngine
  unfolding or_zero
  opened e key packet = record e {
    instances = set_key key (or_zero (find_key key e.instances) + 1) e.instances;
    order = e.order ++ (created e key packet ∷ []);
    active = set_key key (length e.order) e.active;
  }

module _ (sha256 blake2b : List ℕ → List ℕ) (config : AnalysisConfig) where
  -- state.observe(packet, ref) for the connection at `i`
  unfoldable pub deliver_to : TcpSessionEngine → ℕ → Packet → Option SessionState → TcpSessionEngine
  deliver_to e i packet none = e
  deliver_to e i packet (some s) =
      let (s', shared) = Session.observe sha256 blake2b config s e.shared packet (ref_of packet) in
      record e { order = set_at i s' e.order; shared = shared }

  unfoldable pub deliver : TcpSessionEngine → ℕ → Packet → TcpSessionEngine
  unfolding deliver_to
  deliver e i packet = deliver_to e i packet (get_elem? e.order i)

module _ (sha256 blake2b : List ℕ → List ℕ) (sha256_hex : Text → Text) (capture_id : Text)
    (config : AnalysisConfig) where
  unfoldable pub open_unless :
      TcpSessionEngine → FlowKey → Packet → Option WarningCode → TcpSessionEngine
  unfolding opened deliver
  open_unless e key packet none =
      deliver sha256 blake2b config (opened sha256_hex capture_id config e key packet)
        (length e.order) packet
  open_unless e key packet (some code) = refuse e key code

  unfoldable pub open_new : TcpSessionEngine → FlowKey → Packet → TcpSessionEngine
  unfolding open_unless
  open_new e key packet = open_unless e key packet (refusal config e)

  unfoldable pub serve : TcpSessionEngine → FlowKey → Packet → Option ℕ → TcpSessionEngine
  unfolding open_new deliver
  serve e key packet none = open_new e key packet
  serve e key packet (some i) =
      if starts_new (get_elem? e.order i) packet
      then open_new (reuse e key i) key packet
      else deliver sha256 blake2b config e i packet

  unfoldable pub observe : TcpSessionEngine → Packet → TcpSessionEngine
  unfolding serve
  observe e packet =
      let key = normalize packet.source packet.destination in
      if any (eq_key key) e.refused_keys then skip e else serve e key packet (find_key key e.active)

  unfoldable pub observe_all : TcpSessionEngine → List Packet → TcpSessionEngine
  unfolding observe
  observe_all e [] = e
  observe_all e (packet ∷ packets) = observe_all (observe e packet) packets
