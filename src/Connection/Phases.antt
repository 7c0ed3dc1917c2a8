-- ===== src/Connection/Phases.antt =====
-- The handshake as an abstract machine, and the frames of a connection as its moves.
use hermes_device_protocol.Connection.Stable.Run.{route_keeps}
use hermes_device_protocol.Connection.Stable.Frames.{refused_keeps}
use hermes_device_protocol.Connection.Run.{
  expect_proof, gate, handle_envelope, handle_frame, on_envelope, on_json,
}
use hermes_device_protocol.Connection.Session.{refused}
use hermes_device_protocol.Connection.Challenge.{handle_proof}
use hermes_device_protocol.Wire.Envelope.{
  Envelope, EnvelopeError, envelope_from_wire, unsupported_version,
}
use hermes_device_protocol.Wire.{Json}
use hermes_device_protocol.Prelude.Strings.{contains}
use hermes_device_protocol.Connection.Stable.{IsSteady, branch, reject_keeps}
use hermes_device_protocol.Connection.Settled.{IsSettled, handle_proof-IsSettled}
use hermes_device_protocol.Connection.{
  Config, Draw, Escape, Node, NodeConnection, PendingHandshake, close, protocol_error, put_conn,
  remember_id,
}
use hermes_device_protocol.Prelude.Result.{Result, err, ok}
use hermes_device_protocol.Prelude.{
  Bool, Option, String, arith, false, if◌then◌else◌, is_some, none, refl, some, str_eq, true, ◌||◌,
  ◌≡◌,
}

pub data Phase : Type 0 where
  fresh challenged ended : Phase
  session : String → Phase

-- The moves of the machine. Nothing leads back to `fresh`, and nothing out of a session but its end.
pub data Next : Phase → Phase → Type 0 where
  stays : (p : Phase) → Next p p
  ends : (p : Phase) → Next p ended
  asks : Next fresh challenged
  admits : (d : String) → Next fresh (session d)
  proves : (d : String) → Next challenged (session d)

abbrev pub open_phase : Option String → Option PendingHandshake → Phase
open_phase (some d) p = session d
open_phase none (some p) = challenged
open_phase none none = fresh

-- The phase of a connection that is open or closed.
abbrev pub phase_of : Bool → NodeConnection → Phase
phase_of true c = ended
phase_of false c = open_phase c.device_id c.pending

-- The phase that a step leaves; an exception ends the connection.
abbrev pub phase : Result Escape (Unit {0}) × Node → Phase
phase (ok _, n) = phase_of n.conn.closed n.conn
phase (err e, n) = ended

from_fresh : (r : Result Escape (Unit {0}) × Node) → Next fresh (phase r)
from_fresh (err e, n) = ends fresh
from_fresh (ok _, n) = of_closed n.conn.closed
  where
    opened : (o : Option String) (p : Option PendingHandshake) → Next fresh (open_phase o p)
    opened none none = stays fresh
    opened none (some p) = asks
    opened (some d) p = admits d

    of_closed : (b : Bool) → Next fresh (phase_of b n.conn)
    of_closed true = ends fresh
    of_closed false = opened n.conn.device_id n.conn.pending

settled_next : (r : Result Escape (Unit {0}) × Node) → IsSettled r → Next challenged (phase r)
settled_next (err e, n) h = ends challenged
settled_next (ok _, n) h = of_fields n.conn.closed n.conn.device_id h
  where
    of_fields :
        (b : Bool) (o : Option String)
        → (b || is_some o) ≡ true
        → Next challenged (phase_of b (record n.conn { device_id = o }))
    of_fields true o h = ends challenged
    of_fields false (some d) h = proves d
    of_fields false none h = absurd (ground arith)

-- A challenge that has not been answered.
abbrev IsWaiting : PendingHandshake → NodeConnection → Type 0
IsWaiting p c = (c.device_id ≡ none) × (c.pending ≡ some p)

waiting_next :
    (p : PendingHandshake) (r : Result Escape (Unit {0}) × Node)
    → IsWaiting p r.1.conn
    → Next challenged (phase r)
waiting_next p (err e, n) h = ends challenged
waiting_next p (ok _, n) h = of_closed n.conn.closed
  where
    of_closed : (b : Bool) → Next challenged (phase_of b n.conn)
    of_closed true = ends challenged
    of_closed false = rw (h.0, h.1) (stays challenged)

IsWaiting-steady : (p : PendingHandshake) → IsSteady (IsWaiting p)
unfolding remember_id
IsWaiting-steady p = record {
  closing = λ c h. h;
  malformed = reject_keeps (IsWaiting p) (λ times c h. h) (λ c h. h);
  beating = λ t c h. h;
  remembering = λ i c h. h;
}

module _ (cfg : Config) (draw : Draw) where
  abbrev Outcome : Type 0
  Outcome = Result Escape (Unit {0}) × Node

  next_if :
      (b : Bool) (r s : Outcome) (p : Phase)
      → Next p (phase r)
      → Next p (phase s)
      → Next p (phase (if b then r else s))
  next_if true r s p hr hs = hr
  next_if false r s p hr hs = hs

  gate_next :
      (p : PendingHandshake) (e : Envelope) (n : Node)
      → Next challenged (phase (expect_proof cfg draw e n))
  gate_next p e n =
      next_if (str_eq e.type_name "proof") (handle_proof cfg draw e.payload n)
        (ok tt, close protocol_error "expected proof" n) challenged
        (settled_next (handle_proof cfg draw e.payload n)
          (handle_proof-IsSettled cfg draw e.payload n))
        (ends challenged)

  gated :
      (p : PendingHandshake) (o : Option String) (q : Option PendingHandshake) (e : Envelope)
      → (n : Node) → o ≡ none
      → q ≡ some p
      → Next challenged (phase (gate cfg draw o q e n))
  gated p none (some q) e n ho hq = gate_next p e n
  gated p none none e n ho hq = absurd (ground arith)
  gated p (some d) q e n ho hq = absurd (ground arith)

  routed :
      (P : NodeConnection → Type 0) (steady : IsSteady P) (d : String) (o : Option String)
      → (q : Option PendingHandshake) (e : Envelope) (n : Node) → o ≡ some d
      → P n.conn
      → P (gate cfg draw o q e n).1.conn
  routed P steady d (some d') q e n ho h = route_keeps P steady cfg draw d' e n h
  routed P steady d none q e n ho h = absurd (ground arith)

  waiting_refused :
      (p : PendingHandshake) (m : String) (n : Node)
      → IsWaiting p n.conn
      → Next challenged (phase (refused cfg draw m n))
  waiting_refused p m n h =
      waiting_next p (refused cfg draw m n)
        (refused_keeps (IsWaiting p) (IsWaiting-steady p) cfg draw m n h)

  challenged_envelope :
      (p : PendingHandshake) (r : Result EnvelopeError Envelope) (n : Node)
      → IsWaiting p n.conn
      → Next challenged (phase (on_envelope cfg draw r n))
  unfolding handle_envelope
  challenged_envelope p (ok e) n h =
      next_if (contains e.id n.conn.seen_ids) (ok tt, n)
        (gate cfg draw n.conn.device_id n.conn.pending e (put_conn (remember_id e.id n.conn) n))
        challenged (waiting_next p (ok tt, n) h)
        (gated p n.conn.device_id n.conn.pending e (put_conn (remember_id e.id n.conn) n) h.0 h.1)
  challenged_envelope p (err unsupported_version) n h = ends challenged
  challenged_envelope p (err _) n h = waiting_refused p "invalid envelope" n h

  challenged_json :
      (p : PendingHandshake) (o : Option Json) (n : Node)
      → IsWaiting p n.conn
      → Next challenged (phase (on_json cfg draw o n))
  challenged_json p none n h = waiting_refused p "invalid JSON" n h
  challenged_json p (some v) n h = challenged_envelope p (envelope_from_wire cfg.py v) n h

  -- A device that is known stays.
  abbrev Holding : String → NodeConnection → Type 0
  Holding d c = c.device_id ≡ some d

  Holding-steady : (d : String) → IsSteady (Holding d)
  unfolding remember_id
  Holding-steady d = record {
    closing = λ c h. h;
    malformed = reject_keeps (Holding d) (λ times c h. h) (λ c h. h);
    beating = λ t c h. h;
    remembering = λ i c h. h;
  }

  holding_next : (d : String) (r : Outcome) → Holding d r.1.conn → Next (session d) (phase r)
  holding_next d (err e, n) h = ends (session d)
  holding_next d (ok _, n) h = of_closed n.conn.closed
    where
      of_closed : (b : Bool) → Next (session d) (phase_of b n.conn)
      of_closed true = ends (session d)
      of_closed false = rw h (stays (session d))

  session_envelope :
      (d : String) (r : Result EnvelopeError Envelope) (n : Node)
      → Holding d n.conn
      → Holding d (on_envelope cfg draw r n).1.conn
  unfolding handle_envelope
  session_envelope d (ok e) n h =
      branch (Holding d) (Holding-steady d) cfg draw (contains e.id n.conn.seen_ids) (ok tt, n)
        (gate cfg draw n.conn.device_id n.conn.pending e (put_conn (remember_id e.id n.conn) n)) h
        (routed (Holding d) (Holding-steady d) d n.conn.device_id n.conn.pending e
          (put_conn (remember_id e.id n.conn) n) h h)
  session_envelope d (err unsupported_version) n h = h
  session_envelope d (err _) n h =
      refused_keeps (Holding d) (Holding-steady d) cfg draw "invalid envelope" n h

  session_json :
      (d : String) (o : Option Json) (n : Node)
      → Holding d n.conn
      → Holding d (on_json cfg draw o n).1.conn
  session_json d none n h = refused_keeps (Holding d) (Holding-steady d) cfg draw "invalid JSON" n h
  session_json d (some v) n h = session_envelope d (envelope_from_wire cfg.py v) n h

  frame_next :
      (raw : String) (n : Node) (o : Option String) (q : Option PendingHandshake)
      → n.conn.device_id ≡ o
      → n.conn.pending ≡ q
      → Next (open_phase o q) (phase (handle_frame cfg draw raw n))
  unfolding handle_frame
  frame_next raw n none none ho hq = from_fresh (handle_frame cfg draw raw n)
  frame_next raw n none (some p) ho hq = challenged_json p (cfg.loads raw) n (ho, hq)
  frame_next raw n (some d) q ho hq =
      holding_next d (handle_frame cfg draw raw n) (session_json d (cfg.loads raw) n ho)

  -- On an open connection every frame, whatever it holds, is a move of the handshake machine
  -- `Next`, where an exception that leaves the handler counts as an end. So a challenged connection
  -- stays so, gets its device or ends, and is never fresh again for a second attempt; and a session
  -- keeps its device until it ends.
  pub handle_frame_refines :
      (raw : String) (n : Node)
      → n.conn.closed ≡ false
      → Next (phase (ok tt, n)) (phase (handle_frame cfg draw raw n))
  handle_frame_refines raw n opened = from_open n.conn.closed opened
    where
      from_open :
          (b : Bool) → b ≡ false → Next (phase_of b n.conn) (phase (handle_frame cfg draw raw n))
      from_open false h = frame_next raw n n.conn.device_id n.conn.pending refl refl
      from_open true h = absurd (ground arith)
