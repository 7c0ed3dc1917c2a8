-- ===== src/Connection/Stable.antt =====
-- Predicates of a connection's own fields, through the handlers that change them.
pub mod Frames
pub mod Run
use hermes_device_protocol.Connection.Admission.{
  advertised, as_node, begin_challenge, bind_key, complete_pairing, enter, fail_pairing, greet,
  is_bound, issue, nonempty, platform_of, promoted, put_codes, register_device, register_hello,
  welcome,
}
use hermes_device_protocol.Connection.Run.{error}
use hermes_device_protocol.Wire.Messages.Plain.{error_msg_to_wire}
use hermes_device_protocol.Registry.Register.{register}
use hermes_device_protocol.Prelude.Int.{pos}
use hermes_device_protocol.Prelude.Strings.{codes}
use hermes_device_protocol.Connection.Handshake.{
  challenge_pairing, on_consumed, on_enrollment_key, on_known, on_pairing_key, pair_with_code,
}
use hermes_device_protocol.Connection.{
  Config, Draw, Escape, Node, NodeConnection, PendingHandshake, Step, audit, auth_failed, close_if,
  does, malformed_error, mark_closed, put_conn, reason_field, record_malformed, reject_malformed,
  remember_id, send,
}
use hermes_device_protocol.Wire.Messages.{Hello}
use hermes_device_protocol.Wire.{Fields, boolean, empty, field, integer, string}
use hermes_device_protocol.DeviceKeys.{auth_context, key_is_usable, new_nonce, pair_context}
use hermes_device_protocol.Pairing.{
  PairingError, burn_attempt, code_is_live, consume_pairing_code, pending,
}
use hermes_device_protocol.Registry.{RegistryError, issue_credential}
use hermes_device_protocol.Store.{PairingCode, RegistryDb, Role, Text, pending, primary, secondary}
use hermes_device_protocol.Prelude.Transaction.{on_return, ◌>>>◌}
use hermes_device_protocol.Prelude.Result.{Result, err, ok}
use hermes_device_protocol.Prelude.{
  Bool, Bool-cases, List, Option, String, arith, false, if◌then◌else◌, inl, inr, none, some, true,
  ℕ,
}

-- The changes of a connection's fields that every frame may make.
pub record IsSteady (P : NodeConnection → Type 0) : Type 0 where
  pub closing : (c : NodeConnection) → P c → P (mark_closed c)
  pub malformed :
      (draw : Draw) (m : String) (n : Node) → P n.conn → P (reject_malformed draw m n).conn
  pub beating : (t : ℕ) (c : NodeConnection) → P c → P (record c { last_heartbeat = t })
  pub remembering : (i : String) (c : NodeConnection) → P c → P (remember_id i c)

-- Those that a handshake may make besides.
pub record IsStable (P : NodeConnection → Type 0) : Type 0 where
  pub steady : IsSteady P
  pub attaching : (d : String) (c : NodeConnection) → P c → P (record c { device_id = some d })
  pub waiting :
      (p : Option PendingHandshake) (c : NodeConnection) → P c → P (record c { pending = p })

-- A predicate that says nothing of malformed frames is kept by their rejection.
pub reject_keeps :
    (P : NodeConnection → Type 0)
    → ((times : List ℕ) (c : NodeConnection) → P c → P (record c { malformed_times = times }))
    → ((c : NodeConnection) → P c → P (mark_closed c))
    → (draw : Draw) (m : String) (n : Node) → P n.conn
    → P (reject_malformed draw m n).conn
unfolding reject_malformed record_malformed
reject_keeps P counting closing draw m n h =
    let recorded = record_malformed draw.monotonic n.conn in
    closed_if recorded.0
      (send "error" (error_msg_to_wire (malformed_error m)) (put_conn recorded.1 n))
      (counting recorded.1.malformed_times n.conn h)
  where
    closed_if : (b : Bool) (k : Node) → P k.conn → P (close_if b k).conn
    closed_if true k h = closing k.conn h
    closed_if false k h = h

module _ (P : NodeConnection → Type 0) (steady : IsSteady P) (cfg : Config) (draw : Draw) where
  abbrev pub Holds : Result Escape (Unit {0}) × Node → Type 0
  Holds r = P r.1.conn

  pub branch :
      (b : Bool) (r s : Result Escape (Unit {0}) × Node)
      → Holds r
      → Holds s
      → Holds (if b then r else s)
  branch true r s hr hs = hr
  branch false r s hr hs = hs

  pub audit_keeps :
      (event : String) (fields : Fields) (n : Node) → P n.conn → P (audit cfg event fields n).conn
  audit_keeps event fields n h = elim (Bool-cases cfg.has_audit) [ inl e ↦ rw e h | inr e ↦ rw e h ]

  return_keeps :
      (r : Result Escape (Unit {0}) × Node) (next : Step)
      → Holds r
      → ((n : Node) → P n.conn → Holds (next n))
      → Holds (on_return r next)
  return_keeps (ok _, n) next h k = k n h
  return_keeps (err e, n) next h k = h

  abbrev pub StepKeeps : Step → Type 0
  StepKeeps m = (n : Node) → P n.conn → Holds (m n)

  pub seq_keeps : (m next : Step) → StepKeeps m → StepKeeps next → StepKeeps (m >>> next)
  seq_keeps m next hm hnext n h = return_keeps (m n) next (hm n h) hnext

  pub as_node_keeps :
      (n : Node) (r : Result RegistryError (Unit {0}) × RegistryDb) → P n.conn → Holds (as_node n r)
  as_node_keeps n (ok _, db) h = h
  as_node_keeps n (err e, db) h = h

  pub refusal_keeps :
      (event : String) (fields : Fields) (n : Node)
      → P n.conn
      → P (audit cfg event fields (auth_failed n)).conn
  refusal_keeps event fields n h =
      audit_keeps event fields (auth_failed n) (steady.closing n.conn h)

  pub fail_pairing_keeps :
      (reason : String) (n : Node) → P n.conn → P (fail_pairing cfg draw reason n).conn
  unfolding fail_pairing
  fail_pairing_keeps reason n h =
      let burnt = burn_attempt draw.now_ms n.world.pairing_codes in
      refusal_keeps "auth_failed"
        (field "reason" (string reason)
          (field "pairing_codes_invalidated" (integer (pos burnt.0)) empty))
        (put_codes burnt.1 n) h

module _ (P : NodeConnection → Type 0) (stable : IsStable P) (cfg : Config) (draw : Draw) where
  promoted_keeps : (role : Role) (d : String) (n : Node) → P n.conn → P (promoted role d n).conn
  promoted_keeps secondary d n h = h
  promoted_keeps primary d n h = h

  register_hello_keeps :
      (d : String) (hello : Hello)
      → StepKeeps P stable.steady cfg draw (register_hello cfg draw d hello)
  register_hello_keeps d hello n h =
      as_node_keeps P stable.steady cfg draw n
        (register cfg.dumps
          (advertised d hello.device_name (platform_of (nonempty hello.platform))
            hello.capabilities)
          draw.now_ms n.world.registry)
        h

  pub register_keeps :
      (d : String) (hello : Hello) (role : Role)
      → StepKeeps P stable.steady cfg draw (register_device cfg draw d hello role)
  unfolding register_device
  register_keeps d hello role =
      seq_keeps P stable.steady cfg draw (register_hello cfg draw d hello)
        (does (enter cfg draw d hello role)) (register_hello_keeps d hello)
        λ n h. stable.attaching d (promoted role d n).conn (promoted_keeps role d n h)

  bind_key_keeps :
      (d : String) (o : Option String) (n : Node) → P n.conn → P (bind_key cfg draw d o n).conn
  bind_key_keeps d none n h = h
  bind_key_keeps d (some key) n h = h

  issue_keeps : (d : String) → StepKeeps P stable.steady cfg draw (issue cfg draw d)
  issue_keeps d n h =
      as_node_keeps P stable.steady cfg draw n
        (issue_credential cfg.py (codes draw.new_credential) d draw.now_ms n.world.registry) h

  pub complete_pairing_keeps :
      (d : String) (hello : Hello) (role : Role)
      → StepKeeps P stable.steady cfg draw (complete_pairing cfg draw d hello role)
  unfolding complete_pairing
  complete_pairing_keeps d hello role =
      let bind = does (bind_key cfg draw d (nonempty hello.device_pubkey)) in
      let registered = register_device cfg draw d hello role in
      seq_keeps P stable.steady cfg draw (registered >>> bind >>> issue cfg draw d)
        (does (greet cfg draw d hello))
        (seq_keeps P stable.steady cfg draw (registered >>> bind) (issue cfg draw d)
          (seq_keeps P stable.steady cfg draw registered bind (register_keeps d hello role)
            (bind_key_keeps d (nonempty hello.device_pubkey)))
          (issue_keeps d))
        λ n h.
          audit_keeps P stable.steady cfg draw "paired"
            (field "device_id" (string d)
              (field "device_bound" (boolean (is_bound cfg draw hello.device_pubkey)) empty))
            (welcome d (some draw.new_credential) n) h

  on_consumed_keeps :
      (hello : Hello) (r : Result PairingError (Bool × List PairingCode)) (n : Node)
      → P n.conn
      → Holds P stable.steady cfg draw (on_consumed cfg draw hello r n)
  on_consumed_keeps hello (err e) n h = h
  on_consumed_keeps hello (ok (true, rows)) n h =
      complete_pairing_keeps draw.new_id hello secondary (put_codes rows n) h
  on_consumed_keeps hello (ok (false, rows)) n h =
      fail_pairing_keeps P stable.steady cfg draw "invalid_or_expired_pairing_code"
        (put_codes rows n) h

  pub pair_with_code_keeps :
      (hello : Hello) (code : Text) (n : Node)
      → P n.conn
      → Holds P stable.steady cfg draw (pair_with_code cfg draw hello code n)
  unfolding pair_with_code
  pair_with_code_keeps hello code n h =
      on_consumed_keeps hello
        (consume_pairing_code cfg.py code draw.new_id draw.now_ms n.world.pairing_codes) n h

  begin_keeps :
      (hello : Hello) (key : String) (context : Text) (code : Option Text)
      → (enrollment_id device_id : Option String) (n : Node) → P n.conn
      → P (begin_challenge cfg draw hello key context code enrollment_id device_id n).conn
  begin_keeps hello key context code enrollment_id device_id n h =
      stable.waiting
        (some (record {
          hello = hello;
          nonce = new_nonce cfg.lib draw.nonce_bytes;
          public_key = key;
          context = context;
          pair_code = code;
          enrollment_id = enrollment_id;
          device_id = device_id;
        }))
        n.conn h

  challenge_pairing_keeps :
      (hello : Hello) (code : Text) (key : String) (live : Result PairingError Bool) (n : Node)
      → P n.conn
      → Holds P stable.steady cfg draw (challenge_pairing cfg draw hello code key live n)
  challenge_pairing_keeps hello code key (err e) n h = h
  challenge_pairing_keeps hello code key (ok false) n h =
      fail_pairing_keeps P stable.steady cfg draw "invalid_or_expired_pairing_code" n h
  challenge_pairing_keeps hello code key (ok true) n h =
      branch P stable.steady cfg draw (key_is_usable cfg.lib key)
        (ok tt, begin_challenge cfg draw hello key pair_context (some code) none none n)
        (ok tt, fail_pairing cfg draw "unusable_device_pubkey" n)
        (begin_keeps hello key pair_context (some code) none none n h)
        (fail_pairing_keeps P stable.steady cfg draw "unusable_device_pubkey" n h)

  pub on_pairing_key_keeps :
      (hello : Hello) (code : Text) (o : Option String) (n : Node)
      → P n.conn
      → Holds P stable.steady cfg draw (on_pairing_key cfg draw hello code o n)
  on_pairing_key_keeps hello code none n h = pair_with_code_keeps hello code n h
  on_pairing_key_keeps hello code (some key) n h =
      challenge_pairing_keeps hello code key
        (code_is_live cfg.py code draw.now_ms n.world.pairing_codes) n h

  pub enrollment_keeps :
      (hello : Hello) (enrollment_id : String) (o : Option String) (n : Node)
      → P n.conn
      → P (on_enrollment_key cfg draw hello enrollment_id o n).conn
  enrollment_keeps hello enrollment_id none n h =
      refusal_keeps P stable.steady cfg draw "enrollment_failed"
        (reason_field "enrollment_unavailable") n h
  enrollment_keeps hello enrollment_id (some key) n h = ground (
    arith,
    refusal_keeps P stable.steady cfg draw "enrollment_failed"
        (reason_field "enrollment_unavailable") n h,
    refusal_keeps P stable.steady cfg draw "enrollment_failed"
        (reason_field "unusable_device_pubkey") n h,
    begin_keeps hello key pair_context none (some enrollment_id) none n h,
  )

  pub on_known_keeps :
      (hello : Hello) (d : String) (o : Option String) (n : Node)
      → P n.conn
      → Holds P stable.steady cfg draw (on_known cfg draw hello d o n)
  on_known_keeps hello d none n h =
      seq_keeps P stable.steady cfg draw (register_device cfg draw d hello secondary)
        (does (welcome d none)) (register_keeps d hello secondary) (λ m hm. hm) n h
  on_known_keeps hello d (some key) n h = begin_keeps hello key auth_context none none (some d) n h
