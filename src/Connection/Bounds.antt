-- ===== src/Connection/Bounds.antt =====
-- The bookkeeping of a connection over a whole run.
use hermes_device_protocol.Connection.Stable.Run.{run_keeps}
use hermes_device_protocol.Connection.Stable.{IsStable}
use hermes_device_protocol.Connection.Run.{run}
use hermes_device_protocol.Connection.{
  Config, Draw, Node, NodeConnection, add_id, cap_ids, malformed_limit, record_malformed,
  reject_malformed, remember_id, seen_ids_cap,
}
use hermes_device_protocol.Prelude.Strings.{contains}
use hermes_device_protocol.Prelude.{
  Bool-cases, List, String, [], arith, inl, inr, leb, length, length-append, refl, suc, true, ◌++◌,
  ◌||◌, ◌∷◌, ◌≡◌, ◌≤◌,
}

abbrev pub IsBounded : NodeConnection → Type 0
IsBounded c =
    (length c.seen_ids ≤ seen_ids_cap)
    × ((c.closed || leb (length c.malformed_times) malformed_limit) ≡ true)

cap_ids_bound :
    (i : String) (ids : List String)
    → length ids ≤ seen_ids_cap
    → length (cap_ids (add_id i ids)) ≤ seen_ids_cap
cap_ids_bound i ids h = elim (Bool-cases (contains i ids)) [
  | inl e ↦ rw e (capped ids (omega (arith, h)))
  | inr e ↦ rw e (capped (ids ++ (i ∷ [])) (omega (arith, h, length-append ids (i ∷ []))))
]
  where
    capped : (l : List String) → length l ≤ suc seen_ids_cap → length (cap_ids l) ≤ seen_ids_cap
    capped [] small = omega arith
    capped (x ∷ l) small = ground arith

reject_bound :
    (draw : Draw) (m : String) (n : Node)
    → IsBounded n.conn
    → IsBounded (reject_malformed draw m n).conn
unfolding reject_malformed record_malformed
reject_bound draw m n h = ground arith

IsBounded-stable : IsStable IsBounded
unfolding remember_id
IsBounded-stable = record {
  steady = record {
    closing = λ c h. (h.0, refl);
    malformed = reject_bound;
    beating = λ t c h. h;
    remembering = λ i c h. (cap_ids_bound i c.seen_ids h.0, h.1);
  };
  attaching = λ d c h. h;
  waiting = λ p c h. h;
}

-- Whatever frames a peer sends, a connection that remembers at most 256 identifiers goes on to
-- remember no more; and it ends with its socket closed, or with at most ten malformed frames in its
-- window, if it was so before.
pub run-IsBounded :
    (cfg : Config) (end_draw : Draw) (frames : List (Draw × String)) (n : Node)
    → IsBounded n.conn
    → IsBounded (run cfg end_draw frames n).conn
run-IsBounded = run_keeps IsBounded IsBounded-stable
