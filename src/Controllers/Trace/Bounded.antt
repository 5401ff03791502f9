-- ===== src/Controllers/Trace/Bounded.antt =====
-- src/controllers/ControllerManager.cpp: the ring keeps its bound and its order.
use monk_skud_unex.Base.{
  ℕ, zero, suc, ◌+◌, ◌-◌, ◌≤◌, List, [], ◌∷◌, ◌++◌, Text, length, drop, ◌≡◌, refl, arith,
}
use monk_skud_unex.Controllers.Trace.{
  ProtocolTraceEntry, Ring, Message, trace_limit, entry_of, append_protocol_trace,
  clear_protocol_trace,
}

-- The ids rise, from `low` on and below `high`.
abbrev pub Rising : ℕ → ℕ → List ProtocolTraceEntry → Type 0
Rising low high [] = low ≤ high
Rising low high (e ∷ es) = (low ≤ e.id) × Rising (suc e.id) high es

-- At most a thousand entries, whose ids rise and were given out before the next one.
pub record IsRing (r : Ring) : Type 0 where
  pub bounded : length r.entries ≤ trace_limit
  pub rising : Rising 0 r.next_id r.entries

Rising-snoc :
    (low high : ℕ) (es : List ProtocolTraceEntry) (e : ProtocolTraceEntry)
    → e.id ≡ high
    → Rising low high es
    → Rising low (high + 1) (es ++ e ∷ [])
Rising-snoc low high [] e h k = (omega (arith, h, k), omega (arith, h))
Rising-snoc low high (x ∷ es) e h k = (k.0, Rising-snoc (suc x.id) high es e h k.1)

Rising-lower :
    (low lower high : ℕ) (es : List ProtocolTraceEntry)
    → lower ≤ low
    → Rising low high es
    → Rising lower high es
Rising-lower low lower high [] h k = omega (arith, h, k)
Rising-lower low lower high (e ∷ es) h k = (omega (arith, h, k.0), k.1)

Rising-drop :
    (n low high : ℕ) (es : List ProtocolTraceEntry)
    → Rising low high es
    → Rising low high (drop n es)
Rising-drop zero low high es k = k
Rising-drop (suc n) low high [] k = k
Rising-drop (suc n) low high (e ∷ es) k =
    Rising-lower (suc e.id) low high (drop n es) (omega (arith, k.0))
      (Rising-drop n (suc e.id) high es k.1)

length-drop : (n : ℕ) (es : List ProtocolTraceEntry) → length (drop n es) ≡ length es - n
length-drop zero es = omega arith
length-drop (suc n) [] = omega arith
length-drop (suc n) (e ∷ es) = omega (arith, length-drop n es)

-- Any further message leaves at most a thousand entries in the order of their ids.
pub append_protocol_trace-IsRing :
    (now : Text) (m : Message) (r : Ring) → IsRing r → IsRing (append_protocol_trace now m r)
unfolding append_protocol_trace
append_protocol_trace-IsRing now m r h =
    let e = entry_of r.next_id now m in
    let entries = r.entries ++ e ∷ [] in
    record {
      bounded = omega (arith, length-drop (length entries - trace_limit) entries);
      rising =
          Rising-drop (length entries - trace_limit) 0 (r.next_id + 1) entries
            (Rising-snoc 0 r.next_id r.entries e refl h.rising);
    }

pub clear_protocol_trace-IsRing : (r : Ring) → IsRing (clear_protocol_trace r)
unfolding clear_protocol_trace
clear_protocol_trace-IsRing r = record { bounded = omega arith; rising = omega arith }
