-- ===== src/H2/Flow/Budget.antt =====
-- What the writers of a connection send, against what the peer allowed (internal/h2/flow.go).
use reverse_http.Prelude.{ℕ, ap, ◌≡◌, refl, sym, ◌∙◌, List, [], ◌∷◌, arith, if_cases}
use reverse_http.Prelude.Int.{
  ℤ, pos, pos_part, neg_part, ◌+ℤ◌, ◌-ℤ◌, ◌≤ℤ◌, ltb_ℤ, int32, InInt32, int32_fits, int_laws,
}
use reverse_http.H2.Flow.{
  SendCredit, Round, returned, parked, reserve, add_conn, add_stream, is_zero, broadcast,
  apply_initial_window_delta, mark_dead,
}
use reverse_http.H2.Flow.Credit.{spend, positive_of_test, granted-Fits, avail}
use reverse_http.H2.Flow.Wakeup.{
  Gate, Op, reserves, adds_conn, adds_stream, applies_initial_window, marks_dead, step, Awake,
  step-Awake, fresh, fresh-Awake,
}

abbrev pub bytes_of : Round → ℤ
bytes_of (returned got _) = got
bytes_of parked = pos 0

-- The bytes that a step hands to its writer.
abbrev pub granted_by : Gate → Op → ℤ
granted_by g (reserves who want) = bytes_of (reserve g.credit (g.window who) want who).2
granted_by g _ = pos 0

-- The bytes that a step adds to the connection's window.
abbrev pub credited_by : Op → ℤ
credited_by (adds_conn delta) = delta
credited_by _ = pos 0

pub total_granted : Gate → List Op → ℤ
total_granted g [] = pos 0
total_granted g (op ∷ ops) = granted_by g op +ℤ total_granted (step g op) ops

pub total_credited : List Op → ℤ
total_credited [] = pos 0
total_credited (op ∷ ops) = credited_by op +ℤ total_credited ops

-- Increments are not negative, and no WINDOW_UPDATE takes the connection's window past 2^31 - 1, as RFC 9113 demands of the peer.
abbrev pub Obeys : Gate → List Op → Type 0
Obeys g [] = Unit
Obeys g (op ∷ ops) =
    (pos 0 ≤ℤ credited_by op)
    × InInt32 (g.credit.conn_send_window +ℤ credited_by op)
    × Obeys (step g op) ops

-- What a round leaves of the connection's window, and what it took.
abbrev Splits : ℤ → SendCredit × ℤ × Round → Type 0
Splits conn r =
    (conn ≡ r.0.conn_send_window +ℤ bytes_of r.2) × (pos 0 ≤ℤ conn → pos 0 ≤ℤ r.0.conn_send_window)

reserve-Splits :
    (g : Gate) (who : ℕ) (want : ℤ)
    → Awake g
    → Splits g.credit.conn_send_window (reserve g.credit (g.window who) want who)
unfolding reserve
reserve-Splits g who want a =
    if_cases P (ltb_ℤ (pos 0) want)
      (λ p.
        if_cases P g.credit.dead (λ _. none_taken)
          λ _.
            if_cases P (ltb_ℤ (pos 0) (avail conn window want))
              (λ v.
                let f =
                  granted-Fits conn window want (positive_of_test _ p) (positive_of_test _ v) in
                rw (spend conn _ a.conn_range f.positive f.in_conn)
                  (omega int_laws, λ z. left _ f.in_conn))
              λ _. none_taken)
      (λ _. none_taken)
  where
    conn : ℤ
    conn = g.credit.conn_send_window

    window : ℤ
    window = g.window who

    P : SendCredit × ℤ × Round → Type 0
    P = Splits conn

    none_taken : (conn ≡ conn +ℤ pos 0) × (pos 0 ≤ℤ conn → pos 0 ≤ℤ conn)
    none_taken = (omega int_laws, λ z. z)

    left : (got : ℤ) → got ≤ℤ conn → pos 0 ≤ℤ conn -ℤ got
    left got h = omega int_laws

-- A step moves bytes between the window and its writer or its peer, and loses none.
abbrev Balanced : Gate → Op → Type 0
Balanced g op =
    ((step g op).credit.conn_send_window +ℤ granted_by g op
      ≡ g.credit.conn_send_window +ℤ credited_by op)
    × (pos 0 ≤ℤ g.credit.conn_send_window → pos 0 ≤ℤ (step g op).credit.conn_send_window)

step-Balanced :
    (g : Gate) (op : Op)
    → Awake g
    → pos 0 ≤ℤ credited_by op
    → InInt32 (g.credit.conn_send_window +ℤ credited_by op)
    → Balanced g op
unfolding step add_conn add_stream mark_dead apply_initial_window_delta broadcast
step-Balanced g (reserves who want) a p f =
    let r = reserve-Splits g who want a in (sym r.0 ∙ omega int_laws, r.1)
step-Balanced g (adds_conn delta) a p f = rw (int32_fits _ f) (omega int_laws, λ z. omega int_laws)
step-Balanced g (adds_stream s delta) a p f = (refl, λ z. z)
step-Balanced g (applies_initial_window size) a p f =
    if_cases
      (λ (r : SendCredit × (ℤ → ℤ)).
        (r.0.conn_send_window +ℤ pos 0 ≡ g.credit.conn_send_window +ℤ pos 0)
        × (pos 0 ≤ℤ g.credit.conn_send_window → pos 0 ≤ℤ r.0.conn_send_window))
      (is_zero (int32 (size -ℤ g.credit.peer_init_window))) (λ _. (refl, λ z. z))
      λ _. (refl, λ z. z)
step-Balanced g marks_dead a p f = (refl, λ z. z)

budget :
    (g : Gate) (ops : List Op)
    → Awake g
    → Obeys g ops
    → pos 0 ≤ℤ g.credit.conn_send_window
    → total_granted g ops ≤ℤ g.credit.conn_send_window +ℤ total_credited ops
unfolding total_granted total_credited
budget g [] a o z = omega int_laws
budget g (op ∷ ops) a o z =
    let b = step-Balanced g op a o.0 o.1 in
    let rest = budget (step g op) ops (step-Awake g op a) o.2 (b.1 z) in
    omega (int_laws, ap pos_part b.0, ap neg_part b.0, rest)

-- From a new connection and a peer that obeys RFC 9113, the writers of all streams together are
-- never handed more than the initial 65535 bytes and what the peer's WINDOW_UPDATEs added.
pub granted_within_budget :
    (ops : List Op) → Obeys fresh ops → total_granted fresh ops ≤ℤ pos 65535 +ℤ total_credited ops
granted_within_budget ops o = budget fresh ops fresh-Awake o (omega arith)
