-- ===== src/H2/Flow/Credit.antt =====
-- How much `Reserve` hands out, and what the peer's updates do to the windows
-- (internal/h2/flow.go).
use reverse_http.Prelude.{
  ℕ, sym, ◌∙◌, All, ◌≡◌, refl, ◌⊎◌, inl, inr, true, false, List, [], ◌∷◌, arith, Bool-cases,
  if◌then◌else◌, ap,
}
use reverse_http.Prelude.Int.{
  ℤ, pos, ◌+ℤ◌, ◌-ℤ◌, ◌≤ℤ◌, ◌<ℤ◌, ltb_ℤ, min_ℤ, int32, InInt32, int32_fits, int32-InInt32, int_laws,
  -ℤ_parts, eq_of_parts, int32_absorb,
}
use reverse_http.H2.Flow.{
  SendCredit, Round, returned, parked, reserve, apply_initial_window_delta, is_zero, broadcast,
}

-- A positive grant: how it stands to the request and to the windows before and after.
pub record Grant (want conn window conn' window' got : ℤ) : Type 0 where
  pub positive : pos 0 <ℤ got
  pub wanted : got ≤ℤ want
  pub conn_left : pos 0 ≤ℤ conn'
  pub window_left : pos 0 ≤ℤ window'
  pub conn_spent : conn ≡ conn' +ℤ got
  pub window_spent : window ≡ window' +ℤ got
  pub most : (got ≡ want) ⊎ ((conn' ≡ pos 0) ⊎ (window' ≡ pos 0))

pub spend : (w got : ℤ) → InInt32 w → pos 0 <ℤ got → got ≤ℤ w → int32 (w -ℤ got) ≡ w -ℤ got
spend w got r p q = int32_fits (w -ℤ got) (omega (arith, -ℤ_parts w got))

-- What the loop settles on lies within the request and both windows, and reaches one of them.
pub record Fits (want conn window got : ℤ) : Type 0 where
  pub positive : pos 0 <ℤ got
  pub wanted : got ≤ℤ want
  pub in_conn : got ≤ℤ conn
  pub in_window : got ≤ℤ window
  pub reached : (got ≡ want) ⊎ ((got ≡ conn) ⊎ (got ≡ window))

most_of_reached :
    (want conn window got : ℤ)
    → (got ≡ want) ⊎ ((got ≡ conn) ⊎ (got ≡ window))
    → (got ≡ want) ⊎ ((conn -ℤ got ≡ pos 0) ⊎ (window -ℤ got ≡ pos 0))
most_of_reached want conn window got (inl e) = inl e
most_of_reached want conn window got (inr (inl e)) = inr (inl (rw e (omega int_laws)))
most_of_reached want conn window got (inr (inr e)) = inr (inr (rw e (omega int_laws)))

Grant-of_Fits :
    {want conn window got : ℤ}
    → InInt32 conn
    → InInt32 window
    → Fits want conn window got
    → Grant want conn window (int32 (conn -ℤ got)) (int32 (window -ℤ got)) got
Grant-of_Fits {want} {conn} {window} {got} rc rs f =
    rw (spend conn got rc f.positive f.in_conn, spend window got rs f.positive f.in_window)
      (record {
        positive = f.positive;
        wanted = f.wanted;
        conn_left = omega int_laws;
        window_left = omega int_laws;
        conn_spent = omega int_laws;
        window_spent = omega int_laws;
        most = most_of_reached want conn window got f.reached;
      })

module _ (conn window want : ℤ) where
  abbrev pub avail : ℤ
  avail = min_ℤ window conn

  abbrev pub granted : ℤ
  granted = if ltb_ℤ want avail then want else avail

  pub granted-Fits : pos 0 <ℤ want → pos 0 <ℤ avail → Fits want conn window granted
  unfolding min_ℤ
  granted-Fits w a = ground arith

pub positive_test : (z : ℤ) → pos 0 <ℤ z → ltb_ℤ (pos 0) z ≡ true
positive_test z h = ground arith

pub positive_of_test : (z : ℤ) → ltb_ℤ (pos 0) z ≡ true → pos 0 <ℤ z
positive_of_test z h = ground arith

pub nonpositive_of_test : (z : ℤ) → ltb_ℤ (pos 0) z ≡ false → z ≤ℤ pos 0
nonpositive_of_test z h = ground arith

-- The three ways in which a round with a positive request can end.
pub data Ends (want : ℤ) (sc : SendCredit) (window : ℤ) : SendCredit → ℤ → Round → Type 0 where
  gone :
      {sc' : SendCredit}
      → sc.dead ≡ true
      → sc'.conn_send_window ≡ sc.conn_send_window
      → Ends want sc window sc' window (returned (pos 0) true)
  waits :
      {sc' : SendCredit}
      → sc.dead ≡ false
      → min_ℤ window sc.conn_send_window ≤ℤ pos 0
      → sc'.conn_send_window ≡ sc.conn_send_window
      → Ends want sc window sc' window parked
  grants :
      {sc' : SendCredit} {window' got : ℤ}
      → sc.dead ≡ false
      → Grant want sc.conn_send_window window sc'.conn_send_window window' got
      → Ends want sc window sc' window' (returned got false)

-- With both windows in the range of an int32 and a positive request, `Reserve` reports a dead
-- connection, or waits exactly when a window is used up, or grants as much as both windows and
-- the request allow, takes that much from both and leaves both at zero or above.
pub reserve-Ends :
    (sc : SendCredit) (window want : ℤ) (who : ℕ)
    → InInt32 sc.conn_send_window
    → InInt32 window
    → pos 0 <ℤ want
    → let (sc', window', r) = reserve sc window want who in Ends want sc window sc' window' r
unfolding reserve
reserve-Ends sc window want who rc rs w = rw (positive_test want w) (elim (Bool-cases sc.dead) [
  | inl d ↦ simp d (gone d refl)
  | inr d ↦ simp d (elim (Bool-cases (ltb_ℤ (pos 0) (avail sc.conn_send_window window want))) [
    | inl a ↦ rw a (grants d (Grant-of_Fits rc rs (granted-Fits _ _ _ w (positive_of_test _ a))))
    | inr a ↦ rw a (waits d (nonpositive_of_test _ a) refl)
  ])
])

shift_twice : (w p a b : ℤ) → w +ℤ (a -ℤ p) +ℤ (b -ℤ a) ≡ w +ℤ (b -ℤ p)
shift_twice w p a b = omega int_laws

-- The delta of two sizes that SETTINGS may carry does not wrap.
delta_fits :
    (new old : ℤ)
    → pos 0 ≤ℤ new
    → pos 0 ≤ℤ old
    → InInt32 new
    → InInt32 old
    → int32 (new -ℤ old) ≡ new -ℤ old
delta_fits new old n o rn ro = int32_fits (new -ℤ old) (omega int_laws)

zero_of_is_zero : (d : ℤ) → is_zero d ≡ true → d ≡ pos 0
zero_of_is_zero d h = eq_of_parts d (pos 0) (ground arith)

add_zero : (w d : ℤ) → InInt32 w → d ≡ pos 0 → w ≡ int32 (w +ℤ d)
add_zero w d r z = let e : w +ℤ d ≡ w = rw z (omega int_laws) in rw e (sym (int32_fits w r))

module _ (sc : SendCredit) (new : ℤ) where
  abbrev pub adjusted : ℤ → ℤ
  adjusted = (apply_initial_window_delta sc new).1

  -- Also where the delta is zero and the code leaves the windows alone.
  adjusted_lem : (w : ℤ) → InInt32 w → adjusted w ≡ int32 (w +ℤ int32 (new -ℤ sc.peer_init_window))
  unfolding apply_initial_window_delta
  adjusted_lem w r = elim (Bool-cases (is_zero (int32 (new -ℤ sc.peer_init_window)))) [
    | inl z ↦ rw (z, adjusted) (add_zero w _ r (zero_of_is_zero _ z))
    | inr z ↦ rw (z, adjusted)
  ]

  pub adjusted-InInt32 : (w : ℤ) → InInt32 w → InInt32 (adjusted w)
  adjusted-InInt32 w r = rw (adjusted_lem w r) (int32-InInt32 _)

  peer_init_window_after : (apply_initial_window_delta sc new).0.peer_init_window ≡ new
  unfolding apply_initial_window_delta broadcast
  peer_init_window_after = ground arith

-- The sizes that successive SETTINGS frames carry, applied to one stream's window.
unfoldable pub settings_sizes : SendCredit → ℤ → List ℤ → SendCredit × ℤ
settings_sizes sc w [] = (sc, w)
settings_sizes sc w (size ∷ sizes) =
    let (sc, adjust) = apply_initial_window_delta sc size in settings_sizes sc (adjust w) sizes

abbrev pub last_size : ℤ → List ℤ → ℤ
last_size size [] = size
last_size _ (size ∷ sizes) = last_size size sizes

-- What `ApplyPeerSettings` lets through: 0 to 2^31 - 1.
abbrev pub ValidSize : ℤ → Type 0
ValidSize size = (pos 0 ≤ℤ size) × InInt32 size

-- However often the peer changes its initial window, a stream's window has moved by the last size
-- less the first, as an int32: the intermediate sizes leave no trace.
pub settings_sizes_lem :
    (sc : SendCredit) (w : ℤ) (sizes : List ℤ)
    → ValidSize sc.peer_init_window
    → All ValidSize sizes
    → InInt32 w
    → (settings_sizes sc w sizes).1
      ≡ int32 (w +ℤ (last_size sc.peer_init_window sizes -ℤ sc.peer_init_window))
unfolding settings_sizes
settings_sizes_lem sc w [] o n r = add_zero w _ r (omega int_laws)
settings_sizes_lem sc w (size ∷ sizes) o n r =
    settings_sizes_lem sc' w' sizes (rw peer_init_window_after n.0) n.1
      (adjusted-InInt32 sc size w r)
    ∙ rw peer_init_window_after (ap (λ v. int32 (v +ℤ rest)) moved)
    ∙ int32_absorb _ rest
    ∙ ap int32 (shift_twice w sc.peer_init_window size (last_size size sizes))
  where
    sc' : SendCredit
    sc' = (apply_initial_window_delta sc size).0

    w' : ℤ
    w' = adjusted sc size w

    rest : ℤ
    rest = last_size size sizes -ℤ size

    moved : w' ≡ int32 (w +ℤ (size -ℤ sc.peer_init_window))
    moved =
        adjusted_lem sc size w r
        ∙ ap (λ d. int32 (w +ℤ d)) (delta_fits size sc.peer_init_window n.0.0 o.0 n.0.1 o.1)
