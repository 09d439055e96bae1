-- ===== src/H2/Conn/Settings.antt =====
-- `ApplyPeerSettings` (internal/h2/conn.go) against the ranges and the window rule of RFC 9113.
use reverse_http.Prelude.{
  ℕ, ◌-◌, ◌^◌, ◌≤◌, ◌≡◌, refl, ap, subst, ◌↔◌, inl, inr, ◌||◌, Option, none, some, List, [], ◌∷◌,
  ltb, if_cases, arith, ◌==◌, nat_eq, Bool-cases, All,
}
use reverse_http.Prelude.Int.{ℤ, pos, ◌+ℤ◌, ◌-ℤ◌, InInt32, int32}
use reverse_http.Prelude.Table.{Table, lookup}
use reverse_http.H2.Errors.{Err}
use reverse_http.H2.Flow.{SendCredit, broadcast, apply_initial_window_delta}
use reverse_http.H2.Flow.Credit.{settings_sizes, settings_sizes_lem, last_size, ValidSize}
use reverse_http.H2.Stream.{Stream}
use reverse_http.H2.Conn.{
  Conn, submitted, each_stream, Setting, resized, apply_setting, apply_rest, apply_peer_settings,
}

-- The values that RFC 9113 §6.5.2 allows.
abbrev pub Legal : Setting → Type 0
Legal (Setting.max_frame_size v) = (2 ^ 14 ≤ v) × (v ≤ 2 ^ 24 - 1)
Legal (Setting.initial_window_size v) = v ≤ 2 ^ 31 - 1
Legal (Setting.enable_push v) = v ≤ 1
Legal _ = Unit

-- What the rest of the connection counts on.
pub record Limits (c : Conn) : Type 0 where
  pub frame_size : (2 ^ 14 ≤ c.max_frame_size) × (c.max_frame_size ≤ 2 ^ 24 - 1)
  pub window_size : ValidSize c.send.peer_init_window

abbrev Checked : Setting → Conn × Option Err → Type 0
Checked x r = Limits r.0 × ((r.1 ≡ none) ↔ Legal x)

init_window_after :
    (sc : SendCredit) (size : ℤ) → (apply_initial_window_delta sc size).0.peer_init_window ≡ size
unfolding apply_initial_window_delta broadcast
init_window_after sc size = ground arith

apply_setting-Limits : (c : Conn) (x : Setting) → Limits c → Checked x (apply_setting c x)
unfolding apply_setting submitted
apply_setting-Limits c (Setting.max_frame_size v) l =
    if_cases (Checked (Setting.max_frame_size v)) (ltb v 16384 || ltb 16777215 v)
      (λ t. (l, ((λ h. cc), λ h. absurd (ground arith))))
      λ t. (
        record { frame_size = ground arith; window_size = l.window_size },
        (λ _. ground arith, λ _. refl),
      )
apply_setting-Limits c (Setting.initial_window_size v) l =
    if_cases (Checked (Setting.initial_window_size v)) (ltb (2 ^ 31 - 1) v)
      (λ t. (l, ((λ h. cc), λ h. absurd (ground arith))))
      λ t. (
        record {
          frame_size = l.frame_size;
          window_size = rw (init_window_after c.send (pos v)) (ground arith);
        },
        (λ _. ground arith, λ _. refl),
      )
apply_setting-Limits c (Setting.header_table_size v) l =
    (record { frame_size = l.frame_size; window_size = l.window_size }, (λ _. tt, λ _. refl))
apply_setting-Limits c (Setting.max_concurrent_streams v) l =
    (record { frame_size = l.frame_size; window_size = l.window_size }, (λ _. tt, λ _. refl))
apply_setting-Limits c (Setting.enable_push v) l =
    if_cases (λ e. Checked (Setting.enable_push v) (c, e)) (ltb 1 v)
      (λ t. (l, ((λ h. cc), λ h. absurd (ground arith)))) λ t. (l, (λ _. ground arith, λ _. refl))
apply_setting-Limits c (Setting.other id v) l = (l, (λ _. tt, λ _. refl))

rest-Limits :
    (x : Setting) (xs : List Setting) (r : Conn × Option Err)
    → Checked x r
    → ((c : Conn)
        → Limits c
        → Limits (apply_peer_settings xs c).0
          × (((apply_peer_settings xs c).1 ≡ none) ↔ All Legal xs))
    → let v = apply_rest (apply_peer_settings xs) r in
      Limits v.0 × ((v.1 ≡ none) ↔ (Legal x × All Legal xs))
rest-Limits x xs (c, some e) k next =
    (k.0, ((λ h. cc), λ h. (let q : some e ≡ none = k.1.1 h.0 in cc)))
rest-Limits x xs (c, none) k next =
    let n = next c k.0 in (n.0, ((λ h. (k.1.0 refl, n.1.0 h)), λ h. n.1.1 h.1))

-- Whatever SETTINGS frame the peer sends, the frame size and the initial window that the connection
-- keeps stay in the ranges of RFC 9113 §6.5.2; and the frame is accepted exactly when each of its
-- settings is legal.
pub apply_peer_settings-Limits :
    (xs : List Setting) (c : Conn)
    → Limits c
    → Limits (apply_peer_settings xs c).0 × (((apply_peer_settings xs c).1 ≡ none) ↔ All Legal xs)
unfolding apply_peer_settings
apply_peer_settings-Limits [] c l = (l, ((λ _. tt), λ _. refl))
apply_peer_settings-Limits (x ∷ xs) c l =
    rest-Limits x xs (apply_setting c x) (apply_setting-Limits c x l)
      (apply_peer_settings-Limits xs)

lookup-each :
    (f : Stream → Stream) (id : ℕ) (m : Table ℕ Stream) (s : Stream)
    → lookup id m ≡ some s
    → lookup id (each_stream f m) ≡ some (f s)
unfolding lookup
lookup-each f id [] s h = cc
lookup-each f id ((j, t) ∷ m) s h = elim (Bool-cases (j == id)) [
  | inl e ↦ ground (arith, h)
  | inr e ↦ ground (arith, h, lookup-each f id m s)
]

-- The sizes in INITIAL_WINDOW_SIZE settings.
abbrev pub sizes_in : List Setting → List ℤ
sizes_in [] = []
sizes_in (Setting.initial_window_size v ∷ xs) = pos v ∷ sizes_in xs
sizes_in (x ∷ xs) = sizes_in xs

sizes_in-Valid : (xs : List Setting) → All Legal xs → All ValidSize (sizes_in xs)
sizes_in-Valid [] h = tt
sizes_in-Valid (Setting.initial_window_size v ∷ xs) h = (ground arith, sizes_in-Valid xs h.1)
sizes_in-Valid (Setting.max_frame_size v ∷ xs) h = sizes_in-Valid xs h.1
sizes_in-Valid (Setting.header_table_size v ∷ xs) h = sizes_in-Valid xs h.1
sizes_in-Valid (Setting.max_concurrent_streams v ∷ xs) h = sizes_in-Valid xs h.1
sizes_in-Valid (Setting.enable_push v ∷ xs) h = sizes_in-Valid xs h.1
sizes_in-Valid (Setting.other id v ∷ xs) h = sizes_in-Valid xs h.1

-- The stream `id` of a connection has the window `w`.
abbrev pub HasWindow : ℕ → ℤ → Conn → Type 0
HasWindow id w c = (s : Stream) × ((lookup id c.streams ≡ some s) × (s.send_window ≡ w))

windows_follow :
    (xs : List Setting) (c : Conn) (id : ℕ) (w : ℤ)
    → All Legal xs
    → HasWindow id w c
    → HasWindow id (settings_sizes c.send w (sizes_in xs)).1 (apply_peer_settings xs c).0
unfolding apply_peer_settings apply_setting settings_sizes submitted
windows_follow [] c id w l h = h
windows_follow (Setting.max_frame_size v ∷ xs) c id w l h =
    if_cases
      (λ r.
        HasWindow id (settings_sizes c.send w (sizes_in xs)).1
          (apply_rest (apply_peer_settings xs) r).0)
      (ltb v 16384 || ltb 16777215 v) (λ t. absurd (ground (arith, l.0)))
      λ t. windows_follow xs (record c { max_frame_size = v }) id w l.1 h
windows_follow (Setting.initial_window_size v ∷ xs) c id w l h =
    if_cases
      (λ r.
        HasWindow id (settings_sizes c.send w (pos v ∷ sizes_in xs)).1
          (apply_rest (apply_peer_settings xs) r).0)
      (ltb (2 ^ 31 - 1) v) (λ t. absurd (ground (arith, l.0)))
      λ t.
        let r = apply_initial_window_delta c.send (pos v) in
        windows_follow xs (resized c r) id (r.1 w) l.1 (
          record h.0 { send_window = r.1 h.0.send_window },
          (lookup-each _ id c.streams h.0 h.1.0, ap r.1 h.1.1),
        )
windows_follow (Setting.header_table_size v ∷ xs) c id w l h = windows_follow xs _ id w l.1 h
windows_follow (Setting.max_concurrent_streams v ∷ xs) c id w l h = windows_follow xs _ id w l.1 h
windows_follow (Setting.enable_push v ∷ xs) c id w l h =
    if_cases
      (λ e.
        HasWindow id (settings_sizes c.send w (sizes_in xs)).1
          (apply_rest (apply_peer_settings xs) (c, e)).0)
      (ltb 1 v) (λ t. absurd (ground (arith, l.0))) λ t. windows_follow xs c id w l.1 h
windows_follow (Setting.other id' v ∷ xs) c id w l h = windows_follow xs c id w l.1 h

-- One SETTINGS frame may name INITIAL_WINDOW_SIZE any number of times, among other settings. For a
-- legal frame, the window of a stream moves by the last size named less the size before the frame
-- (RFC 9113 §6.9.2), as an int32.
pub windows_shift :
    (xs : List Setting) (c : Conn) (id : ℕ) (w : ℤ)
    → Limits c
    → All Legal xs
    → InInt32 w
    → HasWindow id w c
    → HasWindow id
        (int32 (w +ℤ (last_size c.send.peer_init_window (sizes_in xs) -ℤ c.send.peer_init_window)))
        (apply_peer_settings xs c).0
windows_shift xs c id w l legal fits h =
    subst (λ v. HasWindow id v (apply_peer_settings xs c).0)
      (settings_sizes_lem c.send w (sizes_in xs) l.window_size (sizes_in-Valid xs legal) fits)
      (windows_follow xs c id w legal h)
