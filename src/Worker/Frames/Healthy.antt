-- ===== src/Worker/Frames/Healthy.antt =====
-- A worker's session between frames (handler.go).
use reverse_http.Prelude.{
  ℕ, ◌+◌, ◌≤◌, ◌^◌, ◌%◌, ◌≡◌, refl, sym, subst, Bool, true, false, not, Option, none, some, List,
  [], ◌∷◌, length, length-append, ltb, if_cases, Bytes, arith, nat_eq, All, All-append, All-map,
}
use reverse_http.H2.Errors.{Err, max_header_list_size}
use reverse_http.H2.Conn.{Conn, Setting, submitted, add_to_registry, apply_peer_settings}
use reverse_http.H2.Conn.Decode.{
  DecodedHeaders, HeadersFrame, ContinuationFrame, Result, start_headers, consume_continuation,
  decoded, decode_block, emit_all, no_scratch, accepted,
}
use reverse_http.H2.Conn.Decode.Canon.{Faithful, emit_all_lem}
use reverse_http.H2.Conn.Settings.{Limits, apply_peer_settings-Limits}
use reverse_http.H2.Writer.{Field, Intent}
use reverse_http.Worker.Frames.Quiet.{Alike, Quiet, settings-Alike}
use reverse_http.Worker.Frames.{
  Frame, headers, continuation, Session, dispatch, at, dispatched, acknowledged,
}

-- The requests that were started lie at or below the last stream ID.
abbrev Below : ℕ → List DecodedHeaders → Type 0
Below last = All λ (d : DecodedHeaders). d.stream_id ≤ last

-- What holds of a connection between frames.
pub record Healthy {D : Type 0} (s : Session D) : Type 0 where
  pub limits : Limits s.conn
  pub block : length s.conn.cont_block ≤ max_header_list_size
  pub names : Faithful s.conn.canon_names
  pub cont_below : s.conn.cont_stream_id ≤ s.conn.last_stream_id
  pub started_below : Below s.conn.last_stream_id s.started

-- The fragments of a frame fit into a frame of the size that the framer accepts.
abbrev pub Fits : Frame → Type 0
Fits (headers f) = length f.fragment ≤ 2 ^ 14
Fits (continuation id f) = length f.fragment ≤ 2 ^ 14
Fits _ = Unit

module _ {D : Type 0} (decode : D → Bytes → D × List Field × Bool) where
  pub Alike-Healthy :
      (s : Session D) (v : Conn)
      → Alike s.conn v
      → Limits v
      → Healthy s
      → Healthy (record s { conn = v })
  Alike-Healthy s v a l h = record {
    limits = l;
    block = rw a.same_block h.block;
    names = subst Faithful (sym a.same_names) h.names;
    cont_below = rw (a.same_cont, a.same_last) h.cont_below;
    started_below = subst (λ n. Below n s.started) (sym a.same_last) h.started_below;
  }

  pub Quiet-Healthy :
      (s : Session D) (v : Conn) → Quiet s.conn v → Healthy s → Healthy (record s { conn = v })
  Quiet-Healthy s v q h =
      Alike-Healthy s v q.alike
        (record {
          frame_size = rw q.same_frame_size h.limits.frame_size;
          window_size = rw q.same_window h.limits.window_size;
        })
        h

  dispatch-Healthy :
      (d : DecodedHeaders) (s : Session D)
      → d.stream_id ≤ s.conn.last_stream_id
      → Healthy s
      → Healthy (dispatch decode d s)
  unfolding dispatch add_to_registry
  dispatch-Healthy d s b h = record {
    limits = record { frame_size = h.limits.frame_size; window_size = h.limits.window_size };
    block = h.block;
    names = h.names;
    cont_below = h.cont_below;
    started_below = All-append _ s.started (d ∷ []) h.started_below (b, tt);
  }

  -- What decoding a block leaves for the loop: a healthy connection, and headers of a stream that
  -- has been noted.
  abbrev Noted : Session D → Result decode → Type 0
  Noted s r =
      Healthy (at decode s r.0)
      × ((d : DecodedHeaders) → r.1 ≡ some d → d.stream_id ≤ r.0.0.last_stream_id)

  pub dispatched-Healthy :
      (s : Session D) (r : Result decode) → Noted s r → Healthy (dispatched decode s r).0
  dispatched-Healthy s (cd, out, some err) n = n.0
  dispatched-Healthy s (cd, none, none) n = n.0
  dispatched-Healthy s (cd, some d, none) n = dispatch-Healthy d (at decode s cd) (n.1 d refl) n.0

  renamed :
      (s : Session D) (c : Conn) (d : D) (fields : List Field)
      → Healthy (record s { conn = c })
      → Healthy (record s {
        conn = record c { canon_names = (emit_all fields (c.canon_names, no_scratch)).0 };
        decoder = d;
      })
  renamed s c d fields h = record {
    limits = record { frame_size = h.limits.frame_size; window_size = h.limits.window_size };
    block = h.block;
    names = (emit_all_lem fields c.canon_names no_scratch h.names).1;
    cont_below = h.cont_below;
    started_below = h.started_below;
  }

  decoded-Noted :
      (s : Session D) (c : Conn) (id : ℕ) (ended : Bool) (o : D × List Field × Bool)
      → Healthy (record s { conn = c })
      → id ≤ c.last_stream_id
      → Noted s (decoded decode c id ended o)
  decoded-Noted s c id ended (d, fields, true) h b =
      (renamed s c d fields h, λ x e. absurd (none_some x e))
    where
      none_some : (x : DecodedHeaders) → none ≡ some x → ⊥
      none_some x e = cc
  decoded-Noted s c id ended (d, fields, false) h b =
      (renamed s c d fields h, λ x e. from_block x e)
    where
      from_block :
          (x : DecodedHeaders)
          → some (record {
            scratch = (emit_all fields (c.canon_names, no_scratch)).1;
            stream_id = id;
            end_stream = ended;
          })
            ≡ some x
          → x.stream_id ≤ c.last_stream_id
      from_block x e = let q : id ≡ x.stream_id = cc in subst (λ i. i ≤ c.last_stream_id) q b

  accepted-Healthy :
      (s : Session D) (id : ℕ)
      → Healthy s
      → Healthy (record s { conn = accepted s.conn id })
        × (id ≤ (accepted s.conn id).last_stream_id)
  accepted-Healthy s id h =
      if_cases (λ v. Healthy (record s { conn = v }) × (id ≤ v.last_stream_id))
        (ltb s.conn.last_stream_id id)
        (λ t.
          let up : s.conn.last_stream_id ≤ id = ground arith in
          (
            record {
              limits = record {
                frame_size = h.limits.frame_size;
                window_size = h.limits.window_size;
              };
              block = h.block;
              names = h.names;
              cont_below = omega (arith, h.cont_below, up);
              started_below = All-map _ _ s.started (λ d k. omega (arith, k, up)) h.started_below;
            },
            omega arith,
          ))
        λ f. (h, ground arith)

  pub start-Noted :
      (s : Session D) (f : HeadersFrame)
      → length f.fragment ≤ 2 ^ 14
      → Healthy s
      → Noted s (start_headers decode (s.conn, s.decoder) f)
  unfolding start_headers decode_block
  start-Noted s f small h =
      let a = accepted-Healthy s f.id h in
      if_cases (Noted s) f.headers_ended
        (λ _.
          decoded-Noted s (accepted s.conn f.id) f.id f.stream_ended (decode s.decoder f.fragment)
            a.0 a.1)
        λ _. (
          record {
            limits = record {
              frame_size = a.0.limits.frame_size;
              window_size = a.0.limits.window_size;
            };
            block = omega (arith, small);
            names = a.0.names;
            cont_below = a.1;
            started_below = a.0.started_below;
          },
          λ x e. cc,
        )

  pub consume-Noted :
      (s : Session D) (f : ContinuationFrame)
      → length f.fragment ≤ 2 ^ 14
      → Healthy s
      → Noted s (consume_continuation decode (s.conn, s.decoder) f)
  unfolding consume_continuation decode_block
  consume-Noted s f small h =
      if_cases (Noted s)
        (ltb max_header_list_size
          ((length s.conn.cont_block % 2 ^ 32 + length f.fragment % 2 ^ 32) % 2 ^ 32))
        (λ _. (h, λ x e. cc))
        λ t.
          if_cases (Noted s) (not f.headers_ended)
            (λ _. (
              record {
                limits = record {
                  frame_size = h.limits.frame_size;
                  window_size = h.limits.window_size;
                };
                block = ground (arith, length-append s.conn.cont_block f.fragment, h.block);
                names = h.names;
                cont_below = h.cont_below;
                started_below = h.started_below;
              },
              λ x e. cc,
            ))
            λ _.
              decoded-Noted s
                (record s.conn { cont_stream_id = 0; cont_stream_ended = false; cont_block = [] })
                s.conn.cont_stream_id s.conn.cont_stream_ended _
                (record {
                  limits = record {
                    frame_size = h.limits.frame_size;
                    window_size = h.limits.window_size;
                  };
                  block = omega arith;
                  names = h.names;
                  cont_below = omega arith;
                  started_below = h.started_below;
                })
                h.cont_below

  pub acknowledged-Healthy :
      (s : Session D) (xs : List Setting)
      → Healthy s
      → Healthy (acknowledged decode s (apply_peer_settings xs s.conn)).0
  unfolding submitted
  acknowledged-Healthy s xs h =
      answered (apply_peer_settings xs s.conn) (settings-Alike xs s.conn)
        (apply_peer_settings-Limits xs s.conn h.limits).0
    where
      answered :
          (r : Conn × Option Err)
          → Alike s.conn r.0
          → Limits r.0
          → Healthy (acknowledged decode s r).0
      answered (v, some e) a l = Alike-Healthy s v a l h
      answered (v, none) a l =
          Alike-Healthy s (submitted v Intent.settings_ack)
            (record {
              same_block = a.same_block;
              same_names = a.same_names;
              same_cont = a.same_cont;
              same_last = a.same_last;
            })
            (record { frame_size = l.frame_size; window_size = l.window_size }) h
