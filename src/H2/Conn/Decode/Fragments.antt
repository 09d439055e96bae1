-- ===== src/H2/Conn/Decode/Fragments.antt =====
-- How a header block is cut into HEADERS and CONTINUATION frames (internal/h2/conn.go).
use reverse_http.Prelude.{
  ℕ, ◌+◌, ◌^◌, ◌%◌, ◌≤◌, ◌≡◌, refl, ap, sym, ◌∙◌, Bool, true, false, not, none, some, List, [], ◌∷◌,
  ◌++◌, append_assoc, length, length-append, ltb, if_cases, Bytes, arith, nat_eq, All,
}
use reverse_http.H2.Errors.{max_header_list_size}
use reverse_http.H2.Writer.{Field}
use reverse_http.H2.Conn.{Conn}
use reverse_http.H2.Conn.Decode.{
  HeadersFrame, ContinuationFrame, Result, decode_block, decoded, accepted, start_headers,
  consume_continuation, in_continuation,
}

module _ {D : Type 0} (decode : D → Bytes → D × List Field × Bool) where
  abbrev R : Type 0
  R = Result decode

  -- The frame loop goes on after a frame that neither completes the block nor fails.
  abbrev pub next_frame : (Conn × D → R) → R → R
  next_frame next (cd, none, none) = next cd
  next_frame next (cd, out, err) = (cd, out, err)

  unfoldable pub feed : List ContinuationFrame → Conn × D → R
  feed [] cd = (cd, none, none)
  feed (f ∷ fs) cd = next_frame (feed fs) (consume_continuation decode cd f)

  -- The frames that carry `pieces`, END_HEADERS on the last one.
  abbrev pub continuations : List Bytes → Bytes → List ContinuationFrame
  continuations [] last = record { fragment = last; headers_ended = true } ∷ []
  continuations (p ∷ pieces) last =
      record { fragment = p; headers_ended = false } ∷ continuations pieces last

  abbrev pub joined : List Bytes → Bytes → Bytes
  joined [] last = last
  joined (p ∷ pieces) last = p ++ joined pieces last

  -- The loop over the frames of one block.
  abbrev pub read_block : Conn × D → HeadersFrame → List ContinuationFrame → R
  read_block cd f fs = next_frame (feed fs) (start_headers decode cd f)

  consume_small :
      (P : R → Type 0) (c : Conn) (d : D) (f : ContinuationFrame)
      → length c.cont_block + length f.fragment ≤ max_header_list_size
      → (f.headers_ended ≡ false
          → P ((record c { cont_block = c.cont_block ++ f.fragment }, d), none, none))
      → (f.headers_ended ≡ true
          → P (
              decode_block decode
                (record c { cont_stream_id = 0; cont_stream_ended = false; cont_block = [] }, d)
                c.cont_stream_id
                (c.cont_block ++ f.fragment)
                c.cont_stream_ended))
      → P (consume_continuation decode (c, d) f)
  unfolding consume_continuation
  consume_small P c d f h more last =
      if_cases P
        (ltb max_header_list_size
          ((length c.cont_block % 2 ^ 32 + length f.fragment % 2 ^ 32) % 2 ^ 32))
        (λ t. absurd (ground (arith, h)))
        λ _. if_cases P (not f.headers_ended) (λ t. more (ground arith)) λ t. last (ground arith)

  next_nil : (r : R) → next_frame (feed []) r ≡ r
  unfolding feed
  next_nil (cd, none, none) = refl
  next_nil (cd, none, some e) = refl
  next_nil (cd, some x, e) = refl

  -- The block is complete: what `consume_continuation` makes of it.
  abbrev finished : Conn → D → Bytes → R
  finished c d block =
      decode_block decode
        (record c { cont_stream_id = 0; cont_stream_ended = false; cont_block = [] }, d)
        c.cont_stream_id block c.cont_stream_ended

  feed-joined :
      (pieces : List Bytes) (last : Bytes) (c : Conn) (d : D)
      → length c.cont_block + length (joined pieces last) ≤ max_header_list_size
      → feed (continuations pieces last) (c, d) ≡ finished c d (c.cont_block ++ joined pieces last)
  unfolding feed
  feed-joined [] last c d h =
      consume_small (λ r. next_frame (feed []) r ≡ finished c d (c.cont_block ++ last)) c d
        (record { fragment = last; headers_ended = true }) h (λ t. cc)
        λ _. next_nil (finished c d (c.cont_block ++ last))
  feed-joined (p ∷ pieces) last c d h =
      consume_small
        (λ r.
          next_frame (feed (continuations pieces last)) r
          ≡ finished c d (c.cont_block ++ (p ++ joined pieces last)))
        c d (record { fragment = p; headers_ended = false })
        (omega (arith, h, length-append p (joined pieces last)))
        (λ _.
          feed-joined pieces last (record c { cont_block = c.cont_block ++ p }) d
            (omega (arith, h, length-append p (joined pieces last), length-append c.cont_block p))
          ∙ ap (finished c d) (append_assoc c.cont_block p (joined pieces last)))
        λ t. cc

  -- A connection that is not in the middle of a block.
  abbrev Resting : Conn → Type 0
  Resting c = (c.cont_stream_id ≡ 0) × (c.cont_stream_ended ≡ false) × (c.cont_block ≡ [])

  abbrev cleared : Conn → Conn
  cleared c = record c { cont_stream_id = 0; cont_stream_ended = false; cont_block = [] }

  cleared-Resting : (c : Conn) → Resting c → cleared c ≡ c
  cleared-Resting c r =
      ap (λ i. record c { cont_stream_id = i; cont_stream_ended = false; cont_block = [] })
        (sym r.0)
      ∙ ap (λ e. record c { cont_stream_ended = e; cont_block = [] }) (sym r.1)
      ∙ ap (λ b. record c { cont_block = b }) (sym r.2)

  accepted-Resting : (c : Conn) (id : ℕ) → Resting c → Resting (accepted c id)
  accepted-Resting c id r = if_cases Resting (ltb c.last_stream_id id) (λ _. r) λ _. r

  -- A header block means the same however the peer cuts it into a HEADERS frame and CONTINUATION
  -- frames, empty ones included, as long as its size stays within MaxHeaderListSize: the headers,
  -- the error, the HPACK decoder and the connection come out as for one HEADERS frame with the
  -- whole block.
  pub fragmentation_irrelevant :
      (c : Conn) (d : D) (id : ℕ) (first : Bytes) (pieces : List Bytes) (last : Bytes)
      (stream_ended : Bool)
      → in_continuation c ≡ false
      → c.cont_block ≡ []
      → c.cont_stream_ended ≡ false
      → length (first ++ joined pieces last) ≤ max_header_list_size
      → read_block
          (c, d)
          (record { id = id; fragment = first; headers_ended = false; stream_ended = stream_ended })
          (continuations pieces last)
        ≡ start_headers decode
            (c, d)
            (record {
              id = id;
              fragment = first ++ joined pieces last;
              headers_ended = true;
              stream_ended = stream_ended;
            })
  unfolding start_headers in_continuation
  fragmentation_irrelevant c d id first pieces last stream_ended q b e h =
      feed-joined pieces last _ d (omega (arith, h, length-append first (joined pieces last)))
      ∙ ap (λ v. decode_block decode (v, d) id (first ++ joined pieces last) stream_ended)
          (cleared-Resting (accepted c id) (accepted-Resting c id (ground (arith, q), e, b)))

  -- The accumulated block of the connection that a frame leaves.
  abbrev Bounded : R → Type 0
  Bounded r = length r.0.0.cont_block ≤ max_header_list_size

  decoded-Bounded :
      (c : Conn) (id : ℕ) (ended : Bool) (o : D × List Field × Bool)
      → length c.cont_block ≤ max_header_list_size
      → Bounded (decoded decode c id ended o)
  decoded-Bounded c id ended (d, fields, true) h = h
  decoded-Bounded c id ended (d, fields, false) h = h

  consume-Bounded :
      (c : Conn) (d : D) (f : ContinuationFrame)
      → length f.fragment ≤ 2 ^ 24
      → length c.cont_block ≤ max_header_list_size
      → Bounded (consume_continuation decode (c, d) f)
  unfolding consume_continuation decode_block
  consume-Bounded c d f small h =
      if_cases Bounded
        (ltb max_header_list_size
          ((length c.cont_block % 2 ^ 32 + length f.fragment % 2 ^ 32) % 2 ^ 32))
        (λ _. h)
        λ t.
          if_cases Bounded (not f.headers_ended)
            (λ _. ground (arith, length-append c.cont_block f.fragment))
            λ _.
              decoded-Bounded
                (record c { cont_stream_id = 0; cont_stream_ended = false; cont_block = [] })
                c.cont_stream_id c.cont_stream_ended (decode d (c.cont_block ++ f.fragment))
                (omega arith)

  then-Bounded :
      (next : Conn × D → R) (r : R)
      → Bounded r
      → ((c : Conn) (d : D) → length c.cont_block ≤ max_header_list_size → Bounded (next (c, d)))
      → Bounded (next_frame next r)
  then-Bounded next ((c, d), none, none) h k = k c d h
  then-Bounded next (cd, none, some e) h k = h
  then-Bounded next (cd, some x, e) h k = h

  -- However many CONTINUATION frames the peer sends, of up to 2^24 bytes each, the accumulated
  -- header block stays within MaxHeaderListSize.
  pub block_bounded :
      (fs : List ContinuationFrame) (c : Conn) (d : D)
      → All (λ (f : ContinuationFrame). length f.fragment ≤ 2 ^ 24) fs
      → length c.cont_block ≤ max_header_list_size
      → length (feed fs (c, d)).0.0.cont_block ≤ max_header_list_size
  unfolding feed
  block_bounded [] c d small h = h
  block_bounded (f ∷ fs) c d small h =
      then-Bounded (feed fs) (consume_continuation decode (c, d) f)
        (consume-Bounded c d f small.0 h) λ c' d' h'. block_bounded fs c' d' small.1 h'
