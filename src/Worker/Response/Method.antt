-- ===== src/Worker/Response/Method.antt =====
-- The calls of a handler leave alone whether its request is a HEAD (writer.go).
use reverse_http.Prelude.{
  ℕ, zero, suc, ◌+◌, ◌≡◌, refl, ◌∙◌, subst, Bool, true, false, Option, none, some, [], ◌∷◌, arith,
  drop, take, Bytes, if_cases, leb, nat_eq, ◌==◌, ◌&&◌, ◌||◌, length, not,
}
use reverse_http.Prelude.Int.{ℤ, pos, pos_part, ◌+ℤ◌, int64, ltb_ℤ}
use reverse_http.H2.Errors.{Err}
use reverse_http.Worker.Link.{Link}
use reverse_http.Worker.Response.{
  ResponseWriter, Outcome, returns, blocks, out_of_fuel, Written, is_set, latch, prepare, flush,
  send_empty, write_header, write_informational, write_headers, chunk_sent, reserved, write_loop,
  write_body, max_frame_of, headers_first, write, Loop,
}

pub prepare_method : (rsp : ResponseWriter) → (prepare rsp).is_head ≡ rsp.is_head
unfolding prepare
prepare_method rsp = ground arith

latch_method : (o : Option Err) (v : ResponseWriter) → (latch o v).is_head ≡ v.is_head
latch_method none v = refl
latch_method (some e) v = refl

module _ (link : Link) where
  open link use {State}

  abbrev pub Same : Bool → Written link → Type 0
  Same b r = r.1.is_head ≡ b

  -- Of a loop that runs on nothing is said.
  abbrev pub Kept : Bool → Outcome (Written link) → Type 0
  Kept b (returns r) = Same b r
  Kept b blocks = Unit
  Kept b out_of_fuel = Unit

  -- The rest of the loop keeps it.
  abbrev Keeps : Loop link → Type 0
  Keeps next =
      (s : State) (rsp : ResponseWriter) (p : Bytes) (n : ℕ) → Kept rsp.is_head (next s rsp p n)

  sent_method :
      (next : Loop link) (rsp : ResponseWriter) (p : Bytes) (total got : ℕ) (r : State × Option Err)
      → Keeps next
      → Kept rsp.is_head (chunk_sent link next rsp p total got r)
  sent_method next rsp p total got (s, some e) k = refl
  sent_method next rsp p total got (s, none) k = k s _ (drop got p) (total + got)

  reserved_method :
      (next : Loop link) (rsp : ResponseWriter) (p : Bytes) (total : ℕ)
      (o : Option (State × ℤ × Bool))
      → Keeps next
      → Kept rsp.is_head (reserved link next rsp p total o)
  reserved_method next rsp p total none k = tt
  reserved_method next rsp p total (some (s, got, true)) k = refl
  reserved_method next rsp p total (some (s, got, false)) k =
      sent_method next rsp p total (pos_part got) (link.send_data s (take (pos_part got) p) false) k

  write_loop_method : (fuel : ℕ) (max_frame : ℤ) → Keeps (write_loop link fuel max_frame)
  unfolding write_loop
  write_loop_method zero max_frame s rsp p n = tt
  write_loop_method (suc fuel) max_frame s rsp [] n = refl
  write_loop_method (suc fuel) max_frame s rsp (b ∷ p) n =
      reserved_method (write_loop link fuel max_frame) rsp (b ∷ p) n _
        (write_loop_method fuel max_frame)

  write_body_method :
      (s : State) (rsp : ResponseWriter) (p : Bytes) → Kept rsp.is_head (write_body link s rsp p)
  unfolding write_body
  write_body_method s rsp p =
      if_cases (Kept rsp.is_head) (leb (length p) 0) (λ _. refl)
        λ _.
          if_cases (Kept rsp.is_head)
            (not (ltb_ℤ rsp.declared_cl (pos 0))
              && ltb_ℤ rsp.declared_cl (int64 (rsp.written +ℤ pos (length p))))
            (λ _. refl) λ _. write_loop_method (suc (length p)) (max_frame_of link s) s rsp p 0

  pub write_headers_method :
      (s : State) (rsp : ResponseWriter) (end_stream : Bool)
      → (write_headers link s rsp end_stream).1.is_head ≡ rsp.is_head
  unfolding write_headers
  write_headers_method s rsp end_stream =
      if_cases (λ (r : State × ResponseWriter × Option Err). r.1.is_head ≡ rsp.is_head)
        rsp.wrote_headers (λ _. refl)
        λ _. latch_method _ (record (prepare rsp) { wrote_headers = true }) ∙ prepare_method rsp

  headers_first_method :
      (p : Bytes) (r : State × ResponseWriter × Option Err)
      → Kept r.1.is_head (headers_first link p r)
  headers_first_method p (s, rsp, some e) = refl
  headers_first_method p (s, rsp, none) = write_body_method s rsp p

  pub write_method :
      (s : State) (rsp : ResponseWriter) (p : Bytes) → Kept rsp.is_head (write link s rsp p)
  unfolding write
  write_method s rsp p =
      if_cases (Kept rsp.is_head) (is_set rsp.err) (λ _. refl)
        λ _.
          if_cases (Kept rsp.is_head) (prepare rsp).no_body (λ _. prepare_method rsp)
            λ _.
              let r = write_headers link s (prepare rsp) false in
              subst (λ b. Kept b (headers_first link p r))
                (write_headers_method s (prepare rsp) false ∙ prepare_method rsp)
                (headers_first_method p r)

  send_empty_method :
      (r : State × ResponseWriter × Option Err) → (send_empty link r).1.is_head ≡ r.1.is_head
  send_empty_method (s, rsp, some e) = refl
  send_empty_method (s, rsp, none) = latch_method (link.send_data s [] false).1 rsp

  pub flush_method : (s : State) (rsp : ResponseWriter) → (flush link s rsp).1.is_head ≡ rsp.is_head
  unfolding flush
  flush_method s rsp =
      if_cases P (is_set rsp.err) (λ _. refl)
        λ _.
          if_cases P (prepare rsp).no_body (λ _. prepare_method rsp)
            λ _.
              send_empty_method (write_headers link s (prepare rsp) false)
              ∙ write_headers_method s (prepare rsp) false
              ∙ prepare_method rsp
    where
      P : State × ResponseWriter → Type 0
      P r = r.1.is_head ≡ rsp.is_head

  pub write_header_method :
      (s : State) (rsp : ResponseWriter) (status : ℕ)
      → (write_header link s rsp status).1.is_head ≡ rsp.is_head
  unfolding write_header write_informational
  write_header_method s rsp status =
      if_cases P (rsp.prepared || is_set rsp.err) (λ _. refl)
        λ _.
          if_cases P (leb 100 status && leb status 199)
            (λ _.
              if_cases P (rsp.status == 0)
                (λ _. if_cases P (status == 101) (λ _. refl) λ _. latch_method _ rsp) λ _. refl)
            λ _. refl
    where
      P : State × ResponseWriter → Type 0
      P r = r.1.is_head ≡ rsp.is_head
