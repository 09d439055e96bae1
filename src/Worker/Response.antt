-- ===== src/Worker/Response.antt =====
-- writer.go: the worker's http.ResponseWriter. A call that waits for flow-control credit for ever is
-- `blocks`.
pub mod Shape
pub mod Sound
pub mod Loop
pub mod Method
pub mod Calls
pub mod Writes
pub mod Interim
pub mod Ending
pub mod Closing
use reverse_http.Prelude.{
  ℕ, zero, suc, ◌+◌, ◌-◌, ◌*◌, ◌^◌, Bool, true, false, not, ◌&&◌, ◌||◌, Option, none, some, List,
  [], ◌∷◌, length, take, drop, ltb, leb, nat_beq, if◌then◌else◌, Bytes, codes, bytes_eq, nat_eq,
  ◌==◌,
}
use reverse_http.Prelude.Int.{ℤ, pos, negsuc, pos_part, neg_part, ◌+ℤ◌, ltb_ℤ, min_ℤ, int32, int64}
use reverse_http.Prelude.Table.{lookup, delete, erase}
use reverse_http.H2.Errors.{Err}
use reverse_http.H2.Writer.{Header}
use reverse_http.Worker.Link.{Link}

-- The errors that reach a handler: those of the connection, errConnDead, http.ErrContentLength;
-- and errShortContentLength, which `endStream` returns.
pub data WriteErr : Type 0 where
  sending : Err → WriteErr
  conn_dead content_length short_content_length : WriteErr

-- `header` is rw.stream.Header. `declared_cl` and `written` are int64.
pub record ResponseWriter : Type 0 where
  pub err : Option WriteErr
  pub header : Header
  pub declared_cl : ℤ
  pub written : ℤ
  pub status : ℕ
  pub wrote_headers : Bool
  pub prepared : Bool
  pub is_head : Bool
  pub no_body : Bool
  pub cl_violated : Bool

abbrev pub new_writer : Bool → ResponseWriter
new_writer is_head = record {
  err = none;
  header = [];
  declared_cl = pos 0;
  written = pos 0;
  status = 0;
  wrote_headers = false;
  prepared = false;
  is_head = is_head;
  no_body = false;
  cl_violated = false;
}

abbrev pub content_length_key : Bytes
content_length_key = codes "Content-Length"

abbrev pub first_value : Option (List Bytes) → Bytes
first_value none = []
first_value (some []) = []
first_value (some (v ∷ vv)) = v

-- `strconv.ParseUint(cl, 10, 63)`; `none` is an error.
pub parse_digits : Bytes → ℕ → Option ℕ
parse_digits [] n = if ltb n (2 ^ 63) then some n else none
parse_digits (c ∷ s) n =
    if leb b'0' c && leb c b'9' then parse_digits s (n * 10 + (c - b'0')) else none

unfoldable pub parse_uint63 : Bytes → Option ℕ
unfolding parse_digits
parse_uint63 [] = none
parse_uint63 (c ∷ s) = parse_digits (c ∷ s) 0

unfoldable pub body_allowed_for_status : ℕ → Bool
body_allowed_for_status status = not (status == 204) && not (status == 304)

-- The declared Content-Length: taken over, absent, or dropped from the header.
abbrev pub declare : Option ℕ → ResponseWriter → ResponseWriter
declare (some v) rsp = record rsp { declared_cl = pos v }
declare none rsp = record rsp { header = erase content_length_key rsp.header }

unfoldable pub prepare : ResponseWriter → ResponseWriter
unfolding body_allowed_for_status
prepare rsp =
    if rsp.prepared
    then rsp
    else (let status = if rsp.status == 0 then 200 else rsp.status in
        let rsp = record rsp {
          prepared = true;
          status = status;
          no_body = rsp.is_head || not (body_allowed_for_status status);
          declared_cl = negsuc 0;
        } in
        let cl = first_value (lookup content_length_key rsp.header) in
        if cl == [] then rsp else declare (parse_uint63 cl) rsp)

-- `if err != nil { rw.err = err }`
abbrev pub latch : Option Err → ResponseWriter → ResponseWriter
latch none rsp = rsp
latch (some e) rsp = record rsp { err = some (sending e) }

abbrev pub is_set : Option WriteErr → Bool
is_set none = false
is_set (some e) = true

abbrev pub as_write_err : Option Err → Option WriteErr
as_write_err none = none
as_write_err (some e) = some (sending e)

pub data Outcome {ℓ} (A : Type ℓ) : Type ℓ where
  returns : A → Outcome A
  blocks out_of_fuel : Outcome A

abbrev is_present : Option (List Bytes) → Bool
is_present none = false
is_present (some vv) = true

module _ (link : Link) where
  open link use {State, max_frame_size, send_response_headers, send_data}

  unfoldable pub write_informational : State → ResponseWriter → ℕ → State × ResponseWriter
  write_informational s rsp status =
      if status == 101
      then (s, rsp)
      else (let h =
            if is_present (lookup content_length_key rsp.header)
            then delete content_length_key rsp.header
            else rsp.header in
          let (s, err) = send_response_headers s status h false in (s, latch err rsp))

  unfoldable pub write_header : State → ResponseWriter → ℕ → State × ResponseWriter
  write_header s rsp status =
      if rsp.prepared || is_set rsp.err
      then (s, rsp)
      else if leb 100 status && leb status 199
      then (if rsp.status == 0 then write_informational s rsp status else (s, rsp))
      else (s, record rsp { status = status })

  unfoldable pub write_headers : State → ResponseWriter → Bool → State × ResponseWriter × Option Err
  write_headers s rsp end_stream =
      if rsp.wrote_headers
      then (s, rsp, none)
      else (let rsp = record (prepare rsp) { wrote_headers = true } in
          let (s, err) = send_response_headers s rsp.status rsp.header end_stream in
          (s, latch err rsp, err))

  -- The end of `Flush`, once the headers are out.
  abbrev send_empty : State × ResponseWriter × Option Err → State × ResponseWriter
  send_empty (s, rsp, some e) = (s, rsp)
  send_empty (s, rsp, none) = let (s, err) = send_data s [] false in (s, latch err rsp)

  unfoldable pub flush : State → ResponseWriter → State × ResponseWriter
  flush s rsp =
      if is_set rsp.err
      then (s, rsp)
      else (let rsp = prepare rsp in
          if rsp.no_body then (s, rsp) else send_empty (write_headers s rsp false))

  -- What a call of `Write` leaves: the number of bytes and the error that it returns come last.
  abbrev pub Written : Type 0
  Written = State × ResponseWriter × ℕ × Option WriteErr

  abbrev pub max_frame_of : State → ℤ
  max_frame_of s =
      let max_frame = int32 (pos (max_frame_size s)) in
      if ltb_ℤ (pos 0) max_frame then max_frame else pos 16384

  abbrev pub Loop : Type 0
  Loop = State → ResponseWriter → Bytes → ℕ → Outcome Written

  -- A round of the loop after `SendData`, for the chunk `p[:got]`.
  abbrev pub chunk_sent :
      Loop → ResponseWriter → Bytes → ℕ → ℕ → State × Option Err → Outcome Written
  chunk_sent next rsp p total got (s, some e) =
      returns (s, record rsp { err = some (sending e) }, total, some (sending e))
  chunk_sent next rsp p total got (s, none) =
      next s (record rsp { written = int64 (rsp.written +ℤ pos got) }) (drop got p) (total + got)

  -- A round of the loop after `Reserve`.
  abbrev pub reserved :
      Loop → ResponseWriter → Bytes → ℕ → Option (State × ℤ × Bool) → Outcome Written
  reserved next rsp p total none = blocks
  reserved next rsp p total (some (s, got, true)) =
      returns (s, record rsp { err = some conn_dead }, total, some conn_dead)
  reserved next rsp p total (some (s, got, false)) =
      chunk_sent next rsp p total (pos_part got) (send_data s (take (pos_part got) p) false)

  -- The loop of `Write`, over what is left of `p`, with `total` bytes sent so far.
  unfoldable pub write_loop : ℕ → ℤ → Loop
  write_loop zero max_frame s rsp p total = out_of_fuel
  write_loop (suc fuel) max_frame s rsp [] total = returns (s, rsp, total, none)
  write_loop (suc fuel) max_frame s rsp (b ∷ p) total =
      let want = min_ℤ (int32 (pos (length (b ∷ p)))) max_frame in
      reserved (write_loop fuel max_frame) rsp (b ∷ p) total (link.reserve s want)

  -- `Write` after the headers are out.
  unfoldable pub write_body : State → ResponseWriter → Bytes → Outcome Written
  write_body s rsp p =
      if leb (length p) 0
      then returns (s, rsp, 0, none)
      else if not (ltb_ℤ rsp.declared_cl (pos 0))
          && ltb_ℤ rsp.declared_cl (int64 (rsp.written +ℤ pos (length p)))
      then returns
          (s, record rsp { cl_violated = true; err = some content_length }, 0, some content_length)
      else write_loop (suc (length p)) (max_frame_of s) s rsp p 0

  abbrev pub headers_first : Bytes → State × ResponseWriter × Option Err → Outcome Written
  headers_first p (s, rsp, some e) = returns (s, rsp, 0, some (sending e))
  headers_first p (s, rsp, none) = write_body s rsp p

  unfoldable pub write : State → ResponseWriter → Bytes → Outcome Written
  write s rsp p =
      if is_set rsp.err
      then returns (s, rsp, 0, rsp.err)
      else (let rsp = prepare rsp in
          if rsp.no_body
          then returns (s, rsp, length p, none)
          else headers_first p (write_headers s rsp false))

  unfoldable pub end_stream : State → ResponseWriter → State × ResponseWriter × Option WriteErr
  end_stream s rsp =
      let rsp = prepare rsp in
      if not rsp.no_body && not (ltb_ℤ rsp.declared_cl (pos 0)) && ltb_ℤ rsp.written rsp.declared_cl
      then (s, rsp, some short_content_length)
      else if not rsp.wrote_headers
      then (let (s, rsp, err) = write_headers s rsp true in (s, rsp, as_write_err err))
      else (let (s, err) = send_data s [] true in (s, latch err rsp, as_write_err err))
