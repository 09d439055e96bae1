-- ===== src/Worker/Serve.antt =====
-- `serveStream` of stream.go: one request, from its decoded headers to the end of the response.
-- The handler is the calls that it makes for a URL, and whether it panics after them. `resets` are
-- the codes of the RST_STREAM frames that are sent.
pub mod Verdicts
use reverse_http.Prelude.{
  ℕ, Bool, true, false, not, Option, none, some, List, [], ◌∷◌, if◌then◌else◌, Bytes, codes,
  bytes_eq,
}
use reverse_http.Prelude.Int.{ℤ, pos, negsuc}
use reverse_http.Prelude.Table.{delete}
use reverse_http.H2.Errors.{Err, ErrCode, no_error, internal, protocol}
use reverse_http.Worker.Link.{Link}
use reverse_http.Worker.Response.{
  ResponseWriter, WriteErr, short_content_length, Outcome, returns, blocks, out_of_fuel, new_writer,
  is_set, write_headers, end_stream, content_length_key,
}
use reverse_http.Worker.Response.Ending.{Call, handle}
use reverse_http.Worker.Uri.{Url, parse_request_uri}

pub record Served (State : Type 0) : Type 0 where
  pub state : State
  pub response : ResponseWriter
  pub resets : List ErrCode
  pub completed : Bool

-- The request: `data_done` is s.DataDone() when the handler returns.
pub record Request : Type 0 where
  pub is_head : Bool
  pub path : Bytes
  pub data_done : Bool

pub record Run : Type 0 where
  pub calls : List Call
  pub panics : Bool

abbrev pub panicked : ResponseWriter → ResponseWriter
panicked rsp = record rsp {
  status = 500;
  header = delete content_length_key rsp.header;
  declared_cl = negsuc 0;
}

module _ (link : Link) where
  open link use {State}

  -- The verdict on what `endStream` returns.
  abbrev pub verdict : Bool → State × ResponseWriter × Option WriteErr → Served State
  verdict data_done (s, rsp, none) = record {
    state = s;
    response = rsp;
    resets = if data_done then [] else no_error ∷ [];
    completed = true;
  }
  verdict data_done (s, rsp, some short_content_length) = record {
    state = s;
    response = rsp;
    resets = internal ∷ [];
    completed = false;
  }
  verdict data_done (s, rsp, some e) = record {
    state = s;
    response = rsp;
    resets = [];
    completed = false;
  }

  -- After a handler that has returned.
  unfoldable pub finish : Bool → State × ResponseWriter → Served State
  finish data_done (s, rsp) =
      if rsp.cl_violated
      then record { state = s; response = rsp; resets = internal ∷ []; completed = false }
      else if is_set rsp.err
      then record { state = s; response = rsp; resets = []; completed = false }
      else verdict data_done (end_stream link s rsp)

  -- The deferred function, after a panic.
  unfoldable pub recover : State × ResponseWriter → Served State
  recover (s, rsp) =
      if not rsp.wrote_headers
      then (let (s, rsp, _) = write_headers link s (panicked rsp) true in
          record { state = s; response = rsp; resets = []; completed = false })
      else record { state = s; response = rsp; resets = internal ∷ []; completed = false }

  abbrev pub conclude : Bool → Bool → Outcome (State × ResponseWriter) → Outcome (Served State)
  conclude panics data_done (returns r) = returns (if panics then recover r else finish data_done r)
  conclude panics data_done blocks = blocks
  conclude panics data_done out_of_fuel = out_of_fuel

  abbrev pub routed : (Url → Run) → Request → State → Option Url → Outcome (Served State)
  routed handler req s none = returns (record {
    state = s;
    response = new_writer req.is_head;
    resets = protocol ∷ [];
    completed = false;
  })
  routed handler req s (some u) =
      conclude (handler u).panics req.data_done
        (handle link (handler u).calls (s, new_writer req.is_head))

  unfoldable pub serve_stream : (Url → Run) → Request → State → Outcome (Served State)
  serve_stream handler req s = routed handler req s (parse_request_uri req.path)
