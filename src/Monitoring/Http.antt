-- ===== src/Monitoring/Http.antt =====
-- engine/src/hypernet/monitoring/HttpStatusServer.cpp: the request that is read, the response, and
-- the life of the server. Texts are lists of bytes; `to_string` is the library's print of a number.
pub mod Text
pub mod RoundTrip
pub mod SendAll
use network_engine_portfolio.Prelude.{
  ℕ, ◌+◌, ◌-◌, Bool, true, false, not, ◌&&◌, ◌||◌, Option, none, some, List, [], ◌∷◌, ◌++◌, ◌==◌,
  leb, if◌then◌else◌, length, take, drop, same_bytes,
}
use network_engine_portfolio.Net.Session.Send.{SendAnswer, sent, interrupted, would_block, failed}
use network_engine_portfolio.Monitoring.Http.Text.{
  get_method, metrics_path, metrics_query, http_version, content_type, content_length,
  connection_close, crlf,
}

abbrev pub behind : Option ℕ → Option ℕ
behind none = none
behind (some i) = some (i + 1)

-- `find` of a character and of the end of a line; `none` is `npos`.
unfoldable pub find_byte : ℕ → List ℕ → Option ℕ
find_byte b [] = none
find_byte b (x ∷ xs) = let rest = find_byte b xs in if x == b then some 0 else behind rest

unfoldable pub find_crlf : List ℕ → Option ℕ
find_crlf [] = none
find_crlf (x ∷ []) = none
find_crlf (x ∷ y ∷ ys) =
    let rest = find_crlf (y ∷ ys) in if (x == 13) && (y == 10) then some 0 else behind rest

unfoldable pub starts_with : List ℕ → List ℕ → Bool
starts_with s prefix = leb (length prefix) (length s) && same_bytes (take (length prefix) s) prefix

-- The method and the target of the first line.
unfoldable pub split_line : List ℕ → Option (List ℕ × List ℕ)
split_line line = elim (find_byte 32 line) [
  | none ↦ none
  | some sp1 ↦ elim (find_byte 32 (drop (sp1 + 1) line)) [
    | none ↦ none
    | some n ↦ some (take sp1 line, take n (drop (sp1 + 1) line))
  ]
]

unfoldable pub find_eol : List ℕ → Option ℕ
find_eol req = elim (find_crlf req) [ some i ↦ some i | none ↦ find_byte 10 req ]

unfoldable pub parse_request_target : List ℕ → Option (List ℕ × List ℕ)
parse_request_target req = elim (find_eol req) [
  | none ↦ none
  | some eol ↦ split_line (take eol req)
]

-- What a response is made of.
pub record Response : Type 0 where
  pub code : ℕ
  pub reason : List ℕ
  pub media_type : List ℕ
  pub body : List ℕ

unfoldable pub response_header : (to_string : ℕ → List ℕ) → Response → List ℕ
response_header to_string r =
    http_version
    ++ (to_string r.code
        ++ ((32 ∷ [])
            ++ (r.reason
                ++ (crlf
                    ++ (content_type
                        ++ (r.media_type
                            ++ (crlf
                                ++ (content_length
                                    ++ (to_string (length r.body)
                                        ++ (crlf ++ connection_close))))))))))

-- The texts of the four responses.
pub record Texts : Type 0 where
  pub plain : List ℕ
  pub prometheus : List ℕ
  pub bad_request : List ℕ × List ℕ
  pub not_allowed : List ℕ × List ℕ
  pub ok : List ℕ
  pub not_found : List ℕ × List ℕ

-- `metrics` is the text of the counters.
unfoldable pub respond : Texts → (metrics : List ℕ) → Option (List ℕ × List ℕ) → Response
respond texts metrics none = record {
  code = 400;
  reason = texts.bad_request.0;
  media_type = texts.plain;
  body = texts.bad_request.1;
}
respond texts metrics (some (method, target)) =
    if not (same_bytes method get_method)
    then record {
      code = 405;
      reason = texts.not_allowed.0;
      media_type = texts.plain;
      body = texts.not_allowed.1;
    }
    else if same_bytes target metrics_path || starts_with target metrics_query
    then record { code = 200; reason = texts.ok; media_type = texts.prometheus; body = metrics }
    else record {
      code = 404;
      reason = texts.not_found.0;
      media_type = texts.plain;
      body = texts.not_found.1;
    }

-- `sizeof(buf)`
abbrev pub request_buffer_size : ℕ
request_buffer_size = 4096

-- What is done with the bytes of the one `recv`.
unfoldable pub answer_request : Texts → (metrics buf : List ℕ) → Option Response
answer_request texts metrics [] = none
answer_request texts metrics (b ∷ bytes) =
    some (respond texts metrics (parse_request_target (b ∷ bytes)))

-- `polled` says whether the client sends within half a second; `arrived` are the bytes that the
-- socket holds at the one `recv`, which takes as many as the buffer has room for, or `none` if it
-- fails.
unfoldable pub handle_client :
    Texts → (metrics : List ℕ) → (polled : Bool) → (arrived : Option (List ℕ)) → Option Response
handle_client texts metrics polled arrived = if not polled then none else elim arrived [
  | none ↦ none
  | some bytes ↦ answer_request texts metrics (take request_buffer_size bytes)
]

-- The loop around `send`: the bytes on the wire, and whether it came to the end of the data; `none`
-- if the answers run out.
unfoldable pub send_all : List SendAnswer → List ℕ → List ℕ → Option (Bool × List ℕ)
send_all answers [] wire = some (true, wire)
send_all [] (b ∷ bytes) wire = none
send_all (sent n ∷ answers) (b ∷ bytes) wire =
    let rest = send_all answers (drop n (b ∷ bytes)) (wire ++ take n (b ∷ bytes)) in
    if n == 0 then some (false, wire) else rest
send_all (interrupted ∷ answers) (b ∷ bytes) wire = send_all answers (b ∷ bytes) wire
send_all (would_block ∷ answers) (b ∷ bytes) wire = send_all answers (b ∷ bytes) wire
send_all (failed errno ∷ answers) (b ∷ bytes) wire = some (false, wire)

-- `pipe_open`, `thread`: the wake-up pipe and the thread are there; `wakes` counts what is written
-- to the pipe.
pub record StatusServer : Type 0 where
  pub started : Bool
  pub stop_requested : Bool
  pub pipe_open : Bool
  pub thread : Bool
  pub wakes : ℕ

unfoldable pub start_server : (piped : Bool) → StatusServer → Bool × StatusServer
start_server piped s =
    if s.started
    then (true, s)
    else if not piped
    then (false, record s { stop_requested = false; started = false })
    else (
      true,
      record s { started = true; stop_requested = false; pipe_open = true; thread = true },
    )

unfoldable pub request_server_stop : StatusServer → StatusServer
request_server_stop s =
    if not s.started
    then s
    else if s.stop_requested
    then s
    else record s { stop_requested = true; wakes = (if s.pipe_open then s.wakes + 1 else s.wakes) }

unfoldable pub stop_and_join : StatusServer → StatusServer
stop_and_join s = record (request_server_stop s) {
  thread = false;
  pipe_open = false;
  started = false;
}
