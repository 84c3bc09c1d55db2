-- ===== src/Monitoring/Http/Text.antt =====
-- engine/src/hypernet/monitoring/HttpStatusServer.cpp: the text of a request and of a response, in
-- bytes.
use network_engine_portfolio.Prelude.{ℕ, List, [], ◌∷◌}

-- `GET`
abbrev pub get_method : List ℕ
get_method = 71 ∷ 69 ∷ 84 ∷ []

-- `/metrics`
abbrev pub metrics_path : List ℕ
metrics_path = 47 ∷ 109 ∷ 101 ∷ 116 ∷ 114 ∷ 105 ∷ 99 ∷ 115 ∷ []

-- `/metrics?`
abbrev pub metrics_query : List ℕ
metrics_query = 47 ∷ 109 ∷ 101 ∷ 116 ∷ 114 ∷ 105 ∷ 99 ∷ 115 ∷ 63 ∷ []

-- `HTTP/1.1 `
abbrev pub http_version : List ℕ
http_version = 72 ∷ 84 ∷ 84 ∷ 80 ∷ 47 ∷ 49 ∷ 46 ∷ 49 ∷ 32 ∷ []

-- `Content-Type: `
abbrev pub content_type : List ℕ
content_type = 67 ∷ 111 ∷ 110 ∷ 116 ∷ 101 ∷ 110 ∷ 116 ∷ 45 ∷ 84 ∷ 121 ∷ 112 ∷ 101 ∷ 58 ∷ 32 ∷ []

-- `Content-Length: `
abbrev pub content_length : List ℕ
content_length =
    67 ∷ 111 ∷ 110 ∷ 116 ∷ 101 ∷ 110 ∷ 116 ∷ 45 ∷ 76 ∷ 101 ∷ 110 ∷ 103 ∷ 116 ∷ 104 ∷ 58 ∷ 32 ∷ []

-- `Connection: close` and the empty line
abbrev pub connection_close : List ℕ
connection_close =
    67 ∷ 111 ∷ 110 ∷ 110 ∷ 101 ∷ 99 ∷ 116 ∷ 105 ∷ 111 ∷ 110 ∷ 58 ∷ 32 ∷ 99 ∷ 108 ∷ 111 ∷ 115 ∷ 101
    ∷ 13 ∷ 10 ∷ 13 ∷ 10 ∷ []

-- The end of a line.
abbrev pub crlf : List ℕ
crlf = 13 ∷ 10 ∷ []
