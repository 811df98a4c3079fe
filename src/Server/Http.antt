-- ===== src/Server/Http.antt =====
-- What the middleware uses of net/http: headers, requests with a body that is read once, and answers.
use neo4j_mcp_canary.Prelude.{
  ℕ, List, [], ◌∷◌, ◌++◌, ◌⊎◌, inl, inr, Option, none, some, leb, take, drop, length, if◌then◌else◌,
  ℤ,
}
use neo4j_mcp_canary.Text.{Str, codes}
use neo4j_mcp_canary.Text.Search.{equal_fold, cut}
use neo4j_mcp_canary.Auth.{Context}

abbrev pub Headers : Type 0
Headers = List (Str × Str)

-- Header.Get: the first value of a key, "" when there is none
unfoldable pub header_get : Headers → Str → Str
header_get [] key = []
header_get ((k, v) ∷ hs) key = let rest = header_get hs key in if equal_fold k key then v else rest

-- Header.Del
unfoldable pub header_del : Headers → Str → Headers
header_del [] key = []
header_del ((k, v) ∷ hs) key =
    let rest = header_del hs key in if equal_fold k key then rest else (k, v) ∷ rest

-- Header.Add
abbrev pub header_add : Headers → Str → Str → Headers
header_add hs key value = hs ++ ((key, value) ∷ [])

-- Header.Set
abbrev pub header_set : Headers → Str → Str → Headers
header_set hs key value = header_add (header_del hs key) key value

-- What is left to read of a body: its bytes, and the error that reading ends in, if it fails.
pub record Body : Type 0 where
  pub content : Str
  pub failure : Option Str

-- bytes.NewReader
abbrev pub bytes_reader : Str → Body
bytes_reader buf = record { content = buf; failure = none }

-- http.MaxBytesReader
unfoldable pub max_bytes_reader : Body → ℕ → Body
max_bytes_reader body n = if leb (length body.content) n then body else record {
  content = take n body.content;
  failure = some (codes "http: request body too large");
}

-- io.ReadAll
abbrev pub read_all : Body → Str ⊎ Str
read_all body = elim body.failure [ none ↦ inr body.content | some e ↦ inl e ]

pub record Request : Type 0 where
  pub method : Str
  pub path : Str
  pub host : Str
  pub headers : Headers
  pub body : Body
  pub content_length : ℤ
  pub context : Context

-- The packages that decode what a client sends: encoding/base64, and encoding/json for the field
-- "method" of a JSON object.
pub record Decoders : Type 0 where
  pub decode_base64 : Str → Option Str
  pub json_method : Str → Str ⊎ Str

-- Request.BasicAuth
unfoldable pub basic_auth : Decoders → Request → Option (Str × Str)
unfolding header_get
basic_auth decoders r =
    let header = header_get r.headers (codes "Authorization") in
    if equal_fold (take 6 header) (codes "Basic ")
    then elim (decoders.decode_base64 (drop 6 header)) [ none ↦ none | some text ↦ cut text b':' ]
    else none

pub data Event : Type 0 where
  unauthenticated_json_rpc : Str → Event

-- How the handling of a request ends: an answer that the middleware writes, or the handler
-- behind all of it, with the request that it is given.
pub data End : Type 0 where
  replied : ℕ → Str → End
  reached : Request → End

-- The events that were sent, the headers of the response, and the end.
pub record Answer : Type 0 where
  pub events : List Event
  pub headers : Headers
  pub outcome : End

-- http.Handler: the headers written so far, and the request
abbrev pub Handler : Type 0
Handler = Headers → Request → Answer

-- http.Error
abbrev pub http_error : Headers → Str → ℕ → Answer
http_error headers text status = record {
  events = [];
  headers = headers;
  outcome = replied status text;
}

-- WriteHeader with the status for no content
abbrev pub no_content : Headers → Answer
no_content headers = record { events = []; headers = headers; outcome = replied 204 [] }

-- The handler behind the middleware.
abbrev pub reach : Handler
reach headers r = record { events = []; headers = headers; outcome = reached r }
