-- ===== src/Examples/Serving.antt =====
-- tunnel/src/serve.rs at concrete inputs.
use p2p_llm_tunnel.Prelude.{
  ◌≡◌, ◌≢◌, refl, List, [], ◌∷◌, ◌++◌, some, codes, concat, All, get, nat_eq, bytes_eq, bytes_eqb,
  inr, ◌⊎◌, if◌then◌else◌,
}
use p2p_llm_tunnel.Protocol.{Bytes, MessageType, TunnelMessage}
use p2p_llm_tunnel.Protocol.Build.{res_headers, res_end}
use p2p_llm_tunnel.Protocol.Frame.{from_u8, get_u32, encode, decode}
use p2p_llm_tunnel.Channel.{bad_json}
use p2p_llm_tunnel.Channel.Emits.{Emits}
use p2p_llm_tunnel.Http.{Fields, collect_headers}
use p2p_llm_tunnel.Http.Laws.{IsPiece, last_value, get-collect_headers}
use p2p_llm_tunnel.Serve.Url.{slash, trim_end_matches, is_empty, strip_prefix, build_upstream_url}
use p2p_llm_tunnel.Serve.UrlLaws.{build_upstream_url_lem, build_upstream_url_joins}
use p2p_llm_tunnel.Serve.Respond.{Chunk, bytes, handle_request, upstream_request}
use p2p_llm_tunnel.Serve.Stream.{body_of, body_frames, failure_frames, handle_request-Emits}
use p2p_llm_tunnel.Serve.Run.{Input, message, serve_loop}
use p2p_llm_tunnel.Serve.Keyed.{IsKeyed}
use p2p_llm_tunnel.Serve.Assembly.{begin, add, finish, parts_of, slot, assemble_all}
use p2p_llm_tunnel.Serve.Requests.{IsHarmless, serve_loop-slot, serve_loop_bad_json}
use p2p_llm_tunnel.Examples.{models, test_serde, deaf_serde, echo, idle_server}

abbrev base : Bytes
base = codes "http://localhost:3001"

-- A prefix that ends within a segment.
joined_url :
    build_upstream_url base (codes "/v1") (codes "/v1beta") ≡ codes "http://localhost:3001beta"
unfolding build_upstream_url trim_end_matches is_empty strip_prefix bytes_eqb
joined_url = refl

prefix_stays : trim_end_matches (codes "/v1/") slash ≢ []
unfolding trim_end_matches is_empty
prefix_stays e = cc

build_upstream_url_lem_example :
    ((rest : Bytes) × (codes "/v1/models" ≡ codes "/v1" ++ rest)
      × (codes "/v1" ≢ [])
      × (build_upstream_url base (codes "/v1/") (codes "/v1/models")
          ≡ codes "http://localhost:3001" ++ (if is_empty rest then slash ∷ [] else rest)))
    ⊎ (((codes "/v1" ≡ []) ⊎ ((rest : Bytes) → codes "/v1/models" ≢ codes "/v1" ++ rest))
        × (build_upstream_url base (codes "/v1/") (codes "/v1/models")
            ≡ codes "http://localhost:3001" ++ codes "/v1/models"))
unfolding trim_end_matches is_empty
build_upstream_url_lem_example = build_upstream_url_lem base (codes "/v1/") (codes "/v1/models")

build_upstream_url_joins_example :
    (tail : Bytes) × (build_upstream_url base (codes "/v1/") (codes "/v1/models")
      ≡ codes "http://localhost:3001" ++ slash ∷ tail)
unfolding trim_end_matches is_empty
build_upstream_url_joins_example =
    (build_upstream_url_joins base (codes "/v1/") (codes "/models") prefix_stays).1
      (inr (codes "models", refl))

abbrev cookies : Fields
cookies = (codes "set-cookie", some (codes "a=1")) ∷ (codes "set-cookie", some (codes "b=2")) ∷ []

get-collect_headers_example :
    get (collect_headers [] cookies) (codes "set-cookie") ≡ some (codes "b=2")
unfolding last_value bytes_eqb get
get-collect_headers_example = get-collect_headers [] cookies (codes "set-cookie")

abbrev echo_chunks : List Chunk
echo_chunks = bytes (codes "http://a/models") ∷ bytes (codes "ok") ∷ []

handle_request-Emits_example :
    (ps : List Bytes) × Emits
      (handle_request test_serde echo (codes "http://a") (codes "/") models [])
      (encode (res_headers test_serde (record { stream_id = 1; status = 200; headers = [] }))
          ∷ (body_frames 1 ps ++ failure_frames 1 echo_chunks)
        ++ encode (res_end 1) ∷ [])
    × (concat ps ≡ body_of echo_chunks)
    × All IsPiece ps
unfolding collect_headers upstream_request build_upstream_url trim_end_matches is_empty strip_prefix
    bytes_eqb
handle_request-Emits_example =
    handle_request-Emits test_serde echo (codes "http://a") (codes "/") models [] (codes "GET") 200
      [] echo_chunks refl refl

-- Headers, a piece, a frame that does not decode, a piece of another stream, a piece, the end.
abbrev arrivals : List Input
arrivals =
    message (10 ∷ 0 ∷ 0 ∷ 0 ∷ 1 ∷ codes "{}")
    ∷ message (11 ∷ 0 ∷ 0 ∷ 0 ∷ 1 ∷ codes "he")
    ∷ message (1 ∷ 2 ∷ [])
    ∷ message (11 ∷ 0 ∷ 0 ∷ 0 ∷ 2 ∷ codes "no")
    ∷ message (11 ∷ 0 ∷ 0 ∷ 0 ∷ 1 ∷ codes "y")
    ∷ message (12 ∷ 0 ∷ 0 ∷ 0 ∷ 1 ∷ [])
    ∷ []

arrivals_parts :
    parts_of test_serde 1 arrivals ≡ begin models ∷ add (codes "he") ∷ add (codes "y") ∷ finish ∷ []
unfolding parts_of decode from_u8 get_u32
arrivals_parts = refl

parses_all : (b : Bytes) → IsHarmless test_serde (message b)
parses_all b m d t e = cc

arrivals-IsHarmless : All (IsHarmless test_serde) arrivals
arrivals-IsHarmless = (
  parses_all _,
  (parses_all _, (parses_all _, (parses_all _, (parses_all _, (parses_all _, tt))))),
)

idle-IsKeyed : IsKeyed idle_server
unfolding get
idle-IsKeyed = record { keyed = λ k e. cc }

serve_loop-slot_example :
    slot 1 (serve_loop test_serde arrivals idle_server).0
    ≡ assemble_all (parts_of test_serde 1 arrivals) (slot 1 idle_server)
serve_loop-slot_example =
    (serve_loop-slot test_serde 1 arrivals idle_server idle-IsKeyed arrivals-IsHarmless).1

abbrev malformed : TunnelMessage
malformed = record { msg_type = MessageType.req_headers; stream_id = 1; payload = codes "!" }

serve_loop_bad_json_example :
    serve_loop deaf_serde (message (10 ∷ 0 ∷ 0 ∷ 0 ∷ 1 ∷ codes "!") ∷ arrivals) idle_server
    ≡ (idle_server, some bad_json)
unfolding serve_loop decode from_u8 get_u32
serve_loop_bad_json_example =
    serve_loop_bad_json deaf_serde [] (10 ∷ 0 ∷ 0 ∷ 0 ∷ 1 ∷ codes "!") malformed arrivals
      idle_server tt refl refl refl
