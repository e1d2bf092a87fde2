-- ===== src/Examples.antt =====
-- Concrete data for the tests of the other modules: a codec that knows one message of each type, open
-- channels, one request and one response.
pub mod Serving
pub mod Proxying
pub mod Tasks
pub mod Refusing
pub mod Truncating
pub mod Exchanging
pub mod Setup
pub mod Meeting
pub mod Running
pub mod Rooms
pub mod Connecting
pub mod Starting
pub mod Waiting
use p2p_llm_tunnel.Prelude.{ℕ, List, [], ◌∷◌, Option, none, some, Bool, true, codes}
use p2p_llm_tunnel.Protocol.{
  Bytes, Serde, Hello, Agree, RequestHeaders, ResponseHeaders, protocol_name,
}
use p2p_llm_tunnel.Channel.{Channel}
use p2p_llm_tunnel.Serve.Respond.{HttpRequest, Chunk, bytes, Reply, response, refused, Client}
use p2p_llm_tunnel.Serve.Run.{Server, start}
use p2p_llm_tunnel.Proxy.Request.{Incoming, Proxy}
use p2p_llm_tunnel.Proxy.Router.{Router}
use p2p_llm_tunnel.Proxy.Answer.{HttpLibrary}

abbrev pub test_hello : Hello
test_hello = record {
  proto = protocol_name;
  min_version = 1;
  max_version = 1;
  features = codes "sse" ∷ [];
}

abbrev pub test_agree : Agree
test_agree = record { version = 1; features = codes "sse" ∷ [] }

abbrev pub models : RequestHeaders
models = record {
  stream_id = 1;
  method = codes "GET";
  path = codes "/models";
  headers = (codes "Host", codes "localhost") ∷ (codes "Accept", codes "*/*") ∷ [];
}

abbrev pub found : ResponseHeaders
found = record {
  stream_id = 1;
  status = 200;
  headers = (codes "Connection", codes "close") ∷ (codes "x-id", codes "7") ∷ [];
}

abbrev pub test_serde : Serde
test_serde = record {
  hello_to_vec = λ h. codes "{}";
  hello_from_slice = λ b. some test_hello;
  agree_to_vec = λ a. codes "{}";
  agree_from_slice = λ b. some test_agree;
  request_to_vec = λ h. codes "{}";
  request_from_slice = λ b. some models;
  response_to_vec = λ h. codes "{}";
  response_from_slice = λ b. some found;
}

-- A codec that parses nothing.
abbrev pub deaf_serde : Serde
deaf_serde = record test_serde { request_from_slice = λ b. none }

abbrev pub open_channel : Channel
open_channel = record { sent = []; outcomes = λ n. true; calls = 0 }

abbrev pub echo : Client
echo = record {
  parse_method = λ m. some m;
  execute = λ r. response 200 [] (bytes r.url ∷ bytes (codes "ok") ∷ []);
}

abbrev pub unreachable : Client
unreachable = record { parse_method = λ m. some m; execute = λ r. refused (codes "refused") }

abbrev pub idle_server : Server
idle_server = start true open_channel

abbrev pub get_models : Incoming
get_models = record {
  method = codes "GET";
  path_and_query = some (codes "/models");
  fields = [];
  collected = some (codes "hi");
}

abbrev pub ready_proxy : Proxy
ready_proxy = record {
  tunnel_ready = true;
  stream_counter = 1;
  pending = [];
  channel = open_channel;
}

-- Stream 1 is registered with channel 7.
abbrev pub one_stream : Router
one_stream = record { pending = (1, 7) ∷ []; delivered = []; channel = open_channel }

abbrev pub lenient : HttpLibrary
lenient = record { status_from_u16 = λ s. some s; is_header = λ k v. true }
