-- ===== src/ConfigurationClient/Types.antt =====
-- The client's data, and the service that it talks to.
use Prim.Native.String.{◌++◌}
use trading_ecosystem_exchan.Common.{
  ℕ, ◌*◌, String, Bool, true, false, Option, List, [], Clock, second,
}
use trading_ecosystem_exchan.Common.Assoc.{Map}
use trading_ecosystem_exchan.Common.Json.{Json}
use trading_ecosystem_exchan.Config.{Config}

pub record ConfigurationValue : Type 0 where
  pub key : String
  pub value : Json
  pub environment : String
  pub service : String
  pub updated_at : ℕ

pub record ConfigurationResponse : Type 0 where
  pub success : Bool
  pub values : List ConfigurationValue
  pub error : String

pub record ConfigurationClientMetrics : Type 0 where
  pub request_count : ℕ
  pub cache_hits : ℕ
  pub cache_misses : ℕ
  pub last_request_time : ℕ
  pub last_cache_update : ℕ
  pub is_connected : Bool
  pub response_time_ms : ℕ

pub record CacheEntry : Type 0 where
  pub value : ConfigurationValue
  pub expires_at : ℕ

pub record ConfigurationClient : Type 0 where
  pub config : Config
  pub base_url : String
  pub cache : Map CacheEntry
  pub cache_ttl : ℕ
  pub metrics : ConfigurationClientMetrics
  pub is_initialized : Bool

-- `NewConfigurationClient`
unfoldable pub new_configuration_client : Config → ConfigurationClient
new_configuration_client cfg = record {
  config = cfg;
  base_url = "http://configuration-service:8080";
  cache = [];
  cache_ttl = 300 * second;
  metrics = record {
    request_count = 0;
    cache_hits = 0;
    cache_misses = 0;
    last_request_time = 0;
    last_cache_update = 0;
    is_connected = false;
    response_time_ms = 0;
  };
  is_initialized = true;
}

-- The body of an answer: a read error, bytes that are no JSON text, or a JSON value.
pub data Body : Type 0 where
  unreadable garbage : Body
  json : Json → Body

pub record Response : Type 0 where
  pub status : ℕ
  pub body : Body

pub data Method : Type 0 where
  get : Method
  post : Json → Method

-- `Content-Type` is always `application/json`.
pub record Request : Type 0 where
  pub method : Method
  pub url : String
  pub x_service_name : String

-- The network: which URLs `http.NewRequestWithContext` accepts, and what `httpClient.Do` gives for
-- the newest of the requests sent so far (none for a transport error). A cancelled context and the
-- client's time limit are transport errors.
pub record Network : Type 0 where
  pub accepts_url : String → Bool
  pub answer : List Request → Option Response
  pub sent : List Request

pub data Error : Type 0 where
  create_request fetch_configuration read_body parse_response : Error
  marshal set_configuration_failed : Error
  returned_status : ℕ → Error
  service_error key_not_found : String → Error

-- The client with its surroundings: the state of every method.
pub record Session : Type 0 where
  pub client : ConfigurationClient
  pub open client use *
  pub clock : Clock
  pub network : Network

-- A new client in its surroundings.
abbrev pub new_session : Config → Clock → Network → Session
new_session cfg clock network = record {
  client = new_configuration_client cfg;
  clock = clock;
  network = network;
}

abbrev pub value_url : String → String → String
value_url base key = base ++ "/api/v1/configuration/" ++ key

abbrev pub set_url : String → String
set_url base = base ++ "/api/v1/configuration"
