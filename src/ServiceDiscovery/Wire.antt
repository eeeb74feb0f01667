-- ===== src/ServiceDiscovery/Wire.antt =====
-- A service's entry in Redis: its key, its JSON value, and the pattern by which it is found.
use Prim.Native.String.{◌++◌}
use text.Mathlib.TextLemmas.{append_assoc}
use trading_ecosystem_exchan.Common.{
  ◌≡◌, ◌≢◌, refl, String, true, Option, none, some, List, [], ◌∷◌, ne→==, if◌then◌else◌, ◌==◌,
}
use trading_ecosystem_exchan.Common.Assoc.{Map}
use trading_ecosystem_exchan.Common.Int.{itoa, fits_int64}
use trading_ecosystem_exchan.Common.Json.{
  Json, null, str, num, obj, member, end, Members, find_member, to_string, to_int, to_time,
  to_text_map, of_text_map, TimeFormat,
}
use trading_ecosystem_exchan.ServiceDiscovery.Types.{ServiceInfo, discovery_key_pattern}

infixl 5 ◌>>=?◌
abbrev ◌>>=?◌ {ℓ κ} : {A : Type ℓ} {B : Type κ} → Option A → (A → Option B) → Option B
none >>=? f = none
some a >>=? f = f a

-- `json.Marshal(s.serviceInfo)`
unfoldable pub of_info : TimeFormat → ServiceInfo → Json
of_info f i = obj (
    member "service_name" (str i.service_name) (
      member "host" (str i.host) (
        member "grpc_port" (num i.grpc_port) (
          member "http_port" (num i.http_port) (
            member "version" (str i.version) (
              member "environment" (str i.environment) (
                member "status" (str i.status) (
                  member "last_seen" (str (f.print i.last_seen))
                    (member "metadata" (obj (of_text_map i.metadata)) end)))))))))

abbrev to_metadata : Json → Option (List (String × String))
to_metadata null = some []
to_metadata (obj ms) = to_text_map ms
to_metadata _ = none

abbrev to_info_members : TimeFormat → Members → Option ServiceInfo
to_info_members f ms = to_string (find_member "service_name" ms) >>=? λ n.
    to_string (find_member "host" ms) >>=? λ h. to_int (find_member "grpc_port" ms) >>=? λ g.
    to_int (find_member "http_port" ms) >>=? λ p. to_string (find_member "version" ms) >>=? λ v.
    to_string (find_member "environment" ms) >>=? λ e.
    to_string (find_member "status" ms) >>=? λ st. to_time f (find_member "last_seen" ms) >>=? λ t.
    to_metadata (find_member "metadata" ms) >>=? λ m. some (record {
      service_name = n;
      host = h;
      grpc_port = g;
      http_port = p;
      version = v;
      environment = e;
      status = st;
      last_seen = t;
      metadata = m;
    })

-- `json.Unmarshal` into a `ServiceInfo`
unfoldable pub to_info : TimeFormat → Json → Option ServiceInfo
to_info f null = to_info_members f end
to_info f (obj ms) = to_info_members f ms
to_info f _ = none

unfoldable pub service_key : ServiceInfo → String
service_key i = "services:" ++ i.service_name ++ ":" ++ i.host ++ ":" ++ itoa i.grpc_port

unfoldable pub discovery_pattern : String → String
discovery_pattern name = if name == "" then discovery_key_pattern else "services:" ++ name ++ ":*"

unfoldable pub endpoint_of : ServiceInfo → String
endpoint_of i = i.host ++ ":" ++ itoa i.grpc_port

of_text_map-to_text_map : (m : Map String) → to_text_map (of_text_map m) ≡ some m
unfolding to_text_map of_text_map
of_text_map-to_text_map [] = refl
of_text_map-to_text_map ((k, v) ∷ m) = rw (of_text_map-to_text_map m)

-- A registered entry is read back as it was written, if both ports are 64-bit integers.
pub to_info-of_info :
    (f : TimeFormat) (i : ServiceInfo)
    → fits_int64 i.grpc_port ≡ true
    → fits_int64 i.http_port ≡ true
    → to_info f (of_info f i) ≡ some i
unfolding to_info of_info find_member
to_info-of_info f i g p = rw (g, p, f.parse-print, of_text_map-to_text_map)

-- The key of a service is what its pattern has before the star, and the rest of the address.
pub service_key-under_pattern :
    (i : ServiceInfo)
    → service_key i ≡ ("services:" ++ i.service_name ++ ":") ++ (i.host ++ ":" ++ itoa i.grpc_port)
unfolding service_key
service_key-under_pattern i = simp append_assoc

pub discovery_pattern-star :
    (name : String) → name ≢ "" → discovery_pattern name ≡ ("services:" ++ name ++ ":") ++ "*"
unfolding discovery_pattern
discovery_pattern-star name h = rw (ne→== name "" h) (simp append_assoc)
