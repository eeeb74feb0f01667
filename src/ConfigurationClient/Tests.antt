-- ===== src/ConfigurationClient/Tests.antt =====
-- Runs of the configuration client, and the theorems about it at concrete inputs.
use trading_ecosystem_exchan.Common.{
  ◌+◌, ◌*◌, ◌%◌, ◌^◌, ◌≡◌, ◌⊎◌, refl, String, true, Option, none, some, List, [], ◌∷◌, ok, err,
  arith, ticking, second, length,
}
use trading_ecosystem_exchan.Common.Assoc.{lookup, insert, delete}
use trading_ecosystem_exchan.Common.Int.{pos}
use trading_ecosystem_exchan.Common.Json.Interface.{to_interface, last_member}
use trading_ecosystem_exchan.Common.Json.{
  Json, null, bool, num, str, arr, obj, nil, cons, end, member, find_member, to_list,
}
use trading_ecosystem_exchan.Common.Json.Marks.{marks, count_marks, print_marks}
use trading_ecosystem_exchan.Config.Sample.{cfg}
use trading_ecosystem_exchan.ConfigurationClient.Types.{
  ConfigurationValue, json, garbage, Response, Request, Network, new_configuration_client,
  new_session, returned_status, Session,
}
use trading_ecosystem_exchan.ConfigurationClient.Methods.{
  expired, settle, get_configuration, set_configuration, read_response, to_response, is_healthy,
}
use trading_ecosystem_exchan.ConfigurationClient.Caching.{
  read_request, get_configuration-err, get-get, set-get, stored, refresh_time, refresh-lost,
}
use trading_ecosystem_exchan.ConfigurationClient.Counting.{
  Call, gets, sets, run, step, run-counters, run-is_healthy,
}
use trading_ecosystem_exchan.ConfigurationClient.Provenance.{GaveIn, run-get-GaveIn}

abbrev fee_json : Json
fee_json = obj (
    member "key" (str "fee")
      (member "value" (num (pos 7)) (member "environment" (str "production") end)))

abbrev fee : ConfigurationValue
fee = record {
  key = "fee";
  value = num (pos 7);
  environment = "production";
  service = "";
  updated_at = 0;
}

abbrev found : Response
found = record {
  status = 200;
  body = json (obj (member "success" (bool true) (member "data" (arr (cons fee_json nil)) end)));
}

-- A service that answers the first three requests, and then cannot be reached.
abbrev answers : List Request → Option Response
answers (_ ∷ _ ∷ _ ∷ _ ∷ _) = none
answers _ = some found

abbrev network : Network
network = record { accepts_url = λ _. true; answer = answers; sent = [] }

abbrev start : Session
start = new_session cfg (ticking 100 1) network

methods : Unit {0}
unfolding get_configuration set_configuration read_response to_response find_member to_list lookup
    insert delete new_configuration_client run step is_healthy count_marks print_marks
methods = tt

-- A value above 2^53 is rounded to a float64, and a later null counts.
rounded :
    (to_interface (num (pos 9_007_199_254_740_993)) ≡ some (num (pos 9_007_199_254_740_992)))
    × (to_interface (num (pos (2 ^ 1024))) ≡ none)
    × (last_member "value" (member "value" (bool true) (member "value" null end)) ≡ null)
unfolding to_interface
rounded = (refl, refl, refl)

first_read :
    ((get_configuration marks "fee" start).0 ≡ ok fee)
    × (length (get_configuration marks "fee" start).1.network.sent ≡ 1)
unfolding methods
first_read = (refl, refl)

abbrev after_read : Session
after_read = (get_configuration marks "fee" start).1

-- A service that answers 404.
abbrev refusing : Session
refusing =
    new_session cfg (ticking 100 1)
      (record network { answer = λ _. some (record { status = 404; body = garbage }) })

refused : (get_configuration marks "fee" refusing).0 ≡ err (returned_status 404)
unfolding methods
refused = refl

written : (set_configuration marks "fee" (some (num (pos 8))) "production" after_read).0 ≡ ok tt
unfolding methods
written = refl

abbrev history : List Call
history =
    gets "fee"
    ∷ gets "fee"
    ∷ sets "fee" (some (num (pos 8))) "production"
    ∷ gets "fee"
    ∷ sets "fee" none "production"
    ∷ []

history_counters :
    ((run marks start history).metrics.cache_hits ≡ 1)
    × ((run marks start history).metrics.cache_misses ≡ 2)
    × ((run marks start history).metrics.request_count ≡ 5)
unfolding methods
history_counters = (refl, refl, refl)

get_configuration-err_example :
    let found = lookup "fee" (get_configuration marks "fee" refusing).1.cache in
    (found ≡ lookup "fee" refusing.cache) ⊎ ((◌≡◌ {A = String} "fee" "fee") × (found ≡ none))
get_configuration-err_example =
    get_configuration-err marks "fee" refusing (returned_status 404) refused "fee"

get-get_example :
    ((get_configuration marks "fee" after_read).0 ≡ ok fee)
    × ((get_configuration marks "fee" after_read).1.network ≡ after_read.network)
unfolding methods
get-get_example = get-get marks "fee" start fee refl refl (omega arith)

abbrev after_write : Session
after_write = (set_configuration marks "fee" (some (num (pos 8))) "production" after_read).1

set-get_example :
    (get_configuration marks "fee" after_write).1.network.sent
    ≡ read_request after_write "fee" ∷ after_write.network.sent
unfolding methods
set-get_example = set-get marks "fee" "production" (some (num (pos 8))) after_read refl refl

-- the clock has gone on for an hour
abbrev aged : Session
aged = record after_read { clock = ticking (3_600 * second) 1 }

abbrev refreshed : Session
refreshed = (get_configuration marks "fee" aged).1

abbrev emptied : Session
emptied = (settle "fee" expired refreshed).1

refresh-lost_example :
    (lookup "fee" refreshed.cache ≡ some (stored aged fee (refresh_time aged)))
    × (lookup "fee" emptied.cache ≡ none)
    × ((get_configuration marks "fee" emptied).1.network.sent
        ≡ read_request refreshed "fee" ∷ refreshed.network.sent)
unfolding methods
refresh-lost_example =
    refresh-lost marks "fee" aged (record { value = fee; expires_at = 101 + 300 * second }) fee refl
      (omega arith) refl refl

run-counters_example :
    let m = (run marks start history).metrics in
    (m.request_count ≡ 5) × ((m.cache_hits + m.cache_misses) % 2 ^ 64 ≡ 3)
run-counters_example = run-counters marks cfg (ticking 100 1) network history

run-is_healthy_example : is_healthy (run marks start history) ≡ true
unfolding methods
run-is_healthy_example = run-is_healthy marks cfg (ticking 100 1) network history refl

run-get-GaveIn_example :
    GaveIn marks (get_configuration marks "fee" (run marks start history)).1 "fee" fee
unfolding methods
run-get-GaveIn_example = run-get-GaveIn marks cfg (ticking 100 1) network history "fee" fee refl
