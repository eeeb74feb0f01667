-- ===== src/Main/Tests.antt =====
-- Data adapters that are numbers, and the theorems at concrete inputs.
use native.Mathlib.Decide.{ℕ_discrete}
use trading_ecosystem_exchan.Common.{
  ℕ, ◌+◌, ◌≡◌, ◌≢◌, refl, inl, String, Bool, true, false, ◌&&◌, none, some, Result, ok, err, arith,
  ltb, eqb, if◌then◌else◌,
}
use trading_ecosystem_exchan.Common.Int.{pos, itoa}
use trading_ecosystem_exchan.Config.DataAdapter.{
  DataAdapters, Documented, Holder, initialize_data_adapter, disconnect_data_adapter,
  get_data_adapter,
}
use trading_ecosystem_exchan.Config.Connecting.{Held, AllClosed, initialize-again}
use trading_ecosystem_exchan.Main.Process.{
  Process, exited, waiting, launch, signalled, disconnects, closes_http, closes_grpc,
  start_grpc_server, serve_grpc,
}
use trading_ecosystem_exchan.Main.Shutdown.{
  Reach, here, later, gets_signal, disconnects_adapter, shuts_http, shuts_grpc, Orderly,
  launch-Orderly, serve_grpc-Held,
}

-- The adapters below `next` were made.
record Adapters : Type 0 where
  next : ℕ
  is_open : ℕ → Bool

abbrev setting : ℕ → Bool → Adapters → Adapters
setting a b w = record w { is_open = λ c. if eqb c a then b else w.is_open c }

abbrev connect : ℕ → Adapters → Result (Unit {0}) (Unit {0}) × Adapters
connect a w = if ltb a w.next then (ok tt, setting a true w) else (err tt, w)

abbrev numbered : DataAdapters
numbered = record {
  State = Adapters;
  DataAdapter = ℕ;
  Fault = Unit {0};
  new_from_env = λ w. (
    ok w.next,
    record { next = w.next + 1; is_open = λ c. if eqb c w.next then false else w.is_open c },
  );
  connect = connect;
  disconnect = λ a w. (ok tt, setting a false w);
}

abbrev is_connected : Adapters → ℕ → Bool
is_connected w a = w.is_open a && ltb a w.next

new-fresh : (w : Adapters) (a : ℕ) → (numbered.new_from_env w).0 ≡ ok a → is_connected w a ≡ false
new-fresh w a e = ground arith

new-others : (w : Adapters) (b : ℕ) → is_connected (numbered.new_from_env w).1 b ≡ is_connected w b
new-others w b = ground arith

connect-ok :
    (w : Adapters) (a : ℕ) → (connect a w).0 ≡ ok tt → is_connected (connect a w).1 a ≡ true
connect-ok w a e = ground arith

connect-err :
    (w : Adapters) (a : ℕ) (x : Unit {0})
    → (connect a w).0 ≡ err x
    → is_connected (connect a w).1 a ≡ false
connect-err w a x e = ground arith

connect-others :
    (w : Adapters) (a b : ℕ) → b ≢ a → is_connected (connect a w).1 b ≡ is_connected w b
connect-others w a b h = ground arith

disconnect-ok : (w : Adapters) (a : ℕ) → is_connected (setting a false w) a ≡ false
disconnect-ok w a = ground arith

disconnect-others :
    (w : Adapters) (a b : ℕ) → b ≢ a → is_connected (setting a false w) b ≡ is_connected w b
disconnect-others w a b h = ground arith

abbrev numbered_documented : Documented numbered
numbered_documented = record {
  discrete = ℕ_discrete;
  connected = is_connected;
  new-fresh = new-fresh;
  new-others = new-others;
  connect-ok = connect-ok;
  connect-err = connect-err;
  connect-others = connect-others;
  disconnect-ok = λ w a e. disconnect-ok w a;
  disconnect-others = disconnect-others;
}

abbrev no_adapters : Adapters
no_adapters = record { next = 0; is_open = λ c. false }

no_adapters-AllClosed : AllClosed numbered_documented no_adapters
no_adapters-AllClosed b = ground arith

steps : Unit {0}
unfolding initialize_data_adapter disconnect_data_adapter get_data_adapter launch signalled
    disconnects closes_http closes_grpc start_grpc_server serve_grpc itoa
steps = tt

abbrev launched : Process numbered
launched = launch no_adapters

abbrev ended : Process numbered
ended = closes_grpc (closes_http (disconnects (signalled launched)))

is_waiting : launched.phase ≡ waiting
unfolding steps
is_waiting = refl

shutdown : Reach launched ended
unfolding signalled disconnects closes_http
shutdown =
    later
      (later (later (later here (gets_signal is_waiting)) (disconnects_adapter refl))
        (shuts_http refl))
      (shuts_grpc refl)

adapter_closed : is_connected ended.holder.world 0 ≡ false
unfolding steps
adapter_closed = refl

launch-Orderly_example : Orderly numbered_documented ended.phase ended
launch-Orderly_example =
    launch-Orderly numbered_documented no_adapters no_adapters-AllClosed shutdown

-- a port that is taken
abbrev no_port : String → Result (Unit {0}) String
no_port a = err tt

port_taken : start_grpc_server no_port (λ a. none) (pos 50051) ≡ some tt
unfolding steps
port_taken = refl

serve_grpc-Held_example :
    let t = serve_grpc no_port (λ a. none) (pos 50051) launched in
    (t.phase ≡ exited) × Held numbered_documented t.holder × (t.holder ≡ launched.holder)
serve_grpc-Held_example =
    serve_grpc-Held numbered_documented no_port (λ a. none) (pos 50051) no_adapters tt
      no_adapters-AllClosed here (inl is_waiting) port_taken here

abbrev held : Holder numbered
held =
    (initialize_data_adapter {l = numbered} (record { data_adapter = none; world = no_adapters })).1

holds_first : held.data_adapter ≡ some 0
unfolding steps
holds_first = refl

first_connected : is_connected held.world 0 ≡ true
unfolding steps
first_connected = refl

initializes_again : (initialize_data_adapter held).0 ≡ ok tt
unfolding steps
initializes_again = refl

initialize-again_example :
    let t = (initialize_data_adapter held).1 in
    (get_data_adapter t ≢ some 0) × (is_connected (disconnect_data_adapter t).1.world 0 ≡ true)
initialize-again_example =
    initialize-again numbered_documented held 0 holds_first first_connected initializes_again
