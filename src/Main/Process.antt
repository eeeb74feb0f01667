-- ===== src/Main/Process.antt =====
-- `main` as the steps of its goroutines: the one that starts everything, waits for a signal and shuts
-- down, and the two that serve.
use Prim.Native.String.{◌++◌}
use trading_ecosystem_exchan.Common.{String, Bool, true, false, Option, none, some, Result, ok, err}
use trading_ecosystem_exchan.Common.Int.{ℤ, itoa}
use trading_ecosystem_exchan.Config.DataAdapter.{
  DataAdapters, Holder, initialize_data_adapter, disconnect_data_adapter,
}

-- `startGRPCServer`: `net_listen` is `net.Listen` at an address, and `serve` is `server.Serve`, which
-- ends with an error or with none.
unfoldable pub start_grpc_server :
    {Fault Listener : Type 0}
    → (String → Result Fault Listener)
    → (Listener → Option Fault)
    → ℤ
    → Option Fault
start_grpc_server net_listen serve port = elim (net_listen (":" ++ itoa port)) [
  | err x ↦ some x
  | ok lis ↦ serve lis
]

-- What `httpServer.ListenAndServe` ends with.
pub data HttpEnd (Fault : Type 0) : Type 0 where
  server_closed : HttpEnd Fault
  failed : Fault → HttpEnd Fault

-- Where the goroutine of `main` stands: at `<-quit`, at each of the three calls that shut down, or at
-- its end; or the process has exited with status 1.
pub data Phase : Type 0 where
  waiting disconnecting closing_http closing_grpc complete exited : Phase

-- Whether each of the other goroutines is yet to end its serving; `disconnected` is what
-- `DisconnectDataAdapter` returned, once it was called.
pub record Process (l : DataAdapters) : Type 0 where
  pub phase : Phase
  pub holder : Holder l
  pub grpc_serving : Bool
  pub http_serving : Bool
  pub disconnected : Option (Result l.Fault (Unit {0}))

module _ {l : DataAdapters} where
  -- `main` up to the wait. An error of `InitializeDataAdapter` is logged only.
  unfoldable pub launch : l.State → Process l
  launch w =
      let (_, h) = initialize_data_adapter (record { data_adapter = none; world = w }) in
      record {
        phase = waiting;
        holder = h;
        grpc_serving = true;
        http_serving = true;
        disconnected = none;
      }

  -- `log.Fatal` in a goroutine, which exits the process; without an error the goroutine ends
  unfoldable pub grpc_ends : Option l.Fault → Process l → Process l
  grpc_ends (some _) s = record s { grpc_serving = false; phase = exited }
  grpc_ends none s = record s { grpc_serving = false }

  -- the goroutine that serves gRPC
  unfoldable pub serve_grpc :
      {Listener : Type 0}
      → (String → Result l.Fault Listener)
      → (Listener → Option l.Fault)
      → ℤ
      → Process l
      → Process l
  unfolding grpc_ends
  serve_grpc net_listen serve port = grpc_ends (start_grpc_server net_listen serve port)

  unfoldable pub http_ends : HttpEnd l.Fault → Process l → Process l
  http_ends (failed _) s = record s { http_serving = false; phase = exited }
  http_ends server_closed s = record s { http_serving = false }

  unfoldable pub signalled : Process l → Process l
  signalled s = record s { phase = disconnecting }

  -- an error is logged only
  unfoldable pub disconnects : Process l → Process l
  disconnects s =
      let (r, h) = disconnect_data_adapter s.holder in
      record s { holder = h; disconnected = some r; phase = closing_http }

  unfoldable pub closes_http : Process l → Process l
  closes_http s = record s { phase = closing_grpc }

  unfoldable pub closes_grpc : Process l → Process l
  closes_grpc s = record s { phase = complete }
