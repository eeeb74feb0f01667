-- ===== src/Main/Shutdown.antt =====
-- What holds of the process at each of its phases.
use trading_ecosystem_exchan.Common.{
  ◌≡◌, ◌⊎◌, ◌∙◌, inl, inr, refl, ap, String, Bool, true, false, Option, none, some, Result, ok,
  arith,
}
use mathlib.Core.Path.{subst}
use trading_ecosystem_exchan.Common.Int.{ℤ}
use trading_ecosystem_exchan.Config.DataAdapter.{DataAdapters, Documented}
use trading_ecosystem_exchan.Config.Connecting.{
  Held, AllClosed, initialize-Held, disconnect-AllClosed,
}
use trading_ecosystem_exchan.Main.Process.{
  server_closed, failed, Phase, waiting, disconnecting, closing_http, closing_grpc, complete,
  exited, Process, launch, grpc_ends, http_ends, signalled, disconnects, closes_http, closes_grpc,
  start_grpc_server, serve_grpc,
}

-- the process has not ended
abbrev pub is_alive : Phase → Bool
is_alive complete = false
is_alive exited = false
is_alive _ = true

-- `Shutdown` of the HTTP server, or `GracefulStop` of the gRPC server, has been called and the process
-- has not ended
abbrev pub is_closing_http : Phase → Bool
is_closing_http closing_grpc = true
is_closing_http closing_http = true
is_closing_http _ = false

abbrev pub is_closing_grpc : Phase → Bool
is_closing_grpc closing_grpc = true
is_closing_grpc _ = false

-- A goroutine that serves ends with an error at any time, and without one only while its server is
-- shut down.
pub data Step {l : DataAdapters} (s : Process l) : Process l → Type 0 where
  gets_signal : s.phase ≡ waiting → Step s (signalled s)
  disconnects_adapter : s.phase ≡ disconnecting → Step s (disconnects s)
  shuts_http : s.phase ≡ closing_http → Step s (closes_http s)
  shuts_grpc : s.phase ≡ closing_grpc → Step s (closes_grpc s)
  grpc_fails :
      is_alive s.phase ≡ true
      → s.grpc_serving ≡ true
      → (x : l.Fault) → Step s (grpc_ends (some x) s)
  grpc_stops : is_closing_grpc s.phase ≡ true → s.grpc_serving ≡ true → Step s (grpc_ends none s)
  http_fails :
      is_alive s.phase ≡ true
      → s.http_serving ≡ true
      → (x : l.Fault) → Step s (http_ends (failed x) s)
  http_stops :
      is_closing_http s.phase ≡ true → s.http_serving ≡ true → Step s (http_ends server_closed s)

pub data Reach {l : DataAdapters} (s : Process l) : Process l → Type 0 where
  here : Reach s s
  later : {t u : Process l} → Reach s t → Step t u → Reach s u

module _ {l : DataAdapters} (d : Documented l) where
  -- The data adapter is as `InitializeDataAdapter` left it: connected, if there is one.
  abbrev pub Untouched : Process l → Type 0
  Untouched s = (s.disconnected ≡ none) × Held d s.holder

  -- `DisconnectDataAdapter` was called, and no adapter is connected if it succeeded.
  abbrev pub Released : Process l → Type 0
  Released s =
      (r : Result l.Fault (Unit {0})) × (s.disconnected ≡ some r)
      × (r ≡ ok tt → AllClosed d s.holder.world)

  abbrev pub Serving : Process l → Type 0
  Serving s = (s.grpc_serving ≡ true) × (s.http_serving ≡ true)

  abbrev pub Orderly : Phase → Process l → Type 0
  Orderly waiting s = Untouched s × Serving s
  Orderly disconnecting s = Untouched s × Serving s
  Orderly closing_http s = Released s
  Orderly closing_grpc s = Released s
  Orderly complete s = Released s
  Orderly exited s =
      (Untouched s ⊎ Released s) × ((s.grpc_serving ≡ false) ⊎ (s.http_serving ≡ false))

  -- The adapter, whatever the phase.
  fate : (ph : Phase) (s : Process l) → Orderly ph s → Untouched s ⊎ Released s
  fate waiting s h = inl h.0
  fate disconnecting s h = inl h.0
  fate closing_http s h = inr h
  fate closing_grpc s h = inr h
  fate complete s h = inr h
  fate exited s h = h.0

  at-phase : (ph : Phase) (s : Process l) → s.phase ≡ ph → Orderly s.phase s → Orderly ph s
  at-phase ph s e h = subst (λ q. Orderly q s) e h

  disconnects-Released : (s : Process l) → Held d s.holder → Released (disconnects s)
  unfolding disconnects
  disconnects-Released s held = (_, refl, disconnect-AllClosed d s.holder held)

  grpc_stops-Orderly :
      (ph : Phase) (s : Process l)
      → is_closing_grpc ph ≡ true
      → Orderly ph s
      → Orderly ph (grpc_ends none s)
  unfolding grpc_ends
  grpc_stops-Orderly closing_grpc s c h = h
  grpc_stops-Orderly _ s c h = cc

  http_stops-Orderly :
      (ph : Phase) (s : Process l)
      → is_closing_http ph ≡ true
      → Orderly ph s
      → Orderly ph (http_ends server_closed s)
  unfolding http_ends
  http_stops-Orderly closing_grpc s c h = h
  http_stops-Orderly closing_http s c h = h
  http_stops-Orderly _ s c h = cc

  Step-Orderly : {s t : Process l} → Step s t → Orderly s.phase s → Orderly t.phase t
  unfolding signalled closes_http closes_grpc grpc_ends http_ends disconnects
  Step-Orderly {s} (gets_signal e) h = at-phase waiting s e h
  Step-Orderly {s} (disconnects_adapter e) h =
      let before = at-phase disconnecting s e h in disconnects-Released s before.0.1
  Step-Orderly {s} (shuts_http e) h = at-phase closing_http s e h
  Step-Orderly {s} (shuts_grpc e) h = at-phase closing_grpc s e h
  Step-Orderly {s} (grpc_fails alive serves x) h = (fate s.phase s h, inl refl)
  Step-Orderly {s} (grpc_stops closing serves) h = grpc_stops-Orderly s.phase s closing h
  Step-Orderly {s} (http_fails alive serves x) h = (fate s.phase s h, inr refl)
  Step-Orderly {s} (http_stops closing serves) h = http_stops-Orderly s.phase s closing h

  Reach-Orderly : {s t : Process l} → Reach s t → Orderly s.phase s → Orderly t.phase t
  Reach-Orderly here h = h
  Reach-Orderly (later r st) h = Step-Orderly st (Reach-Orderly r h)

  -- If no data adapter is connected when the process starts: as long as it waits for a signal, and up
  -- to the call of `DisconnectDataAdapter`, both servers serve, and the data adapter is connected that
  -- was taken, if one was, and no other. At the calls that shut the servers down, and at the end of
  -- `main`, `DisconnectDataAdapter` has been called, and no adapter is connected if it succeeded. If
  -- the process has exited by `log.Fatal`, a server has ended, and the adapter may be either way.
  pub launch-Orderly :
      (w : l.State) {t : Process l} → AllClosed d w → Reach (launch w) t → Orderly t.phase t
  unfolding launch
  launch-Orderly w closed r = Reach-Orderly r ((refl, initialize-Held d w closed), (refl, refl))

  before-Untouched :
      (s : Process l)
      → (s.phase ≡ waiting) ⊎ (s.phase ≡ disconnecting)
      → Orderly s.phase s
      → Untouched s
  before-Untouched s (inl e) h = (at-phase waiting s e h).0
  before-Untouched s (inr e) h = (at-phase disconnecting s e h).0

  -- Nothing happens in a process that has exited.
  exited-final : {s t : Process l} → s.phase ≡ exited → Step s t → ⊥
  exited-final {s} e (gets_signal p) = cc
  exited-final {s} e (disconnects_adapter p) = cc
  exited-final {s} e (shuts_http p) = cc
  exited-final {s} e (shuts_grpc p) = cc
  exited-final {s} e (grpc_fails p _ x) = ground (arith, ap is_alive e)
  exited-final {s} e (grpc_stops p _) = ground (arith, ap is_closing_grpc e)
  exited-final {s} e (http_fails p _ x) = ground (arith, ap is_alive e)
  exited-final {s} e (http_stops p _) = ground (arith, ap is_closing_http e)

  exited-stays : {s t : Process l} → s.phase ≡ exited → Reach s t → t ≡ s
  exited-stays e here = refl
  exited-stays e (later r st) =
      let same = exited-stays e r in absurd (exited-final (ap (λ u. u.phase) same ∙ e) st)

  -- If no data adapter is connected when the process starts, and the gRPC server cannot listen on its
  -- port, or fails in `Serve`, while the process waits for a signal, or before `DisconnectDataAdapter`
  -- is called, then the process exits: the data adapter that was taken, if one was, is still connected
  -- in the only state that can be reached from there.
  pub serve_grpc-Held :
      {Listener : Type 0} (net_listen : String → Result l.Fault Listener)
      (serve : Listener → Option l.Fault) (port : ℤ) (w : l.State) (x : l.Fault) {s t : Process l}
      → AllClosed d w
      → Reach (launch w) s
      → (s.phase ≡ waiting) ⊎ (s.phase ≡ disconnecting)
      → start_grpc_server net_listen serve port ≡ some x
      → Reach (serve_grpc net_listen serve port s) t
      → (t.phase ≡ exited) × Held d t.holder × (t.holder ≡ s.holder)
  unfolding serve_grpc grpc_ends
  serve_grpc-Held net_listen serve port w x {s} {t} closed r early fails after =
      let gone : (serve_grpc net_listen serve port s ≡ grpc_ends (some x) s) =
        ap (λ o. grpc_ends o s) fails in
      let same : t ≡ grpc_ends (some x) s = exited-stays (ap (λ u. u.phase) gone) after ∙ gone in
      let untouched = before-Untouched s early (launch-Orderly w closed r) in
      rw same (refl, untouched.1, refl)
