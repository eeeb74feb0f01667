-- ===== src/Config/DataAdapter.antt =====
-- internal/config/config.go, the data adapter of a `Config`.
use trading_ecosystem_exchan.Common.{
  ◌≡◌, ◌≢◌, Bool, true, false, Option, none, some, Result, ok, err,
}

-- What the program uses of the data adapter's library. The state is that of the adapters, and of the
-- stores that they connect to.
pub record DataAdapters : Type 1 where
  pub State : Type 0
  pub DataAdapter : Type 0
  pub Fault : Type 0
  -- `NewExchangeDataAdapterFromEnv`
  pub new_from_env : State → Result Fault DataAdapter × State
  pub connect : DataAdapter → State → Result Fault (Unit {0}) × State
  pub disconnect : DataAdapter → State → Result Fault (Unit {0}) × State

-- What the library documents: a new adapter is not connected, `Connect` and `Disconnect` that succeed
-- connect and disconnect the adapter, a `Connect` that fails leaves it unconnected, and none of them
-- touches another adapter.
pub record Documented (l : DataAdapters) : Type 0 where
  pub discrete : Discrete l.DataAdapter
  pub connected : l.State → l.DataAdapter → Bool
  pub new-fresh :
      (w : l.State) (a : l.DataAdapter) → (l.new_from_env w).0 ≡ ok a → connected w a ≡ false
  pub new-others :
      (w : l.State) (b : l.DataAdapter) → connected (l.new_from_env w).1 b ≡ connected w b
  pub connect-ok :
      (w : l.State) (a : l.DataAdapter)
      → (l.connect a w).0 ≡ ok tt
      → connected (l.connect a w).1 a ≡ true
  pub connect-err :
      (w : l.State) (a : l.DataAdapter) (x : l.Fault)
      → (l.connect a w).0 ≡ err x
      → connected (l.connect a w).1 a ≡ false
  pub connect-others :
      (w : l.State) (a b : l.DataAdapter) → b ≢ a → connected (l.connect a w).1 b ≡ connected w b
  pub disconnect-ok :
      (w : l.State) (a : l.DataAdapter)
      → (l.disconnect a w).0 ≡ ok tt
      → connected (l.disconnect a w).1 a ≡ false
  pub disconnect-others :
      (w : l.State) (a b : l.DataAdapter) → b ≢ a → connected (l.disconnect a w).1 b ≡ connected w b

-- The field `dataAdapter` of a `Config`, with the library's state.
pub record Holder (l : DataAdapters) : Type 0 where
  pub data_adapter : Option l.DataAdapter
  pub world : l.State

abbrev pub disconnect_held :
    (l : DataAdapters) → Option l.DataAdapter → l.State → Result l.Fault (Unit {0}) × l.State
disconnect_held l none w = (ok tt, w)
disconnect_held l (some a) w = l.disconnect a w

module _ {l : DataAdapters} where
  abbrev adopt :
      l.DataAdapter
      → Option l.DataAdapter
      → Result l.Fault (Unit {0}) × l.State
      → Result l.Fault (Unit {0}) × Holder l
  adopt a old (err x, w) = (err x, record { data_adapter = old; world = w })
  adopt a old (ok _, w) = (ok tt, record { data_adapter = some a; world = w })

  abbrev connect_new :
      Option l.DataAdapter
      → Result l.Fault l.DataAdapter × l.State
      → Result l.Fault (Unit {0}) × Holder l
  connect_new old (err x, w) = (err x, record { data_adapter = old; world = w })
  connect_new old (ok a, w) = adopt a old (l.connect a w)

  -- `InitializeDataAdapter`
  unfoldable pub initialize_data_adapter : Holder l → Result l.Fault (Unit {0}) × Holder l
  initialize_data_adapter h = connect_new h.data_adapter (l.new_from_env h.world)

  -- `GetDataAdapter`
  unfoldable pub get_data_adapter : Holder l → Option l.DataAdapter
  get_data_adapter h = h.data_adapter

  -- `DisconnectDataAdapter`
  unfoldable pub disconnect_data_adapter : Holder l → Result l.Fault (Unit {0}) × Holder l
  disconnect_data_adapter h =
      let (r, w) = disconnect_held l h.data_adapter h.world in (r, record h { world = w })
