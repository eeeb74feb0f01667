-- ===== src/Config/Connecting.antt =====
-- Which data adapters are connected, as a `Config` takes them and lets them go.
use trading_ecosystem_exchan.Common.{
  ◌≡◌, ◌≢◌, inl, inr, refl, sym, ap, ◌∙◌, Bool, true, false, Option, none, some, ok, err, arith,
  Result-cases,
}
use mathlib.Core.Bool.{false≢true}
use mathlib.Core.Option.{some-injective}
use trading_ecosystem_exchan.Config.DataAdapter.{
  DataAdapters, Documented, Holder, initialize_data_adapter, get_data_adapter,
  disconnect_data_adapter, disconnect_held,
}

module _ {l : DataAdapters} (d : Documented l) where
  abbrev pub same : l.DataAdapter → l.DataAdapter → Bool
  same a b = elim (d.discrete a b) [ yes _ ↦ true | no _ ↦ false ]

  abbrev pub is_held : Option l.DataAdapter → l.DataAdapter → Bool
  is_held none b = false
  is_held (some a) b = same a b

  -- Exactly the adapter that is held, if any, is connected.
  abbrev pub Held : Holder l → Type 0
  Held h = (b : l.DataAdapter) → d.connected h.world b ≡ is_held h.data_adapter b

  -- No adapter is connected.
  abbrev pub AllClosed : l.State → Type 0
  AllClosed w = (b : l.DataAdapter) → d.connected w b ≡ false

  connect-AllClosed :
      (w : l.State) (a : l.DataAdapter) (x : l.Fault)
      → AllClosed w
      → (l.connect a w).0 ≡ err x
      → AllClosed (l.connect a w).1
  connect-AllClosed w a x closed e b = elim (d.discrete b a) [
    | yes p ↦ rw p (d.connect-err w a x e)
    | no p ↦ d.connect-others w a b p ∙ closed b
  ]

  connect-same :
      (w : l.State) (a b : l.DataAdapter)
      → AllClosed w
      → (l.connect a w).0 ≡ ok tt
      → d.connected (l.connect a w).1 b ≡ same a b
  connect-same w a b closed e =
      elim (d.discrete a b)
        as (λ q. d.connected (l.connect a w).1 b ≡ elim q [ yes _ ↦ true | no _ ↦ false ]) [
          | yes p ↦ ap (d.connected (l.connect a w).1) (sym p) ∙ d.connect-ok w a e
          | no p ↦ d.connect-others w a b (λ q. p (sym q)) ∙ closed b
        ]

  -- `InitializeDataAdapter`, where nothing is held and no adapter is connected.
  pub initialize-Held :
      (w : l.State)
      → AllClosed w
      → Held (initialize_data_adapter (record { data_adapter = none; world = w })).1
  unfolding initialize_data_adapter
  initialize-Held w closed b =
      let made : AllClosed (l.new_from_env w).1 = λ b. d.new-others w b ∙ closed b in
      elim (Result-cases (l.new_from_env w).0) [
        | inr (x, p) ↦ rw p (made b)
        | inl (a, p) ↦ elim (Result-cases (l.connect a (l.new_from_env w).1).0) [
          | inl (_, q) ↦ rw (p, q) (connect-same (l.new_from_env w).1 a b made q)
          | inr (x, q) ↦ rw (p, q) (connect-AllClosed (l.new_from_env w).1 a x made q b)
        ]
      ]

  same-ne : (a b : l.DataAdapter) → a ≢ b → same a b ≡ false
  same-ne a b h = elim (d.discrete a b) as (λ q. elim q [ yes _ ↦ true | no _ ↦ false ] ≡ false) [
    | yes p ↦ absurd (h p)
    | no _ ↦ refl
  ]

  disconnect_held-closes :
      (o : Option l.DataAdapter) (w : l.State)
      → ((b : l.DataAdapter) → d.connected w b ≡ is_held o b)
      → (disconnect_held l o w).0 ≡ ok tt
      → AllClosed (disconnect_held l o w).1
  disconnect_held-closes none w held e b = held b
  disconnect_held-closes (some a) w held e b = elim (d.discrete a b) [
    | yes p ↦ ap (d.connected (l.disconnect a w).1) (sym p) ∙ d.disconnect-ok w a e
    | no p ↦ d.disconnect-others w a b (λ q. p (sym q)) ∙ held b ∙ same-ne a b p
  ]

  -- If exactly the adapter that is held is connected, a successful `DisconnectDataAdapter` leaves none
  -- connected.
  pub disconnect-AllClosed :
      (h : Holder l)
      → Held h
      → (disconnect_data_adapter h).0 ≡ ok tt
      → AllClosed (disconnect_data_adapter h).1.world
  unfolding disconnect_data_adapter
  disconnect-AllClosed h held e = disconnect_held-closes h.data_adapter h.world held e

  -- What a successful `InitializeDataAdapter` has done.
  initialize-ok :
      (h : Holder l)
      → (initialize_data_adapter h).0 ≡ ok tt
      → (b : l.DataAdapter) × ((l.new_from_env h.world).0 ≡ ok b)
        × ((initialize_data_adapter h).1
            ≡ record { data_adapter = some b; world = (l.connect b (l.new_from_env h.world).1).1 })
  unfolding initialize_data_adapter
  initialize-ok h e = elim (Result-cases (l.new_from_env h.world).0) [
    | inr (x, p) ↦ ground (arith, e, p)
    | inl (b, p) ↦ elim (Result-cases (l.connect b (l.new_from_env h.world).1).0) [
      | inr (x, q) ↦ ground (arith, e, p, q)
      | inl (_, q) ↦ (b, p, rw (p, q) refl)
    ]
  ]

  -- A second successful `InitializeDataAdapter` forgets the adapter that was held while it is
  -- connected: it is not the one held then, and `DisconnectDataAdapter` leaves it connected, whether
  -- or not it succeeds.
  pub initialize-again :
      (h : Holder l) (a : l.DataAdapter)
      → h.data_adapter ≡ some a
      → d.connected h.world a ≡ true
      → (initialize_data_adapter h).0 ≡ ok tt
      → let t = (initialize_data_adapter h).1 in
        (get_data_adapter t ≢ some a) × (d.connected (disconnect_data_adapter t).1.world a ≡ true)
  unfolding disconnect_data_adapter get_data_adapter
  initialize-again h a holds conn e =
      let (b, made, t) = initialize-ok h e in
      let w = (l.new_from_env h.world).1 in
      let fresh : a ≢ b = λ p.
        false≢true (sym (d.new-fresh h.world b made) ∙ ap (d.connected h.world) (sym p) ∙ conn) in
      let kept : d.connected (l.connect b w).1 a ≡ true =
        d.connect-others w b a fresh ∙ d.new-others h.world a ∙ conn in
      rw t (
        (λ p. fresh (some-injective _ _ (sym p))),
        d.disconnect-others (l.connect b w).1 b a fresh ∙ kept,
      )
