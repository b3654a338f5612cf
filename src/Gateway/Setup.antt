-- ===== src/Gateway/Setup.antt =====
-- The part of `main` in src/main.c before the loop. Whether the options are right, and what the
-- calls of src/tun.c, the kernel and the library give, are arguments. The descriptors that are
-- given and closed are a result.
use coding_gateway.Base.{
  ℕ, ◌≡◌, refl, arith, List, [], ◌∷◌, ◌++◌, Bool, true, false, not, Option, none, some,
  if◌then◌else◌, Bool-cases, Option-cases, inl, inr, ◌+◌, ltb, pos_part,
}
use coding_gateway.Float.{FloatOps}
use coding_gateway.Config.{GatewayConfig}
use coding_gateway.Config.Load.{config_load}
use coding_gateway.Crypto.{CryptoCtx, crypto_init, crypto_parse_key}
use coding_gateway.Strategy.Init.{strategy_init}
use coding_gateway.Transport.{TransportCtx}
use coding_gateway.Transport.Init.{
  Opening, given_sockets, transport_init, transport_free, times, times-append,
  transport_free-transport_init,
}
use coding_gateway.Metrics.{DoubleOps}
use coding_gateway.Tx.{Timeval}
use coding_gateway.Gateway.{Gateway, start_gateway}

-- What the kernel answers to `metrics_listen`.
pub record Listener : Type 0 where
  pub socket : Option ℕ
  pub bound : Bool
  pub listening : Bool

-- The socket that metrics are asked for on, none for the return value -1, and what it closes.
unfoldable pub metrics_listen : Listener → Option ℕ × List ℕ
metrics_listen l = elim l.socket [
  | none ↦ (none, [])
  | some fd ↦
      if not l.bound
      then (none, fd ∷ [])
      else if not l.listening
      then (none, fd ∷ [])
      else (some fd, [])
]

abbrev pub fd_list : Option ℕ → List ℕ
fd_list none = []
fd_list (some fd) = fd ∷ []

pub record Setup : Type 0 where
  pub options_ok : Bool
  pub file : Option (List ℕ)
  pub tun_fd : Option ℕ
  pub tun_configured : Bool
  pub opening : Opening
  pub allocated : Bool
  pub listener : Listener
  pub now : Timeval

-- What the loop works with, the socket of the metrics, and the descriptor of the TUN device.
pub record Started (F D : Type 0) : Type 0 where
  pub state : Gateway F D
  pub crypto : CryptoCtx
  pub tctx : TransportCtx
  pub metrics_fd : Option ℕ
  pub tun_fd : ℕ

-- `started` is none for the return value 1.
pub record Outcome (F D : Type 0) : Type 0 where
  pub started : Option (Started F D)
  pub given : List ℕ
  pub closed : List ℕ

abbrev pub failed_with : {F D : Type 0} → List ℕ → List ℕ → Outcome F D
failed_with given closed = record { started = none; given = given; closed = closed }

unfoldable pub make_crypto : (ℕ → ℕ → Option ℕ) → List ℕ → Option CryptoCtx
make_crypto sscanf [] = some (crypto_init none)
make_crypto sscanf (c ∷ key) = elim (crypto_parse_key sscanf (c ∷ key)) [
  | none ↦ none
  | some bytes ↦ some (crypto_init (some bytes))
]

module _ {F D : Type 0} (ops : FloatOps F) (doubles : DoubleOps D) (sscanf : ℕ → ℕ → Option ℕ)
    (s : Setup) where
  -- The metrics are served on a positive port only.
  unfoldable pub serve_metrics : GatewayConfig F → Option ℕ × List ℕ
  serve_metrics cfg =
      if ltb 0 (pos_part cfg.metrics_port) then metrics_listen s.listener else (none, [])

  -- The descriptor that the kernel gives for it.
  unfoldable pub given_listener : GatewayConfig F → List ℕ
  given_listener cfg = if ltb 0 (pos_part cfg.metrics_port) then fd_list s.listener.socket else []

  -- The part after `tun_configure`.
  unfoldable pub with_tun : GatewayConfig F → CryptoCtx → ℕ → Outcome F D
  unfolding serve_metrics given_listener
  with_tun cfg crypto fd =
      let made = transport_init s.opening cfg in
      let given = given_sockets s.opening cfg ++ (fd ∷ []) in
      elim made.0 [
        | none ↦ failed_with given (made.1 ++ (fd ∷ []))
        | some tctx ↦ elim (strategy_init ops s.allocated cfg) [
          | none ↦ failed_with given ((transport_free (some tctx) ++ made.1) ++ (fd ∷ []))
          | some sctx ↦ record {
            started = some (record {
              state = start_gateway doubles cfg sctx s.now;
              crypto = crypto;
              tctx = tctx;
              metrics_fd = (serve_metrics cfg).0;
              tun_fd = fd;
            });
            given = given_listener cfg ++ given;
            closed = (serve_metrics cfg).1 ++ made.1;
          }
        ]
      ]

  -- The part after `config_load`.
  unfoldable pub with_config : GatewayConfig F → Outcome F D
  unfolding with_tun make_crypto
  with_config cfg = elim (make_crypto sscanf cfg.crypto_key) [
    | none ↦ failed_with [] []
    | some crypto ↦ elim s.tun_fd [
      | none ↦ failed_with [] []
      | some fd ↦
          if s.tun_configured then with_tun cfg crypto fd else failed_with (fd ∷ []) (fd ∷ [])
    ]
  ]

  unfoldable pub set_up : Outcome F D
  unfolding with_config
  set_up =
      if not s.options_ok
      then failed_with [] []
      else elim (config_load ops s.file) [ none ↦ failed_with [] [] | some cfg ↦ with_config cfg ]

-- What is closed when the program ends, by the calls after the loop if it was reached.
unfoldable pub closed_at_exit : {F D : Type 0} → Outcome F D → List ℕ
closed_at_exit out = elim out.started [
  | none ↦ out.closed
  | some st ↦
      out.closed ++ (fd_list st.metrics_fd ++ (transport_free (some st.tctx) ++ (st.tun_fd ∷ [])))
]

module _ {F D : Type 0} (ops : FloatOps F) (doubles : DoubleOps D) (sscanf : ℕ → ℕ → Option ℕ)
    (s : Setup) (fd : ℕ) where
  -- What `closed_at_exit` has is what was given.
  abbrev IsClosed : Outcome F D → Type 0
  IsClosed out = times fd out.given ≡ times fd (closed_at_exit out)

  all_closed :
      (cfg : GatewayConfig F) (tun : ℕ)
      → times fd (given_sockets s.opening cfg ++ (tun ∷ []))
        ≡ times fd (
            (transport_free (transport_init s.opening cfg).0 ++ (transport_init s.opening cfg).1)
            ++ (tun ∷ []))
  all_closed cfg tun =
      let made = transport_init s.opening cfg in
      omega (
        arith,
        transport_free-transport_init s.opening cfg fd,
        times-append fd (given_sockets s.opening cfg) (tun ∷ []),
        times-append fd (transport_free made.0 ++ made.1) (tun ∷ []),
        times-append fd (transport_free made.0) made.1,
      )

  answered :
      (socket : Option ℕ) (bound listening : Bool)
      → times fd (fd_list socket)
        ≡ times fd (
            fd_list
              (metrics_listen (record { socket = socket; bound = bound; listening = listening })).0)
          + times fd
              (metrics_listen (record { socket = socket; bound = bound; listening = listening })).1
  unfolding metrics_listen
  answered none bound listening = omega arith
  answered (some n) true true = omega arith
  answered (some n) true false = omega arith
  answered (some n) false listening = omega arith

  listener_closed :
      (cfg : GatewayConfig F)
      → times fd (given_listener ops doubles sscanf s cfg)
        ≡ times fd (fd_list (serve_metrics ops doubles sscanf s cfg).0)
          + times fd (serve_metrics ops doubles sscanf s cfg).1
  unfolding serve_metrics given_listener
  listener_closed cfg = elim (Bool-cases (ltb 0 (pos_part cfg.metrics_port))) [
    | inl e ↦ rw e (answered s.listener.socket s.listener.bound s.listener.listening)
    | inr e ↦ rw e refl
  ]

  started_closed :
      (cfg : GatewayConfig F) (tctx : TransportCtx) (tun : ℕ)
      → (transport_init s.opening cfg).0 ≡ some tctx
      → times fd
          (given_listener ops doubles sscanf s cfg ++ (given_sockets s.opening cfg ++ (tun ∷ [])))
        ≡ times fd (
            ((serve_metrics ops doubles sscanf s cfg).1 ++ (transport_init s.opening cfg).1)
            ++ (fd_list (serve_metrics ops doubles sscanf s cfg).0
                ++ (transport_free (some tctx) ++ (tun ∷ []))))
  started_closed cfg tctx tun e =
      let metrics = serve_metrics ops doubles sscanf s cfg in
      let closed = (transport_init s.opening cfg).1 in
      let freed = transport_free (some tctx) in
      omega (
        arith,
        listener_closed cfg,
        rw e at (transport_free-transport_init s.opening cfg fd),
        times-append fd (given_listener ops doubles sscanf s cfg)
            (given_sockets s.opening cfg ++ (tun ∷ [])),
        times-append fd (given_sockets s.opening cfg) (tun ∷ []),
        times-append fd (metrics.1 ++ closed) (fd_list metrics.0 ++ (freed ++ (tun ∷ []))),
        times-append fd metrics.1 closed,
        times-append fd (fd_list metrics.0) (freed ++ (tun ∷ [])),
        times-append fd freed (tun ∷ []),
      )

  with_tun-IsClosed :
      (cfg : GatewayConfig F) (crypto : CryptoCtx) (tun : ℕ)
      → IsClosed (with_tun ops doubles sscanf s cfg crypto tun)
  unfolding with_tun closed_at_exit transport_free
  with_tun-IsClosed cfg crypto tun = elim (Option-cases (transport_init s.opening cfg).0) [
    | inl e ↦ rw (e, with_tun) (rw e at (all_closed cfg tun))
    | inr (tctx, e) ↦ elim (Option-cases (strategy_init ops s.allocated cfg)) [
      | inl f ↦ rw (e, f, with_tun) (rw e at (all_closed cfg tun))
      | inr (sctx, f) ↦ rw (e, f, with_tun) (started_closed cfg tctx tun e)
    ]
  ]

  chosen :
      (cfg : GatewayConfig F) (crypto : Option CryptoCtx) (tun : Option ℕ) (configured : Bool)
      → IsClosed (elim crypto [
        | none ↦ failed_with [] []
        | some c ↦ elim tun [
          | none ↦ failed_with [] []
          | some fd' ↦
              if configured
              then with_tun ops doubles sscanf s cfg c fd'
              else failed_with (fd' ∷ []) (fd' ∷ [])
        ]
      ])
  unfolding closed_at_exit
  chosen cfg none tun configured = refl
  chosen cfg (some c) none configured = refl
  chosen cfg (some c) (some fd') true = with_tun-IsClosed cfg c fd'
  chosen cfg (some c) (some fd') false = refl

  loaded :
      (cfg : Option (GatewayConfig F))
      → IsClosed
          (elim cfg [ none ↦ failed_with [] [] | some c ↦ with_config ops doubles sscanf s c ])
  unfolding with_config closed_at_exit
  loaded none = refl
  loaded (some cfg) = chosen cfg (make_crypto sscanf cfg.crypto_key) s.tun_fd s.tun_configured

  -- Every descriptor that the kernel gives for the TUN device, the sockets of the transport and the
  -- socket of the metrics is closed as often as it is given when the program ends, whether it fails
  -- before the loop, wherever that is, or returns after it.
  pub closed_at_exit-set_up :
      times fd (set_up ops doubles sscanf s).given
      ≡ times fd (closed_at_exit (set_up ops doubles sscanf s))
  unfolding set_up closed_at_exit
  closed_at_exit-set_up = elim (Bool-cases s.options_ok) [
    | inl good ↦ rw good (loaded (config_load ops s.file))
    | inr bad ↦ rw bad refl
  ]
