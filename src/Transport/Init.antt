-- ===== src/Transport/Init.antt =====
-- `transport_init`, `transport_free` and `transport_fill_fdset` of src/transport.c. Whether `calloc`
-- and `bind` succeed, and what `socket` and `inet_pton` give, are arguments. The descriptors that
-- are closed are a result.
use coding_gateway.Base.{
  ℕ, zero, suc, ◌+◌, ◌≡◌, refl, arith, List, [], ◌∷◌, ◌++◌, Bool, true, false, not, ◌&&◌, length,
  take, take_of_ge, Option, none, some, ◌==◌, if◌then◌else◌, Bool-cases, Option-cases, inl, inr,
}
use coding_gateway.Config.{PathConfig, GatewayConfig}
use coding_gateway.Transport.{TransportCtx, PathSock}

-- What the kernel and the library give to `transport_init`.
pub record Opening : Type 0 where
  pub allocated : Bool
  pub recv_socket : Option ℕ
  pub bound : Bool
  pub path_socket : ℕ → Option ℕ
  pub inet_pton : List ℕ → Option ℕ

abbrev is_some : Option ℕ → Bool
is_some none = false
is_some (some _) = true

-- The descriptor that an attempt gives, if it is made.
abbrev pub socket_of : Bool → Option ℕ → List ℕ
socket_of true (some fd) = fd ∷ []
socket_of true none = []
socket_of false _ = []

module _ {F : Type 0} (o : Opening) (cfg : GatewayConfig F) where
  -- The path with the socket `fd`, and whether the socket is closed again.
  unfoldable pub connect : PathConfig F → ℕ → PathSock × List ℕ
  connect p fd = elim (o.inet_pton p.remote_ip) [
    | some addr ↦ (record { fd = some fd; s_addr = addr; port = p.remote_port; enabled = true }, [])
    | none ↦ (record { fd = none; s_addr = 0; port = p.remote_port; enabled = true }, fd ∷ [])
  ]

  -- The loop body for path `i`.
  unfoldable pub open_path : ℕ → PathSock × List ℕ
  unfolding connect
  open_path i =
      let p = cfg.paths i in
      if p.enabled
      then elim (o.path_socket i) [
        | none ↦ (record { fd = none; s_addr = 0; port = 0; enabled = true }, [])
        | some fd ↦ connect p fd
      ]
      else (record { fd = none; s_addr = 0; port = 0; enabled = false }, [])

  -- The paths from `i` on, with the number of paths left, and the descriptors that are closed.
  unfoldable pub open_paths : ℕ → ℕ → List PathSock × List ℕ
  unfolding open_path
  open_paths zero i = ([], [])
  open_paths (suc left) i =
      let one = open_path i in
      let rest = open_paths left (i + 1) in (one.0 ∷ rest.0, one.1 ++ rest.1)

  unfoldable pub transport_init : Option TransportCtx × List ℕ
  unfolding open_paths
  transport_init = if not o.allocated then (none, []) else elim o.recv_socket [
    | none ↦ (none, [])
    | some fd ↦
        let opened = open_paths cfg.path_count 0 in
        if not o.bound then (none, fd ∷ []) else (
          some (record { paths = opened.0; path_count = cfg.path_count; recv_fd = fd }),
          opened.1,
        )
  ]

  -- The sockets that the kernel gives for the paths from `i` on, and all that it gives.
  abbrev pub path_sockets : ℕ → ℕ → List ℕ
  path_sockets zero i = []
  path_sockets (suc left) i =
      socket_of (cfg.paths i).enabled (o.path_socket i) ++ path_sockets left (i + 1)

  abbrev pub given_sockets : List ℕ
  given_sockets =
      socket_of o.allocated o.recv_socket
      ++ (if o.allocated && (is_some o.recv_socket && o.bound)
          then path_sockets cfg.path_count 0
          else [])

abbrev pub kept_socket : PathSock → List ℕ
kept_socket p = socket_of true p.fd

-- The descriptors that `transport_free` closes: the receiving one and those of the paths.
unfoldable pub close_paths : List PathSock → List ℕ
close_paths [] = []
close_paths (p ∷ paths) = kept_socket p ++ close_paths paths

unfoldable pub transport_free : Option TransportCtx → List ℕ
unfolding close_paths
transport_free none = []
transport_free (some ctx) = ctx.recv_fd ∷ close_paths (take ctx.path_count ctx.paths)

-- The set of descriptors, and the number that `select` needs.
abbrev pub transport_fill_fdset : TransportCtx → List ℕ × ℕ
transport_fill_fdset ctx = (ctx.recv_fd ∷ [], ctx.recv_fd + 1)

-- How often a descriptor stands in a list.
abbrev pub times : ℕ → List ℕ → ℕ
times fd [] = 0
times fd (x ∷ xs) = (if x == fd then 1 else 0) + times fd xs

pub times-append : (fd : ℕ) (xs ys : List ℕ) → times fd (xs ++ ys) ≡ times fd xs + times fd ys
times-append fd [] ys = omega arith
times-append fd (x ∷ xs) ys = omega (arith, times-append fd xs ys)

module _ {F : Type 0} (o : Opening) (cfg : GatewayConfig F) (fd : ℕ) where
  one_path :
      (i : ℕ)
      → times fd (socket_of (cfg.paths i).enabled (o.path_socket i))
        ≡ times fd (kept_socket (open_path o cfg i).0) + times fd (open_path o cfg i).1
  unfolding open_path connect
  one_path i = elim (Bool-cases (cfg.paths i).enabled) [
    | inr off ↦ rw off refl
    | inl on ↦ elim (Option-cases (o.path_socket i)) [
      | inl e ↦ rw (on, e) refl
      | inr (opened, e) ↦ elim (Option-cases (o.inet_pton (cfg.paths i).remote_ip)) [
        | inl bad ↦ rw (on, e, bad, connect) (omega arith)
        | inr (addr, good) ↦ rw (on, e, good, connect) (omega arith)
      ]
    ]
  ]

  all_paths :
      (left i : ℕ)
      → times fd (path_sockets o cfg left i)
        ≡ times fd (close_paths (open_paths o cfg left i).0) + times fd (open_paths o cfg left i).1
  unfolding open_paths close_paths
  all_paths zero i = refl
  all_paths (suc left) i =
      let one = open_path o cfg i in
      let rest = open_paths o cfg left (i + 1) in
      omega (
        arith,
        one_path i,
        all_paths left (i + 1),
        times-append fd (socket_of (cfg.paths i).enabled (o.path_socket i))
            (path_sockets o cfg left (i + 1)),
        times-append fd (kept_socket one.0) (close_paths rest.0),
        times-append fd one.1 rest.1,
      )

  length-open_paths : (left i : ℕ) → length (open_paths o cfg left i).0 ≡ left
  unfolding open_paths
  length-open_paths zero i = refl
  length-open_paths (suc left) i = omega (arith, length-open_paths left (i + 1))

  -- Every descriptor that the kernel gives to `transport_init` is closed as often as it is given,
  -- either by `transport_init` itself, when something fails, or by `transport_free`.
  pub transport_free-transport_init :
      times fd (given_sockets o cfg)
      ≡ times fd (transport_free (transport_init o cfg).0) + times fd (transport_init o cfg).1
  unfolding transport_init transport_free
  transport_free-transport_init = elim (Bool-cases o.allocated) [
    | inr off ↦ rw off refl
    | inl on ↦ elim (Option-cases o.recv_socket) [
      | inl e ↦ rw (on, e) refl
      | inr (recv, e) ↦ elim (Bool-cases o.bound) [
        | inr free ↦ rw (on, e, free) (omega arith)
        | inl bound ↦
            let n = cfg.path_count in
            rw
              (
                on,
                e,
                bound,
                take_of_ge n (open_paths o cfg n 0).0 (omega (arith, length-open_paths n 0)),
              )
              (omega (arith, all_paths n 0))
      ]
    ]
  ]
