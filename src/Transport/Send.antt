-- ===== src/Transport/Send.antt =====
-- What the send functions of src/transport.c give to the kernel.
use coding_gateway.Base.{
  ℕ, ◌≡◌, refl, ap, ◌∙◌, List, true, Option, some, inl, inr, get_or, length, ==_iff, Bool-cases,
  Option-cases, ◌↔◌,
}
use coding_gateway.Codec.{Shard}
use coding_gateway.Wire.{type_probe_echo}
use coding_gateway.Transport.{
  PathSock, TransportCtx, Datagram, closed_path, send_buf, shard_datagram, transport_send_shard,
  probe_datagram, transport_send_probe_echo,
}

module _ (sendto : Datagram → Option ℕ) (ctx : TransportCtx) (path_idx : ℕ) where
  abbrev pub path : PathSock
  path = get_or ctx.paths path_idx closed_path

  -- The call of `sendto` for the path.
  abbrev pub over : ℕ → List ℕ → Datagram
  over fd bytes = record { fd = fd; s_addr = path.s_addr; port = path.port; bytes = bytes }

  -- Whether the path can be sent on, and the kernel takes all of the buffer.
  abbrev pub IsSent : List ℕ → Type 0
  IsSent buf =
      (fd : ℕ) × (path.fd ≡ some fd)
      × (path.enabled ≡ true)
      × (sendto (over fd buf) ≡ some (length buf))

  send_buf-cases :
      (buf : List ℕ)
      → ((send_buf sendto ctx path_idx buf).0 ≡ true → IsSent buf)
        × (IsSent buf → (send_buf sendto ctx path_idx buf).0 ≡ true)
  unfolding send_buf
  send_buf-cases buf = (
    λ h. elim (Option-cases path.fd) [
      | inl e ↦ absurd (cc (rw (e, send_buf) at h))
      | inr (fd, e) ↦ elim (Bool-cases path.enabled) [
        | inr off ↦ absurd (cc (rw (e, off, send_buf) at h))
        | inl on ↦ elim (Option-cases (sendto (over fd buf))) [
          | inl failed ↦ absurd (cc (rw (e, on, failed, send_buf) at h))
          | inr (sent, s) ↦
              let all = (==_iff sent (length buf)).0 (rw (e, on, s, send_buf) at h) in
              (fd, e, on, s ∙ ap some all)
        ]
      ]
    ],
    λ t.
        let (fd, e, on, s) = t in
        rw (e, on, s, send_buf) ((==_iff (length buf) (length buf)).1 refl),
  )

  -- `transport_send_shard` returns 0 exactly when the path is enabled, has a socket, and the kernel
  -- takes every byte of the shard's datagram for the address of the path.
  pub transport_send_shard-IsSent :
      (block_id shard_idx k n : ℕ) (s : Shard)
      → ((transport_send_shard sendto ctx path_idx block_id shard_idx k n s).0 ≡ true)
        ↔ IsSent (shard_datagram block_id shard_idx k n s)
  unfolding transport_send_shard
  transport_send_shard-IsSent block_id shard_idx k n s =
      send_buf-cases (shard_datagram block_id shard_idx k n s)

  -- A path that can be sent on is sent on, whatever the kernel answers.
  send_buf-call :
      (buf : List ℕ) (fd : ℕ)
      → path.fd ≡ some fd
      → path.enabled ≡ true
      → (send_buf sendto ctx path_idx buf).1 ≡ some (over fd buf)
  unfolding send_buf
  send_buf-call buf fd e on = elim (Option-cases (sendto (over fd buf))) [
    | inl failed ↦ rw (e, on, failed, send_buf) refl
    | inr (sent, took) ↦ rw (e, on, took, send_buf) refl
  ]

  pub transport_send_shard-call :
      (block_id shard_idx k n fd : ℕ) (s : Shard)
      → path.fd ≡ some fd
      → path.enabled ≡ true
      → (transport_send_shard sendto ctx path_idx block_id shard_idx k n s).1
        ≡ some (over fd (shard_datagram block_id shard_idx k n s))
  unfolding transport_send_shard
  transport_send_shard-call block_id shard_idx k n fd s e on =
      send_buf-call (shard_datagram block_id shard_idx k n s) fd e on

  pub transport_send_probe_echo-call :
      (timestamp_us fd : ℕ)
      → path.fd ≡ some fd
      → path.enabled ≡ true
      → (transport_send_probe_echo sendto ctx path_idx timestamp_us).1
        ≡ some (over fd (probe_datagram type_probe_echo timestamp_us))
  unfolding transport_send_probe_echo
  transport_send_probe_echo-call timestamp_us fd e on =
      send_buf-call (probe_datagram type_probe_echo timestamp_us) fd e on
