-- ===== src/ControlClient/Retries.antt =====
-- How `pad_connect_forever` of control_client/src/pad.c ends.
use hysim.Base.{
  ℕ, zero, suc, ◌+◌, ◌≡◌, refl, sym, ap, Bool, true, false, some, List, [], ◌∷◌, ◌⊎◌, inl, inr, pos,
  ◌==◌, is_negative, Bool-cases, arith,
}
use hysim.Os.{Sockets, SockOpt, so_keepalive, tcp_keepidle, tcp_keepintvl, tcp_keepcnt}
use hysim.ControlClient.{
  PadLink, client_setsock_keepalive, pad_connect, tries_again, connect_round, pad_connect_forever,
}

-- The options of a connection that is kept alive, where TCP_KEEPIDLE is there and where it is not.
abbrev pub keepalive_options : Bool → List SockOpt
keepalive_options true = so_keepalive 1 ∷ tcp_keepintvl 10 ∷ tcp_keepcnt 2 ∷ []
keepalive_options false = so_keepalive 1 ∷ tcp_keepidle 10 ∷ tcp_keepintvl 10 ∷ tcp_keepcnt 2 ∷ []

module _ {W : Type 0} (net : Sockets W) (pad : PadLink) where
  -- From `w` to `v` the options are set in order, or up to one that fails with errno `e`.
  abbrev pub IsSetting : List SockOpt → ℕ → W → W → Type 0
  IsSetting [] e w v = (e ≡ 0) × (v ≡ w)
  IsSetting (o ∷ os) e w v =
      let (err, w1) = net.setsockopt pad.sock o w in
      ((err ≡ pos 0) × IsSetting os e w1 v)
      ⊎ ((is_negative err ≡ true) × (e ≡ net.sock_errno w1) × (v ≡ w1))

  -- An attempt: no connection, with errno `e`, or a connection whose options are set.
  abbrev pub IsAttempt : ℕ → W → W → Type 0
  IsAttempt e w v =
      let (err, w1) = net.connect pad.sock pad.sin_addr pad.sin_port w in
      ((is_negative err ≡ true) × (e ≡ net.sock_errno w1) × (v ≡ w1))
      ⊎ ((is_negative err ≡ false) × IsSetting (keepalive_options net.is_apple) e w1 v)

  -- Refused, timed out, not connected, or no such network.
  abbrev pub IsRetryable : ℕ → Type 0
  IsRetryable e =
      (e ≡ net.econnrefused) ⊎ ((e ≡ net.etimedout) ⊎ ((e ≡ net.enotconn) ⊎ (e ≡ net.enetunreach)))

  -- A second's sleep after a failure.
  abbrev pub paused : ℕ → W → W
  paused zero w = w
  paused (suc e) w = (net.sleep 1 w).1

  -- From `w` to `v`, n attempts fail with an error that is tried again, and one more ends with `e`.
  abbrev pub AreAttempts : ℕ → ℕ → W → W → Type 0
  AreAttempts zero e w v = (u : W) × IsAttempt e w u × (¬ IsRetryable e) × (v ≡ paused e u)
  AreAttempts (suc n) e w v =
      (d : ℕ) × (u : W) × IsAttempt d w u × IsRetryable d × AreAttempts n e (paused d u) v

  keepalive_lem :
      (e : ℕ) (w v : W)
      → IsSetting (keepalive_options net.is_apple) e w v
      → client_setsock_keepalive net pad.sock w ≡ (e, v)
  unfolding client_setsock_keepalive
  keepalive_lem e w v h = elim (Bool-cases net.is_apple) [
    | inl apple ↦ ground (arith, h, apple)
    | inr other ↦ ground (arith, h, other)
  ]

  connect_lem : (e : ℕ) (w v : W) → IsAttempt e w v → pad_connect net pad w ≡ (e, v)
  unfolding pad_connect
  connect_lem e w v h =
      let w1 : W = (net.connect pad.sock pad.sin_addr pad.sin_port w).1 in
      ground (arith, h, keepalive_lem e w1 v)

  round_lem : (e : ℕ) (w v : W) → IsAttempt e w v → connect_round net pad w ≡ (e, paused e v)
  unfolding connect_round
  round_lem zero w v h = rw (connect_lem zero w v h, connect_round) refl
  round_lem (suc e) w v h =
      let failed : (suc e == 0) ≡ false = ground arith in
      rw (connect_lem (suc e) w v h, connect_round) (rw failed refl)

  tries_lem : (e : ℕ) → IsRetryable e → tries_again net e ≡ true
  unfolding tries_again
  tries_lem e h = ground (arith, h)

  gives_up_lem : (e : ℕ) → (¬ IsRetryable e) → tries_again net e ≡ false
  unfolding tries_again
  gives_up_lem e h = ground (arith, h)

  -- Where n attempts fail, each with one of the four errors that are tried again, and the next one ends with another error
  -- or with none, the loop returns what that one gave, on fuel for n + 1 rounds or more, and leaves the world as
  -- the attempts and a second's sleep after each failure do.
  pub pad_connect_forever-AreAttempts :
      (n extra e : ℕ) (w v : W)
      → AreAttempts n e w v
      → pad_connect_forever net pad (suc (n + extra)) w ≡ (some e, v)
  unfolding pad_connect_forever
  pad_connect_forever-AreAttempts zero extra e w v (u, last, other, end) =
      rw (round_lem e w u last, pad_connect_forever)
        (rw (gives_up_lem e other) (ap (λ (x : W). (some e, x)) (sym end)))
  pad_connect_forever-AreAttempts (suc n) extra e w v (d, u, refused, retried, rest) =
      let more : suc n + extra ≡ suc (n + extra) = omega arith in
      rw (round_lem d w u refused, pad_connect_forever)
        (rw (tries_lem d retried)
          (rw more (pad_connect_forever-AreAttempts n extra e (paused d u) v rest)))
