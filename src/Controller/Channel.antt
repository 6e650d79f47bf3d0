-- ===== src/Controller/Channel.antt =====
-- What the connection of the control client (pad_server/src/controller.c) is assumed to do once bytes
-- have arrived, and what the reads of the receive loop make of it.
use hysim.Base.{ℕ, ◌≤◌, ◌≡◌, List, [], ◌∷◌, ◌++◌, ℤ, some, arith, length, take, drop}
use hysim.Os.{Locks, Sockets}
use hysim.PadState.Untouched.{Untouched}
use hysim.Controller.{Controller, controller_recv}
use hysim.Controller.Messages.{read_header, recv_struct, act_req_of, arm_req_of}

-- A stream socket whose bytes have arrived, next to locks that are granted. `line w` is what is still to
-- be received and what has been sent. A call of `recv` for no more than has arrived returns that many
-- bytes and takes them off; `send` hands its bytes over as one message; no lock touches the line.
pub record Channel {W : Type 0} (locks : Locks W) (net : Sockets W) (client : ℤ) : Type 0 where
  pub line : W → List ℕ × List (List ℕ)
  pub recv_some :
      (n : ℕ) (w : W) → n ≤ length (line w).0 → (net.recv client n w).0 ≡ some (take n (line w).0)
  pub recv_line :
      (n : ℕ) (w : W)
      → n ≤ length (line w).0
      → line (net.recv client n w).1 ≡ (drop n (line w).0, (line w).1)
  pub send_line :
      (bs : List ℕ) (w : W) → line (net.send client bs w).1 ≡ ((line w).0, (line w).1 ++ bs ∷ [])
  pub rdlock_ok : (w : W) → (locks.rdlock w).0 ≡ 0
  pub wrlock_ok : (w : W) → (locks.wrlock w).0 ≡ 0
  pub untouched : Untouched locks line

module _ {W : Type 0} (locks : Locks W) (net : Sockets W) (c : Controller)
    (ch : Channel locks net c.client) where
  open ch use {line, recv_some, recv_line}

  pub recv_2 :
      (a b : ℕ) (rest : List ℕ) (out : List (List ℕ)) (w : W)
      → line w ≡ (a ∷ b ∷ rest, out)
      → ((controller_recv net c 2 w).0 ≡ some (a ∷ b ∷ []))
        × (line (controller_recv net c 2 w).1 ≡ (rest, out))
  unfolding controller_recv
  recv_2 a b rest out w e = ground (arith, recv_some 2 w, recv_line 2 w)

  pub recv_1 :
      (a : ℕ) (rest : List ℕ) (out : List (List ℕ)) (w : W)
      → line w ≡ (a ∷ rest, out)
      → ((controller_recv net c 1 w).0 ≡ some (a ∷ []))
        × (line (controller_recv net c 1 w).1 ≡ (rest, out))
  unfolding controller_recv
  recv_1 a rest out w e = ground (arith, recv_some 1 w, recv_line 1 w)

  -- The header arrives whole.
  pub read_header-line :
      (a b : ℕ) (rest : List ℕ) (out : List (List ℕ)) (w : W)
      → line w ≡ (a ∷ b ∷ rest, out)
      → ((read_header net c 2 [] w).0 ≡ some (a ∷ b ∷ []))
        × (line (read_header net c 2 [] w).1 ≡ (rest, out))
  unfolding read_header
  read_header-line a b rest out w e = ground (arith, recv_2 a b rest out w e)

  pub recv_act_req :
      (a b : ℕ) (rest : List ℕ) (out : List (List ℕ)) (w : W)
      → line w ≡ (a ∷ b ∷ rest, out)
      → (act_req_of (recv_struct net c 2 w).0 ≡ record { id = a; state = b })
        × (line (recv_struct net c 2 w).1 ≡ (rest, out))
  unfolding recv_struct
  recv_act_req a b rest out w e = ground (arith, recv_2 a b rest out w e)

  pub recv_arm_req :
      (a : ℕ) (rest : List ℕ) (out : List (List ℕ)) (w : W)
      → line w ≡ (a ∷ rest, out)
      → (arm_req_of (recv_struct net c 1 w).0 ≡ record { level = a })
        × (line (recv_struct net c 1 w).1 ≡ (rest, out))
  unfolding recv_struct
  recv_arm_req a rest out w e = ground (arith, recv_1 a rest out w e)
