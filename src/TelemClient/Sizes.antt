-- ===== src/TelemClient/Sizes.antt =====
-- The buffers of the loop in telem_client/src/telem_client_main.c: two bytes for a header, and `char buffer[50]`.
use hysim.Base.{
  ℕ, zero, suc, ◌-◌, ◌≡◌, ◌≤◌, refl, ◌∙◌, Option-cases, Option, none, some, List, [], ◌∷◌, ℤ, arith,
  length, length-append, drop, if-elim, Run, ◌==◌, inl, inr, get_or,
}
use hysim.Packet.{type_telem}
use hysim.Os.{Datagrams}
use hysim.TelemClient.{
  Stream, Line, Outcome, Vars, overlay, line_of, show_message, handle_peek, round, stream_peek,
  stream_recv,
}

-- A call gives no more bytes than it is asked for.
pub record Sparing {W : Type 0} (dgrams : Datagrams W) (sock : ℤ) : Type 0 where
  pub peek_bound :
      (n : ℕ) (w : W) (bs : List ℕ) → (dgrams.peek sock n w).0 ≡ some bs → length bs ≤ n
  pub recvfrom_bound :
      (n : ℕ) (w : W) (bs : List ℕ) → (dgrams.recvfrom sock n w).0 ≡ some bs → length bs ≤ n

-- The size of the buffers.
abbrev pub IsSized : Vars → Type 0
IsSized v = (length v.hdr ≡ 2) × (length v.buffer ≡ 50)

length-drop : (n : ℕ) (xs : List ℕ) → length (drop n xs) ≡ length xs - n
length-drop zero xs = omega arith
length-drop (suc n) [] = omega arith
length-drop (suc n) (x ∷ xs) = omega (arith, length-drop n xs)

length-overlay :
    (bs old : List ℕ) → length bs ≤ length old → length (overlay (some bs) old) ≡ length old
length-overlay bs old h =
    omega (arith, length-append bs (drop (length bs) old), length-drop (length bs) old)

line_of-size_bound :
    (subtype n : ℕ) (buffer : List ℕ) (line : Line)
    → line_of subtype buffer ≡ some (n, line)
    → n ≤ 11
unfolding line_of
line_of-size_bound subtype n buffer line e = ground (arith, e)

module _ {W : Type 0} (dgrams : Datagrams W) (stream : Stream)
    (sparing : Sparing dgrams stream.sock) where
  open sparing use {peek_bound, recvfrom_bound}

  received-IsSized :
      (v : Vars) (n : ℕ) (w : W)
      → IsSized v
      → n ≤ 50
      → length (overlay (dgrams.recvfrom stream.sock n w).0 v.buffer) ≡ 50
  received-IsSized v n w sized h = elim (Option-cases (dgrams.recvfrom stream.sock n w).0) [
    | inl e ↦ rw e sized.1
    | inr (bs, e) ↦
        rw e
          (length-overlay bs v.buffer (omega (arith, recvfrom_bound n w bs e, sized.1)) ∙ sized.1)
  ]

  show_message-IsSized :
      (v : Vars) (w : W) → IsSized v → IsSized (show_message dgrams stream v w).0.1
  unfolding show_message stream_recv
  show_message-IsSized v w sized = elim (Option-cases (line_of (get_or v.hdr 1 0) v.buffer)) [
    | inl e ↦ rw (e, show_message) sized
    | inr ((n, line), e) ↦
        (let small = line_of-size_bound (get_or v.hdr 1 0) n v.buffer line e in
          rw (e, show_message) (sized.0, received-IsSized v n w sized (omega (arith, small))))
  ]

  handle_peek-IsSized :
      (v : Vars) (peeked : Option (List ℕ)) (w : W)
      → IsSized v
      → ((bs : List ℕ) → peeked ≡ some bs → length bs ≤ 2)
      → IsSized (handle_peek dgrams stream v peeked w).0.1
  unfolding handle_peek
  handle_peek-IsSized v none w sized h = sized
  handle_peek-IsSized v (some []) w sized h = sized
  handle_peek-IsSized v (some (b ∷ bs)) w sized h =
      let v1 : Vars = record v { hdr = overlay (some (b ∷ bs)) v.hdr } in
      let sized1 : IsSized v1 = (
        length-overlay (b ∷ bs) v.hdr (omega (arith, h (b ∷ bs) refl, sized.0)) ∙ sized.0,
        sized.1,
      ) in
      if-elim {A = Run W (Outcome × Vars)} (b == type_telem) (λ m. IsSized (m w).0.1)
        (λ e. show_message-IsSized v1 w sized1) (λ e. sized1)

  -- The variables after so many rounds.
  abbrev pub vars_after : ℕ → Vars → W → Vars
  vars_after zero v w = v
  vars_after (suc n) v w = let ((outcome, v1), w1) = round dgrams stream v w in vars_after n v1 w1

  -- Where a call gives no more bytes than it is asked for: in any number of rounds, whatever arrives, the header
  -- keeps its 2 bytes and the buffer its 50, so nothing is stored beyond them.
  pub rounds-IsSized : (n : ℕ) (v : Vars) (w : W) → IsSized v → IsSized (vars_after n v w)
  unfolding round stream_peek
  rounds-IsSized zero v w sized = sized
  rounds-IsSized (suc n) v w sized = rounds-IsSized n _ _ (
      handle_peek-IsSized v (dgrams.peek stream.sock 2 w).0 (dgrams.peek stream.sock 2 w).1 sized
        (peek_bound 2 w))
