-- ===== src/TelemClient/Queue.antt =====
-- Many rounds of the telemetry client (telem_client/src/telem_client_main.c) over the datagrams that wait.
use hysim.Base.{ℕ, suc, ◌≡◌, refl, ap, Option, none, some, List, [], ◌∷◌, ◌++◌, length}
use hysim.Packet.Message.{Body, IsInRange, encode_message}
use hysim.Os.{Datagrams}
use hysim.TelemClient.{Stream, Line, printed, Vars, round}
use hysim.TelemClient.Loop.{after_round, listen, resume}
use hysim.TelemClient.Shows.{Inbox, shown, round-shown}

-- A datagram: the message in front, the line it stands for, and what is behind the message.
pub record Delivery : Type 0 where
  pub body : Body
  pub line : Line
  pub behind : List ℕ

abbrev pub IsShown : Delivery → Type 0
IsShown d = IsInRange d.body × (shown d.body ≡ some d.line)

abbrev pub AllShown : List Delivery → Type 0
AllShown [] = Unit {0}
AllShown (d ∷ ds) = IsShown d × AllShown ds

abbrev pub datagrams_of : List Delivery → List (List ℕ)
datagrams_of [] = []
datagrams_of (d ∷ ds) = (encode_message d.body ++ d.behind) ∷ datagrams_of ds

abbrev pub lines_of : List Delivery → List Line
lines_of [] = []
lines_of (d ∷ ds) = d.line ∷ lines_of ds

module _ {W : Type 0} (dgrams : Datagrams W) (stream : Stream)
    (box : Inbox dgrams stream.sock) where
  open box use {waiting}

  after-printed :
      (v : Vars) (w : W) (line : Line)
      → (round dgrams stream v w).0.0 ≡ printed line
      → after_round dgrams stream (round dgrams stream v w).0.0 (round dgrams stream v w).1
        ≡ ((line ∷ [], none), (round dgrams stream v w).1)
  unfolding after_round
  after-printed v w line e = rw e refl

  listen-round :
      (n : ℕ) (v : Vars) (w : W) (line : Line)
      → (round dgrams stream v w).0.0 ≡ printed line
      → let ((outcome, v1), w1) = round dgrams stream v w in
        let ((more, code), w2) = listen dgrams n stream v1 w1 in
        listen dgrams (suc n) stream v w ≡ ((line ∷ more, code), w2)
  unfolding listen resume
  listen-round n v w line e =
      let later = listen dgrams n stream (round dgrams stream v w).0.1 in
      ap (λ (x : (List Line × Option ℕ) × W). resume dgrams x.0 later x.1)
        (after-printed v w line e)

  -- Where datagrams wait that each start with a message the client has a line for, with fields in range: as
  -- many rounds as there are datagrams print their lines in order, use the datagrams up, and the client goes on.
  pub listen-shows :
      (ds : List Delivery) (rest : List (List ℕ)) (v : Vars) (w : W)
      → AllShown ds
      → waiting w ≡ datagrams_of ds ++ rest
      → let r = listen dgrams (length ds) stream v w in
        (r.0 ≡ (lines_of ds, none)) × (waiting r.1 ≡ rest)
  unfolding listen
  listen-shows [] rest v w all q = (refl, q)
  listen-shows (d ∷ ds) rest v w all q =
      let r = round dgrams stream v w in
      let (line, left) =
        round-shown dgrams stream box d.body d.line d.behind (datagrams_of ds ++ rest) v w all.0.0
          all.0.1 q in
      let (lines, after) = listen-shows ds rest r.0.1 r.1 all.1 left in
      rw (listen-round (length ds) v w d.line line)
        (ap (λ (x : List Line × Option ℕ). (d.line ∷ x.0, x.1)) lines, after)
