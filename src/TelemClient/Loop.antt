-- ===== src/TelemClient/Loop.antt =====
-- `stream_init` of telem_client/src/stream.c, and `main` of telem_client_main.c around its rounds: options, the
-- stream, and how the process ends.
use hysim.Base.{
  ℕ, zero, suc, Option, none, some, List, [], ◌∷◌, ◌++◌, Run, ◌>>=◌, return, is_negative, is_one,
  is_minus_one, if◌then◌else◌, ◌==◌,
}
use hysim.Os.{Datagrams, Sockets, so_reuseaddr, ip_add_membership}
use hysim.Libc.{Opt}
use hysim.TelemClient.{
  Stream, stream_disconnect, Line, Outcome, printed, ignored, stream_over, stream_error,
  not_telemetry, Vars, round,
}

abbrev pub telem_port : ℕ
telem_port = 50002

-- "224.0.0.10"
abbrev pub default_addr : List ℕ
default_addr = 50 ∷ 50 ∷ 52 ∷ 46 ∷ 48 ∷ 46 ∷ 48 ∷ 46 ∷ 49 ∷ 48 ∷ []

-- The address to listen to, or the code that the process exits with.
pub data ClientOptions : Type 0 where
  listen_to : List ℕ → ClientOptions
  client_stop : ℕ → ClientOptions

module _ {W : Type 0} (net : Sockets W) where
  open net use {sock_errno, socket_dgram, setsockopt, bind, inet_addr, inet_pton}

  -- The error code, and the stream as it is left.
  unfoldable pub stream_init : Stream → List ℕ → ℕ → Run W (ℕ × Stream)
  stream_init stream ip port = do
    fd ← socket_dgram
    let s1 = record stream { sock = fd }
    if is_negative fd then (λ w. ((sock_errno w, s1), w)) else do
      let s2 = record s1 { addr = 0 }
      joined ← setsockopt fd (ip_add_membership (inet_addr ip))
      if is_negative joined then (λ w. ((sock_errno w, s2), w)) else do
        reused ← setsockopt fd (so_reuseaddr 1)
        if is_minus_one reused then (λ w. ((sock_errno w, s2), w)) else do
          bound ← bind fd port
          if is_negative bound then (λ w. ((sock_errno w, s2), w)) else return (0, s2)

  -- One round of the option loop.
  unfoldable pub apply_client_opt : Opt → List ℕ → Run W ClientOptions
  apply_client_opt o addr =
      if o.letter == 104
      then return (client_stop 0)
      else if o.letter == 97
      then (do
        (valid, _) ← inet_pton o.optarg
        if is_one valid then return (listen_to o.optarg) else return (client_stop 1))
      else if o.letter == 63
      then return (client_stop 1)
      else return (listen_to addr)

  unfoldable pub parse_client_opts : List Opt → List ℕ → Run W ClientOptions
  parse_client_opts [] addr w = (listen_to addr, w)
  parse_client_opts (o ∷ os) addr w =
      let (options, w1) = apply_client_opt o addr w in
      elim options [
        | listen_to addr1 ↦ parse_client_opts os addr1 w1
        | client_stop e ↦ (client_stop e, w1)
      ]

module _ {W : Type 0} (dgrams : Datagrams W) where
  -- The function `stream_over`: the code that it exits with.
  unfoldable pub end_stream : Stream → Run W ℕ
  end_stream stream = do err ← stream_disconnect dgrams stream; return (if err == 0 then 0 else 1)

  unfoldable pub handle_int : Stream → Run W ℕ
  handle_int stream = stream_disconnect dgrams stream

  -- What follows a round: the line that was printed, or the code that the process exits with.
  unfoldable pub after_round : Stream → Outcome → Run W (List Line × Option ℕ)
  after_round stream (printed line) = return (line ∷ [], none)
  after_round stream ignored = return ([], none)
  after_round stream stream_over = do e ← end_stream stream; return ([], some e)
  after_round stream stream_error = do _ ← stream_disconnect dgrams stream; return ([], some 1)
  after_round stream (not_telemetry type) = return ([], some 1)

  -- The rounds that follow, unless the process exits.
  unfoldable pub resume :
      List Line × Option ℕ → Run W (List Line × Option ℕ) → Run W (List Line × Option ℕ)
  resume (lines, some e) later w = ((lines, some e), w)
  resume (lines, none) later w = let ((more, code), w1) = later w in ((lines ++ more, code), w1)

  -- The loop for so many rounds: the lines printed, and the code if it came to an exit.
  unfoldable pub listen : ℕ → Stream → Vars → Run W (List Line × Option ℕ)
  listen zero stream v w = (([], none), w)
  listen (suc n) stream v w =
      let ((outcome, v1), w1) = round dgrams stream v w in
      let (step, w2) = after_round stream outcome w1 in resume step (listen n stream v1) w2

module _ {W : Type 0} (net : Sockets W) (dgrams : Datagrams W) where
  unfoldable pub start_client : ℕ → Stream → Vars → ClientOptions → Run W (List Line × Option ℕ)
  start_client n stream v (client_stop e) = return ([], some e)
  start_client n stream v (listen_to addr) = do
    (err, opened) ← stream_init net stream addr telem_port
    if err == 0 then listen dgrams n opened v else return ([], some 1)

  -- `main`, with so many rounds of its endless loop, given what its variables hold at first.
  unfoldable pub client_main : ℕ → Stream → Vars → List Opt → Run W (List Line × Option ℕ)
  client_main n stream v opts = do
    options ← parse_client_opts net opts default_addr
    start_client n stream v options
