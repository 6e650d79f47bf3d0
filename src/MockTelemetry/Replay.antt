-- ===== src/MockTelemetry/Replay.antt =====
-- `mock_telemetry` of pad_server/src/telemetry.c over a file whose lines are known.
use mathlib.Core.List.{append_assoc, append-nil}
use hysim.Base.{
  ℕ, suc, ◌+◌, ◌<◌, ◌≡◌, refl, ◌∙◌, sym, ap, Bool-cases, inl, inr, List, [], ◌∷◌, ◌++◌, arith,
  length,
}
use hysim.Packet.Message.{encode_message, encode_body}
use hysim.Packet.Wire.{encode_header, encode_pressure}
use hysim.Os.{Datagrams, Files}
use hysim.Telemetry.{TelemetrySock, telemetry_publish, concat_parts}
use hysim.MockTelemetry.{
  parse_line, publish_line, publish_parsed, publish_read, file_round, file_rounds, again, crash,
}
use hysim.MockTelemetry.Csv.{parse_line-text}
use hysim.MockTelemetry.Lines.{
  CsvLine, text, IsCsvLine, AllCsvLines, texts, datagram, datagrams, HasComma, Replay,
  parse_line-none, zero_add, suc_add, add_zero,
}

module _ {W : Type 0} (dgrams : Datagrams W) (files : Files W) (telem : TelemetrySock) (file : ℕ)
    (replay : Replay dgrams files telem.sock file) where
  open replay use {
    sent, unread, ferror_ok, ferror_keeps, feof_keeps, feof_unread, fgets_line, sendmsg_keeps,
    usleep_keeps,
  }

  publish-world :
      (parts : List (List ℕ)) (w : W)
      → (telemetry_publish dgrams telem parts w).1
        ≡ (dgrams.sendmsg telem.sock (concat_parts parts) w).1
  unfolding telemetry_publish
  publish-world parts w = ground arith

  abbrev parts_of : CsvLine → List (List ℕ)
  parts_of l =
      encode_header (record { type = 1; subtype = 1 })
      ∷ encode_pressure (record { time = l.time; pressure = l.value; id = 1 })
      ∷ []

  parts-datagram : (l : CsvLine) → concat_parts (parts_of l) ≡ datagram l
  unfolding concat_parts encode_message encode_body
  parts-datagram l =
      ap (λ bs. encode_header (record { type = 1; subtype = 1 }) ++ bs)
        (append-nil (encode_pressure (record { time = l.time; pressure = l.value; id = 1 })))

  publish_line-sent :
      (l : CsvLine) (w : W)
      → (sent (publish_line dgrams files telem (l.time, l.value) w).1 ≡ sent w ++ datagram l ∷ [])
        × (unread (publish_line dgrams files telem (l.time, l.value) w).1 ≡ unread w)
  unfolding publish_line
  publish_line-sent l w =
      let w1 : W = (dgrams.sendmsg telem.sock (datagram l) w).1 in
      let (sent1, unread1) = sendmsg_keeps (datagram l) w in
      let (sent2, unread2) = usleep_keeps 1000000 w1 in
      let world : (telemetry_publish dgrams telem (parts_of l) w).1 ≡ w1 =
        publish-world (parts_of l) w
        ∙ ap (λ bs. (dgrams.sendmsg telem.sock bs w).1) (parts-datagram l) in
      (
        ap (λ v. sent (files.usleep_us 1000000 v).1) world ∙ sent2 ∙ sent1,
        ap (λ v. unread (files.usleep_us 1000000 v).1) world ∙ unread2 ∙ unread1,
      )

  -- Up to the parsing of the line that is read.
  file_round-read :
      (buffer : List ℕ) (ls : List (List ℕ)) (w : W)
      → unread w ≡ buffer ∷ ls
      → length buffer < 8192
      → (w1 : W) × (file_round dgrams files telem file w
          ≡ publish_parsed dgrams files telem (parse_line buffer) w1)
        × (sent w1 ≡ sent w)
        × (unread w1 ≡ ls)
  unfolding file_round publish_read
  file_round-read buffer ls w e short =
      let w1 : W = (files.ferror file w).1 in
      let w2 : W = (files.feof file w1).1 in
      let left : unread w1 ≡ buffer ∷ ls = (ferror_keeps w).1 ∙ e in
      let left2 : unread w2 ≡ buffer ∷ ls = (feof_keeps w1).1 ∙ left in
      let (found, same, rest) = fgets_line w2 buffer ls left2 short in
      elim (Bool-cases (files.feof file w1).0) [
        | inl f ↦ absurd (ground (arith, left2, (feof_keeps w1).1, feof_unread w1 f))
        | inr f ↦ (
          (files.fgets file 8192 w2).1,
          rw (ferror_ok w, f, found) refl,
          same ∙ (feof_keeps w1).0 ∙ (ferror_keeps w).0,
          rest,
        )
      ]

  file_round-line :
      (l : CsvLine) (ls : List (List ℕ)) (w : W)
      → unread w ≡ text l ∷ ls
      → IsCsvLine l
      → ((file_round dgrams files telem file w).0 ≡ again)
        × (sent (file_round dgrams files telem file w).1 ≡ sent w ++ datagram l ∷ [])
        × (unread (file_round dgrams files telem file w).1 ≡ ls)
  unfolding publish_parsed
  file_round-line l ls w e ok =
      let (time, value, trailer, short) = ok in
      let (w1, round, same, rest) = file_round-read (text l) ls w e short in
      let parsed = parse_line-text l.time l.value l.trailer time value trailer in
      let (sent1, unread1) = publish_line-sent l w1 in
      rw (round, parsed) (refl, sent1 ∙ ap (λ s. s ++ datagram l ∷ []) same, unread1 ∙ rest)

  file_round-crash :
      (buffer : List ℕ) (ls : List (List ℕ)) (w : W)
      → unread w ≡ buffer ∷ ls
      → length buffer < 8192
      → ¬ HasComma buffer
      → ((file_round dgrams files telem file w).0 ≡ crash)
        × (sent (file_round dgrams files telem file w).1 ≡ sent w)
  unfolding publish_parsed
  file_round-crash buffer ls w e short absent =
      let (w1, round, same, rest) = file_round-read buffer ls w e short in
      rw (round, parse_line-none buffer absent) (refl, same)

  file_rounds-again :
      (n : ℕ) (w : W)
      → (file_round dgrams files telem file w).0 ≡ again
      → file_rounds dgrams files (suc n) telem file w
        ≡ file_rounds dgrams files n telem file (file_round dgrams files telem file w).1
  unfolding file_rounds
  file_rounds-again n w next = rw (next, file_rounds) refl

  -- The rounds over the lines in front, and those that follow.
  file_rounds-lines :
      (ls : List CsvLine) (more : List (List ℕ)) (n : ℕ) (w : W)
      → unread w ≡ texts ls ++ more
      → AllCsvLines ls
      → (w1 : W) × (file_rounds dgrams files (length ls + n) telem file w
          ≡ file_rounds dgrams files n telem file w1)
        × (sent w1 ≡ sent w ++ datagrams ls)
        × (unread w1 ≡ more)
  unfolding file_rounds
  file_rounds-lines [] more n w e all = (
    w,
    ap (λ k. file_rounds dgrams files k telem file w) (zero_add n),
    sym (append-nil (sent w)),
    e,
  )
  file_rounds-lines (l ∷ ls) more n w e all =
      let (next, sent1, left) = file_round-line l (texts ls ++ more) w e all.0 in
      let w1 : W = (file_round dgrams files telem file w).1 in
      let (w2, rounds, sent2, left2) = file_rounds-lines ls more n w1 left all.1 in
      (
        w2,
        ap (λ k. file_rounds dgrams files k telem file w) (suc_add (length ls) n)
            ∙ file_rounds-again (length ls + n) w next
            ∙ rounds,
        sent2
            ∙ ap (λ s. s ++ datagrams ls) sent1
            ∙ append_assoc (sent w) (datagram l ∷ []) (datagrams ls),
        left2,
      )

  -- Over a file that reads without errors, with lines of two numbers each in front, as many rounds as there are
  -- lines send one datagram for every line, in order, which holds the two numbers as the time and the pressure of
  -- transducer 1, and then everything is read.
  pub replay-publishes :
      (ls : List CsvLine) (w : W)
      → unread w ≡ texts ls
      → AllCsvLines ls
      → let r = file_rounds dgrams files (length ls) telem file w in
        (r.0 ≡ again) × (sent r.1 ≡ sent w ++ datagrams ls) × (unread r.1 ≡ [])
  unfolding file_rounds
  replay-publishes ls w e all =
      let (w1, rounds, sent1, left) =
        file_rounds-lines ls [] 0 w (e ∙ sym (append-nil (texts ls))) all in
      rw (sym (add_zero (length ls))) (rw rounds (refl, sent1, left))

  -- Where such lines are followed by one without a comma, the round behind them passes NULL to `strtoul`; up to
  -- then the lines in front were sent.
  pub replay-crashes :
      (ls : List CsvLine) (bad : List ℕ) (more : List (List ℕ)) (n : ℕ) (w : W)
      → unread w ≡ texts ls ++ bad ∷ more
      → AllCsvLines ls
      → length bad < 8192
      → ¬ HasComma bad
      → let r = file_rounds dgrams files (length ls + suc n) telem file w in
        (r.0 ≡ crash) × (sent r.1 ≡ sent w ++ datagrams ls)
  unfolding file_rounds
  replay-crashes ls bad more n w e all short absent =
      let (w1, rounds, sent1, left) = file_rounds-lines ls (bad ∷ more) (suc n) w e all in
      let (next, same) = file_round-crash bad more w1 left short absent in
      rw rounds (rw (next, file_rounds) (refl, same ∙ sent1))
