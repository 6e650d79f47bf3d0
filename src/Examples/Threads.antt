-- ===== src/Examples/Threads.antt =====
-- The controller thread changes the arming level to 1, and the telemetry thread sends it.
use hysim.Base.{ℕ, zero, suc, ◌≤◌, ◌≡◌, refl, true, false, none, some, arith}
use hysim.Telemetry.Updates.{
  num_fields, by_sender, woken, reading, cleared, System, update, started, Reach, WriterStep,
  SenderStep,
}
use hysim.Telemetry.Updates.Known.{IsDelivered}
use hysim.Telemetry.Updates.Delivery.{Delivers, Reach-IsDelivered, Reach-Delivers}

abbrev disarmed : ℕ → ℕ
disarmed i = 0

-- The level is field 0.
abbrev armed_and_signalled : System
armed_and_signalled = record (started disarmed) {
  value = update disarmed 0 1;
  changed = update (λ i. false) 0 true;
  recorded = true;
  sender = woken false;
}

-- The telemetry thread waits, the controller changes the level and signals it.
armed-Reach : Reach disarmed armed_and_signalled
armed-Reach =
    Reach.by_controller
      (Reach.by_controller
        (Reach.by_controller
          (Reach.by_controller
            (Reach.by_controller
              (Reach.by_telemetry (Reach.by_telemetry Reach.start (SenderStep.take_lock refl refl))
                (SenderStep.wait refl refl))
              (WriterStep.write 0 1 (omega arith) refl))
            (WriterStep.lock refl refl))
          (WriterStep.set_flag refl))
        (WriterStep.signal refl))
      (WriterStep.unlock refl)

abbrev reading_at : ℕ → System
reading_at zero = record armed_and_signalled { sender = reading 0; mutex = by_sender }
reading_at (suc k) = record (reading_at k) {
  sender = reading (suc k);
  buf = update (reading_at k).buf k (some ((reading_at k).value k));
}

reading_at-sender : (k : ℕ) → (reading_at k).sender ≡ reading k
reading_at-sender zero = refl
reading_at-sender (suc k) = refl

reading-Reach : (k : ℕ) → k ≤ num_fields → Reach disarmed (reading_at k)
reading-Reach zero h =
    Reach.by_telemetry (Reach.by_telemetry armed-Reach (SenderStep.take_lock_again false refl refl))
      (SenderStep.see_flag false refl refl)
reading-Reach (suc k) h =
    Reach.by_telemetry (reading-Reach k (omega arith))
      (SenderStep.read k (reading_at-sender k) (omega arith))

abbrev delivered : System
delivered = record (reading_at num_fields) {
  out = (reading_at num_fields).buf;
  recorded = false;
  sender = cleared;
}

delivered-Reach : Reach disarmed delivered
delivered-Reach =
    Reach.by_telemetry
      (Reach.by_telemetry (reading-Reach num_fields (omega arith)) (SenderStep.send refl))
      (SenderStep.reset refl)

Reach-IsDelivered_example : IsDelivered delivered 0
Reach-IsDelivered_example =
    Reach-IsDelivered disarmed delivered 0 delivered-Reach refl refl refl refl (omega arith)

level_shown : delivered.out 0 ≡ some 1
level_shown = refl

Reach-Delivers_example : Delivers armed_and_signalled
Reach-Delivers_example = Reach-Delivers disarmed armed_and_signalled armed-Reach refl

-- The sending fails, and the flag is reset.
abbrev lost : System
lost = record (reading_at num_fields) { sender = cleared; recorded = false; faulty = true }

lost-Reach : Reach disarmed lost
lost-Reach =
    Reach.by_telemetry
      (Reach.by_telemetry (reading-Reach num_fields (omega arith)) (SenderStep.send_fails refl))
      (SenderStep.reset refl)

level_not_shown : lost.out 0 ≡ none
level_not_shown = refl
