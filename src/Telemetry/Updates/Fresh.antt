-- ===== src/Telemetry/Updates/Fresh.antt =====
-- Every step of the controller thread (pad_server/src/state.c) and of the telemetry thread
-- (pad_server/src/telemetry.c) keeps the invariant.
use hysim.Base.{
  ℕ, suc, ◌<◌, ◌≡◌, refl, Bool-cases, sym, subst, ◌∙◌, ap, ◌⊎◌, inl, inr, true, false, some, ◌==◌,
  arith,
}
use hysim.Telemetry.Updates.{
  num_fields, free, idle, signalled, SenderPc, at_lock, testing, waiting, woken, reading, sent,
  cleared, System, update, wake, WriterStep, SenderStep, started, Reach,
}
use hysim.Telemetry.Updates.Known.{
  recorded-IsKnown, in_writer, in_sender, is_writer, is_sender, is_dirty, IsKnown, IsBounded, Inv,
  dirty-IsKnown, excludes, included, calm-IsKnown, wake-IsKnown, map_right, in_sender-wake,
}

wake-IsBounded : (pc : SenderPc) → IsBounded pc → IsBounded (wake pc)
wake-IsBounded at_lock h = h
wake-IsBounded (testing b) h = h
wake-IsBounded waiting h = h
wake-IsBounded (woken b) h = h
wake-IsBounded (reading n) h = h
wake-IsBounded sent h = h
wake-IsBounded cleared h = h

writer-Inv : {s t : System} → WriterStep s t → Inv s → Inv t
writer-Inv {s} (WriterStep.write i v lt e) inv = record {
  writer_holds = ground (arith, e, inv.writer_holds);
  sender_holds = inv.sender_holds;
  in_range = inv.in_range;
  known = λ j h. inr (dirty-IsKnown s.sender _ j refl);
}
writer-Inv {s} (WriterStep.write_more i v lt e) inv = record {
  writer_holds = inv.writer_holds;
  sender_holds = inv.sender_holds;
  in_range = inv.in_range;
  known = λ j h. inr (dirty-IsKnown s.sender _ j (ap is_dirty e));
}
writer-Inv {s} (WriterStep.lock e f) inv = record {
  writer_holds = refl;
  sender_holds = inv.sender_holds ∙ ap is_sender f;
  in_range = inv.in_range;
  known = λ j h. inr (dirty-IsKnown s.sender _ j refl);
}
writer-Inv {s} (WriterStep.set_flag e) inv = record {
  writer_holds = sym (ap in_writer e) ∙ inv.writer_holds;
  sender_holds = inv.sender_holds;
  in_range = inv.in_range;
  known = λ j h. inr (
      recorded-IsKnown s.sender _ j
        (inv.sender_holds ∙ excludes s.mutex (sym inv.writer_holds ∙ ap in_writer e)) refl);
}
writer-Inv {s} (WriterStep.signal e) inv = record {
  writer_holds = sym (ap in_writer e) ∙ inv.writer_holds;
  sender_holds = in_sender-wake s.sender ∙ inv.sender_holds;
  in_range = wake-IsBounded s.sender inv.in_range;
  known = λ j h.
      map_right
        (λ k.
          wake-IsKnown s.sender _ j
            (calm-IsKnown s.sender s j signalled s.mutex (wake s.sender) (ap is_dirty e) k))
        (inv.known j h);
}
writer-Inv {s} (WriterStep.unlock e) inv = record {
  writer_holds = refl;
  sender_holds = inv.sender_holds ∙ excludes s.mutex (sym inv.writer_holds ∙ ap in_writer e);
  in_range = inv.in_range;
  known = λ j h.
      map_right (calm-IsKnown s.sender s j idle free s.sender (ap is_dirty e)) (inv.known j h);
}

-- What is known, at a place of the telemetry thread that is given.
pub IsKnown-at :
    (s : System) (pc : SenderPc)
    → s.sender ≡ pc
    → Inv s
    → (i : ℕ) → i < num_fields
    → (s.faulty ≡ true) ⊎ IsKnown pc s i
IsKnown-at s pc e inv i h =
    subst (λ (q : SenderPc). (s.faulty ≡ true) ⊎ IsKnown q s i) e (inv.known i h)

-- The telemetry thread holds the mutex, or takes it.
held : (s : System) → in_sender s.sender ≡ true → Inv s → in_writer s.writer ≡ false
held s e inv = inv.writer_holds ∙ included s.mutex (sym inv.sender_holds ∙ e)

same_index : (i k : ℕ) → (i == k) ≡ true → i ≡ k
same_index i k e = ground arith

pub read_same :
    (s : System) (i k : ℕ)
    → (i == k) ≡ true
    → update s.buf k (some (s.value k)) i ≡ some (s.value i)
read_same s i k e = rw e (ap (λ (j : ℕ). some (s.value j)) (sym (same_index i k e)))

pub read_again :
    (s : System) (i k : ℕ)
    → s.buf i ≡ some (s.value i)
    → update s.buf k (some (s.value k)) i ≡ some (s.value i)
read_again s i k e = elim (Bool-cases (i == k)) [ inl f ↦ read_same s i k f | inr f ↦ rw f e ]

read_field :
    (s : System) (i k : ℕ)
    → IsKnown (reading k) s i
    → IsKnown
        (reading (suc k))
        (record s { sender = reading (suc k); buf = update s.buf k (some (s.value k)) })
        i
read_field s i k (inl le) = elim (Bool-cases (i == k)) [
  | inl e ↦ inr (inl (read_same s i k e))
  | inr e ↦ inl (ground arith)
]
read_field s i k (inr (inl e)) = inr (inl (read_again s i k e))
read_field s i k (inr (inr d)) = inr (inr d)

all_read :
    (s : System) (i : ℕ)
    → i < num_fields
    → IsKnown (reading num_fields) s i
    → IsKnown sent (record s { sender = sent; out = s.buf }) i
all_read s i h (inl le) = absurd (omega arith)
all_read s i h (inr (inl e)) = inl (inr e)
all_read s i h (inr (inr d)) = inr d

flag_reset :
    (s : System) (i : ℕ)
    → IsKnown sent s i
    → IsKnown cleared (record s { sender = cleared; recorded = false }) i
flag_reset s i (inl d) = inl d
flag_reset s i (inr d) = inr (inl d)

sender-Inv : {s t : System} → SenderStep s t → Inv s → Inv t
sender-Inv {s} (SenderStep.take_lock e f) inv = record {
  writer_holds = inv.writer_holds ∙ ap is_writer f;
  sender_holds = refl;
  in_range = tt;
  known = λ i h. IsKnown-at s at_lock e inv i h;
}
sender-Inv {s} (SenderStep.wait e f) inv = record {
  writer_holds = held s (ap in_sender e) inv;
  sender_holds = refl;
  in_range = tt;
  known = λ i h. IsKnown-at s (testing false) e inv i h;
}
sender-Inv {s} (SenderStep.wake_up b e) inv = record {
  writer_holds = inv.writer_holds;
  sender_holds = sym (ap in_sender e) ∙ inv.sender_holds;
  in_range = tt;
  known = λ i h. IsKnown-at s waiting e inv i h;
}
sender-Inv {s} (SenderStep.take_lock_again b e f) inv = record {
  writer_holds = inv.writer_holds ∙ ap is_writer f;
  sender_holds = refl;
  in_range = tt;
  known = λ i h. IsKnown-at s (woken b) e inv i h;
}
sender-Inv {s} (SenderStep.see_flag b e f) inv = record {
  writer_holds = inv.writer_holds;
  sender_holds = sym (ap in_sender e) ∙ inv.sender_holds;
  in_range = omega arith;
  known = λ i h. inr (inl (omega arith));
}
sender-Inv {s} (SenderStep.time_out e) inv = record {
  writer_holds = inv.writer_holds;
  sender_holds = sym (ap in_sender e) ∙ inv.sender_holds;
  in_range = omega arith;
  known = λ i h. inr (inl (omega arith));
}
sender-Inv {s} (SenderStep.read k e lt) inv = record {
  writer_holds = inv.writer_holds;
  sender_holds = sym (ap in_sender e) ∙ inv.sender_holds;
  in_range = lt;
  known = λ i h. map_right (read_field s i k) (IsKnown-at s (reading k) e inv i h);
}
sender-Inv {s} (SenderStep.read_fails k v e lt) inv = record {
  writer_holds = inv.writer_holds;
  sender_holds = sym (ap in_sender e) ∙ inv.sender_holds;
  in_range = omega arith;
  known = λ i h. inl refl;
}
sender-Inv {s} (SenderStep.send_fails e) inv = record {
  writer_holds = inv.writer_holds;
  sender_holds = sym (ap in_sender e) ∙ inv.sender_holds;
  in_range = tt;
  known = λ i h. inl refl;
}
sender-Inv {s} (SenderStep.send e) inv = record {
  writer_holds = inv.writer_holds;
  sender_holds = sym (ap in_sender e) ∙ inv.sender_holds;
  in_range = tt;
  known = λ i h. map_right (all_read s i h) (IsKnown-at s (reading num_fields) e inv i h);
}
sender-Inv {s} (SenderStep.reset e) inv = record {
  writer_holds = inv.writer_holds;
  sender_holds = sym (ap in_sender e) ∙ inv.sender_holds;
  in_range = tt;
  known = λ i h. map_right (flag_reset s i) (IsKnown-at s sent e inv i h);
}
sender-Inv {s} (SenderStep.release e) inv = record {
  writer_holds = held s (ap in_sender e) inv;
  sender_holds = refl;
  in_range = tt;
  known = λ i h. IsKnown-at s cleared e inv i h;
}

started-Inv : (value : ℕ → ℕ) → Inv (started value)
started-Inv value = record {
  writer_holds = refl;
  sender_holds = refl;
  in_range = tt;
  known = λ i h. inr (inl (inl refl));
}

pub Reach-Inv : (value : ℕ → ℕ) {s : System} → Reach value s → Inv s
Reach-Inv value Reach.start = started-Inv value
Reach-Inv value (Reach.by_controller r st) = writer-Inv st (Reach-Inv value r)
Reach-Inv value (Reach.by_telemetry r st) = sender-Inv st (Reach-Inv value r)
