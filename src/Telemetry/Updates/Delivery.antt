-- ===== src/Telemetry/Updates/Delivery.antt =====
-- What the telemetry thread (pad_server/src/telemetry.c) shows of the changes that the controller thread
-- signals (pad_server/src/state.c).
use hysim.Base.{
  ℕ, zero, suc, ◌+◌, ◌-◌, ◌≤◌, ◌<◌, ◌≡◌, refl, Bool-cases, sym, subst, ◌∙◌, ap, ◌⊎◌, inl, inr, Bool,
  true, false, some, ◌==◌, arith,
}
use hysim.Telemetry.Updates.{
  num_fields, Holder, free, by_writer, by_sender, idle, SenderPc, at_lock, testing, waiting, woken,
  reading, sent, cleared, System, update, SenderStep, Reach,
}
use hysim.Telemetry.Updates.Known.{
  in_writer, in_sender, is_writer, is_sender, is_dirty, IsDelivered, IsKnown, IsBounded, Inv,
}
use hysim.Telemetry.Updates.Fresh.{Reach-Inv, read_same, read_again}

abbrev pub is_reading : SenderPc → Bool
is_reading (reading k) = true
is_reading _ = false

resting-IsDelivered :
    (pc : SenderPc) (s : System) (i : ℕ)
    → is_reading pc ≡ false
    → is_dirty s.writer ≡ false
    → s.recorded ≡ false
    → IsKnown pc s i
    → IsDelivered s i
resting-IsDelivered at_lock s i still clean flag (inl d) = d
resting-IsDelivered at_lock s i still clean flag (inr (inl e)) = cc
resting-IsDelivered at_lock s i still clean flag (inr (inr e)) = cc
resting-IsDelivered (testing b) s i still clean flag (inl d) = d
resting-IsDelivered (testing b) s i still clean flag (inr (inl e)) = cc
resting-IsDelivered (testing b) s i still clean flag (inr (inr e)) = cc
resting-IsDelivered waiting s i still clean flag (inl d) = d
resting-IsDelivered waiting s i still clean flag (inr (inl e)) = cc
resting-IsDelivered waiting s i still clean flag (inr (inr e)) = cc
resting-IsDelivered (woken b) s i still clean flag (inl d) = d
resting-IsDelivered (woken b) s i still clean flag (inr (inl e)) = cc
resting-IsDelivered (woken b) s i still clean flag (inr (inr e)) = cc
resting-IsDelivered sent s i still clean flag (inl d) = d
resting-IsDelivered sent s i still clean flag (inr e) = cc
resting-IsDelivered cleared s i still clean flag (inl d) = d
resting-IsDelivered cleared s i still clean flag (inr (inl e)) = cc
resting-IsDelivered cleared s i still clean flag (inr (inr e)) = cc
resting-IsDelivered (reading k) s i still clean flag known = cc

-- What is known where nothing failed.
whole-IsKnown :
    (s : System) (i : ℕ)
    → s.faulty ≡ false
    → (s.faulty ≡ true) ⊎ IsKnown s.sender s i
    → IsKnown s.sender s i
whole-IsKnown s i e (inl f) = cc
whole-IsKnown s i e (inr k) = k

-- In every reachable state where the controller thread is at rest, the flag is down and the telemetry thread is
-- not reading fields, and where neither a read lock nor the sending failed since it last began to read:
-- every field that ever changed is in the last datagram sent as it is now.
pub Reach-IsDelivered :
    (value : ℕ → ℕ) (s : System) (i : ℕ)
    → Reach value s
    → s.writer ≡ idle
    → s.recorded ≡ false
    → is_reading s.sender ≡ false
    → s.faulty ≡ false
    → i < num_fields
    → IsDelivered s i
Reach-IsDelivered value s i r rest flag still whole h =
    resting-IsDelivered s.sender s i still (ap is_dirty rest) flag
      (whole-IsKnown s i whole ((Reach-Inv value r).known i h))

one_outside :
    (m : Holder) (a b : Bool) → a ≡ is_writer m → b ≡ is_sender m → (a ≡ false) ⊎ (b ≡ false)
one_outside free a b e f = inl e
one_outside by_writer a b e f = inr f
one_outside by_sender a b e f = inl e

-- In every reachable state, one of the two threads is outside its critical section.
pub Reach-excludes :
    (value : ℕ → ℕ) (s : System)
    → Reach value s
    → (in_writer s.writer ≡ false) ⊎ (in_sender s.sender ≡ false)
Reach-excludes value s r =
    let inv = Reach-Inv value r in
    one_outside s.mutex (in_writer s.writer) (in_sender s.sender) inv.writer_holds inv.sender_holds

-- Steps of the telemetry thread alone.
pub data SenderRun : System → System → Type 0 where
  done : {s : System} → SenderRun s s
  next : {s t u : System} → SenderStep s t → SenderRun t u → SenderRun s u

-- The last datagram shows the first n fields at these values.
abbrev pub IsShown : System → (ℕ → ℕ) → ℕ → Type 0
IsShown s value zero = Unit {0}
IsShown s value (suc n) = IsShown s value n × (s.out n ≡ some (value n))

all-IsShown :
    (s : System) (value : ℕ → ℕ) (n : ℕ)
    → ((i : ℕ) → i < n → s.out i ≡ some (value i))
    → IsShown s value n
all-IsShown s value zero each = tt
all-IsShown s value (suc n) each =
    (all-IsShown s value n (λ i h. each i (omega arith)), each n (omega arith))

abbrev pub Delivers : System → Type 0
Delivers s = (t : System) × SenderRun s t × IsShown t s.value num_fields

-- A step that leaves the values goes in front of a run.
after : (s s' : System) → SenderStep s s' → s'.value ≡ s.value → Delivers s' → Delivers s
after s s' st same (t, run, ok) =
    (t, SenderRun.next st run, subst (λ (v : ℕ → ℕ). IsShown t v num_fields) same ok)

got_more :
    (s : System) (i k : ℕ)
    → i ≤ k
    → (i < k → s.buf i ≡ some (s.value i))
    → update s.buf k (some (s.value k)) i ≡ some (s.value i)
got_more s i k le got = elim (Bool-cases (i == k)) [
  | inl e ↦ read_same s i k e
  | inr e ↦ read_again s i k (got (ground arith))
]

-- The rest of the fields is read, and the datagram sent.
read_all :
    (n k : ℕ) (s : System)
    → k + n ≡ num_fields
    → s.sender ≡ reading k
    → ((i : ℕ) → i < k → s.buf i ≡ some (s.value i))
    → Delivers s
read_all zero k s e at_k got =
    let end : s.sender ≡ reading num_fields = at_k ∙ ap reading (omega arith) in
    let t : System = record s { sender = sent; out = s.buf } in
    (
      t,
      SenderRun.next (SenderStep.send end) SenderRun.done,
      all-IsShown t s.value num_fields (λ i h. got i (omega arith)),
    )
read_all (suc n) k s e at_k got =
    let s' : System = record s {
      sender = reading (suc k);
      buf = update s.buf k (some (s.value k));
    } in
    let lt : k < num_fields = omega arith in
    let more : suc k + n ≡ num_fields = omega arith in
    let got' : (i : ℕ) → i < suc k → s'.buf i ≡ some (s.value i) =
      λ i h. got_more s i k (omega arith) (got i) in
    after s s' (SenderStep.read k at_k lt) refl (read_all n (suc k) s' more refl got')

from_start : (s : System) → s.sender ≡ reading 0 → Delivers s
from_start s e = read_all num_fields 0 s (omega arith) e (λ i h. absurd (omega arith))

from_testing_true : (s : System) → s.sender ≡ testing true → Delivers s
from_testing_true s e =
    let s' : System = record s { sender = reading 0; faulty = false } in
    after s s' (SenderStep.time_out e) refl (from_start s' refl)

from_woken_true : (s : System) → s.sender ≡ woken true → s.mutex ≡ free → Delivers s
from_woken_true s e f =
    let s' : System = record s { sender = testing true; mutex = by_sender } in
    after s s' (SenderStep.take_lock_again true e f) refl (from_testing_true s' refl)

-- No signal comes, and the wait times out.
from_waiting : (s : System) → s.sender ≡ waiting → s.mutex ≡ free → Delivers s
from_waiting s e f =
    let s' : System = record s { sender = woken true } in
    after s s' (SenderStep.wake_up true e) refl (from_woken_true s' refl f)

from_testing_false : (s : System) → s.sender ≡ testing false → Delivers s
from_testing_false s e =
    let s1 : System = record s { sender = reading 0; faulty = false } in
    let s2 : System = record s { sender = waiting; mutex = free } in
    elim (Bool-cases s.recorded) [
      | inl up ↦ after s s1 (SenderStep.see_flag false e up) refl (from_start s1 refl)
      | inr down ↦ after s s2 (SenderStep.wait e down) refl (from_waiting s2 refl refl)
    ]

from_woken_false : (s : System) → s.sender ≡ woken false → s.mutex ≡ free → Delivers s
from_woken_false s e f =
    let s' : System = record s { sender = testing false; mutex = by_sender } in
    after s s' (SenderStep.take_lock_again false e f) refl (from_testing_false s' refl)

from_lock : (s : System) → s.sender ≡ at_lock → s.mutex ≡ free → Delivers s
from_lock s e f =
    let s' : System = record s { sender = testing false; mutex = by_sender } in
    after s s' (SenderStep.take_lock e f) refl (from_testing_false s' refl)

from_cleared : (s : System) → s.sender ≡ cleared → Delivers s
from_cleared s e =
    let s' : System = record s { sender = at_lock; mutex = free } in
    after s s' (SenderStep.release e) refl (from_lock s' refl refl)

from_sent : (s : System) → s.sender ≡ sent → Delivers s
from_sent s e =
    let s' : System = record s { sender = cleared; recorded = false } in
    after s s' (SenderStep.reset e) refl (from_cleared s' refl)

nobody_holds : (m : Holder) → is_writer m ≡ false → is_sender m ≡ false → m ≡ free
nobody_holds free a b = refl
nobody_holds by_writer a b = cc
nobody_holds by_sender a b = cc

released : (s : System) → Inv s → s.writer ≡ idle → in_sender s.sender ≡ false → s.mutex ≡ free
released s inv rest out =
    nobody_holds s.mutex (sym inv.writer_holds ∙ ap in_writer rest) (sym inv.sender_holds ∙ out)

-- The datagram begun is finished, whatever it shows, and another one made.
from_reading : (n k : ℕ) (s : System) → k + n ≡ num_fields → s.sender ≡ reading k → Delivers s
from_reading zero k s e at_k =
    let s' : System = record s { sender = sent; out = s.buf } in
    after s s' (SenderStep.send (at_k ∙ ap reading (omega arith))) refl (from_sent s' refl)
from_reading (suc n) k s e at_k =
    let s' : System = record s {
      sender = reading (suc k);
      buf = update s.buf k (some (s.value k));
    } in
    let lt : k < num_fields = omega arith in
    let more : suc k + n ≡ num_fields = omega arith in
    after s s' (SenderStep.read k at_k lt) refl (from_reading n (suc k) s' more refl)

from_anywhere : (pc : SenderPc) (s : System) → s.sender ≡ pc → Inv s → s.writer ≡ idle → Delivers s
from_anywhere at_lock s e inv rest = from_lock s e (released s inv rest (ap in_sender e))
from_anywhere (testing true) s e inv rest = from_testing_true s e
from_anywhere (testing false) s e inv rest = from_testing_false s e
from_anywhere waiting s e inv rest = from_waiting s e (released s inv rest (ap in_sender e))
from_anywhere (woken true) s e inv rest = from_woken_true s e (released s inv rest (ap in_sender e))
from_anywhere (woken false) s e inv rest =
    from_woken_false s e (released s inv rest (ap in_sender e))
from_anywhere (reading k) s e inv rest =
    let bound : k ≤ num_fields = subst IsBounded e inv.in_range in
    let left : k + (num_fields - k) ≡ num_fields = omega arith in
    from_reading (num_fields - k) k s left e
from_anywhere sent s e inv rest = from_sent s e
from_anywhere cleared s e inv rest = from_cleared s e

-- From every reachable state where the controller thread is at rest, the telemetry thread can by steps of its
-- own, without any signal, send a datagram that shows all the fields as they are.
pub Reach-Delivers : (value : ℕ → ℕ) (s : System) → Reach value s → s.writer ≡ idle → Delivers s
Reach-Delivers value s r rest = from_anywhere s.sender s refl (Reach-Inv value r) rest
