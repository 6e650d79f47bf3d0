-- ===== src/Telemetry/Updates/Known.antt =====
-- What is known of each field of the pad state between the controller thread (pad_server/src/state.c) and the
-- telemetry thread (pad_server/src/telemetry.c), and who holds the mutex.
use hysim.Base.{ℕ, ◌≤◌, ◌<◌, ◌≡◌, refl, ◌⊎◌, inl, inr, Bool, true, false, some}
use hysim.Telemetry.Updates.{
  num_fields, Holder, free, by_writer, by_sender, WriterPc, idle, dirty, locked, flagged, signalled,
  SenderPc, at_lock, testing, waiting, woken, reading, sent, cleared, System, wake,
}

abbrev pub in_writer : WriterPc → Bool
in_writer idle = false
in_writer dirty = false
in_writer locked = true
in_writer flagged = true
in_writer signalled = true

abbrev pub in_sender : SenderPc → Bool
in_sender at_lock = false
in_sender (testing b) = true
in_sender waiting = false
in_sender (woken b) = false
in_sender (reading k) = true
in_sender sent = true
in_sender cleared = true

abbrev pub is_writer : Holder → Bool
is_writer free = false
is_writer by_writer = true
is_writer by_sender = false

abbrev pub is_sender : Holder → Bool
is_sender free = false
is_sender by_writer = false
is_sender by_sender = true

-- A change that is still to be signalled.
abbrev pub is_dirty : WriterPc → Bool
is_dirty dirty = true
is_dirty locked = true
is_dirty _ = false

-- The last datagram shows the field as it is, if it ever changed.
abbrev pub IsDelivered : System → ℕ → Type 0
IsDelivered s i = (s.changed i ≡ false) ⊎ (s.out i ≡ some (s.value i))

-- What is known of a field: while fields are read, those read so far are what they were read as.
abbrev pub IsKnown : SenderPc → System → ℕ → Type 0
IsKnown (reading k) s i = (k ≤ i) ⊎ ((s.buf i ≡ some (s.value i)) ⊎ (is_dirty s.writer ≡ true))
IsKnown sent s i = IsDelivered s i ⊎ (is_dirty s.writer ≡ true)
IsKnown _ s i = IsDelivered s i ⊎ ((is_dirty s.writer ≡ true) ⊎ (s.recorded ≡ true))

abbrev pub IsBounded : SenderPc → Type 0
IsBounded (reading k) = k ≤ num_fields
IsBounded _ = Unit {0}

pub record Inv (s : System) : Type 0 where
  pub writer_holds : in_writer s.writer ≡ is_writer s.mutex
  pub sender_holds : in_sender s.sender ≡ is_sender s.mutex
  pub in_range : IsBounded s.sender
  pub known : (i : ℕ) → i < num_fields → (s.faulty ≡ true) ⊎ IsKnown s.sender s i

pub map_right : {A B C : Type 0} → (B → C) → A ⊎ B → A ⊎ C
map_right f (inl a) = inl a
map_right f (inr b) = inr (f b)

pub dirty-IsKnown : (pc : SenderPc) (s : System) (i : ℕ) → is_dirty s.writer ≡ true → IsKnown pc s i
dirty-IsKnown at_lock s i e = inr (inl e)
dirty-IsKnown (testing b) s i e = inr (inl e)
dirty-IsKnown waiting s i e = inr (inl e)
dirty-IsKnown (woken b) s i e = inr (inl e)
dirty-IsKnown (reading k) s i e = inr (inr e)
dirty-IsKnown sent s i e = inr e
dirty-IsKnown cleared s i e = inr (inl e)

pub recorded-IsKnown :
    (pc : SenderPc) (s : System) (i : ℕ) → in_sender pc ≡ false → s.recorded ≡ true → IsKnown pc s i
recorded-IsKnown at_lock s i out e = inr (inr e)
recorded-IsKnown (testing b) s i out e = inr (inr e)
recorded-IsKnown waiting s i out e = inr (inr e)
recorded-IsKnown (woken b) s i out e = inr (inr e)
recorded-IsKnown (reading k) s i out e = cc
recorded-IsKnown sent s i out e = cc
recorded-IsKnown cleared s i out e = cc

pub excludes : (m : Holder) → is_writer m ≡ true → is_sender m ≡ false
excludes free e = refl
excludes by_writer e = refl
excludes by_sender e = cc

pub included : (m : Holder) → is_sender m ≡ true → is_writer m ≡ false
included free e = refl
included by_writer e = cc
included by_sender e = refl

pub skip_middle : {A B C D : Type 0} → (¬ B) → A ⊎ (B ⊎ C) → A ⊎ (D ⊎ C)
skip_middle never (inl a) = inl a
skip_middle never (inr (inl b)) = absurd (never b)
skip_middle never (inr (inr c)) = inr (inr c)

pub skip_last : {A B D : Type 0} → (¬ B) → A ⊎ B → A ⊎ D
skip_last never (inl a) = inl a
skip_last never (inr b) = absurd (never b)

pub skip_end : {A B C D : Type 0} → (¬ C) → A ⊎ (B ⊎ C) → A ⊎ (B ⊎ D)
skip_end never (inl a) = inl a
skip_end never (inr (inl b)) = inr (inl b)
skip_end never (inr (inr c)) = absurd (never c)

-- With nothing left to signal, the writer may go on and the mutex change hands.
pub calm-IsKnown :
    (pc : SenderPc) (s : System) (i : ℕ) (w : WriterPc) (m : Holder) (q : SenderPc)
    → is_dirty s.writer ≡ false
    → IsKnown pc s i
    → IsKnown pc (record s { writer = w; mutex = m; sender = q }) i
calm-IsKnown at_lock s i w m q e k = skip_middle (λ d. cc) k
calm-IsKnown (testing b) s i w m q e k = skip_middle (λ d. cc) k
calm-IsKnown waiting s i w m q e k = skip_middle (λ d. cc) k
calm-IsKnown (woken b) s i w m q e k = skip_middle (λ d. cc) k
calm-IsKnown (reading n) s i w m q e k = skip_end (λ d. cc) k
calm-IsKnown sent s i w m q e k = skip_last (λ d. cc) k
calm-IsKnown cleared s i w m q e k = skip_middle (λ d. cc) k

pub wake-IsKnown : (pc : SenderPc) (s : System) (i : ℕ) → IsKnown pc s i → IsKnown (wake pc) s i
wake-IsKnown at_lock s i k = k
wake-IsKnown (testing b) s i k = k
wake-IsKnown waiting s i k = k
wake-IsKnown (woken b) s i k = k
wake-IsKnown (reading n) s i k = k
wake-IsKnown sent s i k = k
wake-IsKnown cleared s i k = k

pub in_sender-wake : (pc : SenderPc) → in_sender (wake pc) ≡ in_sender pc
in_sender-wake at_lock = refl
in_sender-wake (testing b) = refl
in_sender-wake waiting = refl
in_sender-wake (woken b) = refl
in_sender-wake (reading n) = refl
in_sender-wake sent = refl
in_sender-wake cleared = refl
