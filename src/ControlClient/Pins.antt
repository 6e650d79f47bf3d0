-- ===== src/ControlClient/Pins.antt =====
-- The pins that control_client/src/control_client_main.c registers for signals.
use Prim.Native.String.{String}
use mathlib.Core.List.{append_assoc, append-nil}
use hysim.Base.{
  ℕ, ◌+◌, ◌≡◌, refl, ◌∙◌, sym, ap, true, false, inl, inr, ◌⊎◌, Option, none, some, List, [], ◌∷◌,
  ◌++◌, ℤ, arith, is_negative, if◌then◌else◌,
}
use hysim.Os.{Devices, Signals}
use hysim.ControlClient.Switches.{Switch}
use hysim.ControlClient.Panel.{gpio_dev}
use hysim.ControlClient.Loop.{register_pin, register_pins}

abbrev pub pin_of : ℕ → Option String → List ℕ
pin_of i none = []
pin_of i (some dev) = i ∷ []

-- The switches that have a pin, by their index.
abbrev pub pins_of : ℕ → List Switch → List ℕ
pins_of i [] = []
pins_of i (sw ∷ sws) = pin_of i (gpio_dev sw) ++ pins_of (i + 1) sws

-- The switches registered so far; files add none.
pub record Registry {W : Type 0} (os : Devices W) (signals : Signals W) : Type 0 where
  pub registered : W → List ℕ
  pub open_registered : (dev : String) (w : W) → registered (os.open_dev dev w).1 ≡ registered w
  pub close_registered : (fd : ℤ) (w : W) → registered (os.close fd w).1 ≡ registered w
  pub register_registered :
      (fd : ℤ) (i : ℕ) (w : W)
      → let (err, w1) = signals.gpioc_register fd i w in
        registered w1 ≡ registered w ++ (if is_negative err then [] else i ∷ [])

module _ {W : Type 0} (os : Devices W) (signals : Signals W) (registry : Registry os signals) where
  open registry use {registered, open_registered, close_registered, register_registered}

  -- One pin: registered, or not, and then the process is to exit.
  register_pin-registered :
      (i : ℕ) (dev : Option String) (w : W)
      → let r = register_pin os signals i dev w in
        ((r.0 ≡ true) × (registered r.1 ≡ registered w ++ pin_of i dev))
        ⊎ ((r.0 ≡ false) × (pin_of i dev ≡ i ∷ []) × (registered r.1 ≡ registered w))
  unfolding register_pin
  register_pin-registered i none w = inl (refl, sym (append-nil (registered w)))
  register_pin-registered i (some dev) w =
      let (fd, w1) = os.open_dev dev w in
      let (err, w2) = signals.gpioc_register fd i w1 in
      ground (
        arith,
        open_registered dev w,
        register_registered fd i w1,
        close_registered fd w2,
        append-nil (registered w1),
      )

  -- The registration succeeds, and every switch with a pin is registered, in order; or it fails, and of those
  -- switches only some that come first are registered, up to one that could not be.
  pub register_pins-registered :
      (i : ℕ) (sws : List Switch) (w : W)
      → let r = register_pins os signals i sws w in
        ((r.0 ≡ true) × (registered r.1 ≡ registered w ++ pins_of i sws))
        ⊎ ((r.0 ≡ false)
            × (xs : List ℕ) × (y : ℕ) × (ys : List ℕ) × (pins_of i sws ≡ xs ++ y ∷ ys)
            × (registered r.1 ≡ registered w ++ xs))
  unfolding register_pins
  register_pins-registered i [] w = inl (refl, sym (append-nil (registered w)))
  register_pins-registered i (sw ∷ sws) w =
      let (registered_one, w1) = register_pin os signals i (gpio_dev sw) w in
      elim (register_pin-registered i (gpio_dev sw) w) [
        | inr (failed, pin, same) ↦ inr (
          rw failed refl,
          [],
          i,
          pins_of (i + 1) sws,
          ap (λ l. l ++ pins_of (i + 1) sws) pin,
          rw failed (same ∙ sym (append-nil (registered w))),
        )
        | inl (done, one) ↦ elim (register_pins-registered (i + 1) sws w1) [
          | inl (all, more) ↦ inl (
            rw done all,
            rw done (
                more
                ∙ ap (λ l. l ++ pins_of (i + 1) sws) one
                ∙ append_assoc (registered w) (pin_of i (gpio_dev sw)) (pins_of (i + 1) sws)),
          )
          | inr (failed, xs, y, ys, split, some_more) ↦ inr (
            rw done failed,
            pin_of i (gpio_dev sw) ++ xs,
            y,
            ys,
            ap (λ l. pin_of i (gpio_dev sw) ++ l) split
                ∙ sym (append_assoc (pin_of i (gpio_dev sw)) xs (y ∷ ys)),
            rw done (
                some_more
                ∙ ap (λ l. l ++ xs) one
                ∙ append_assoc (registered w) (pin_of i (gpio_dev sw)) xs),
          )
        ]
      ]
