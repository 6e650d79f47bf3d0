-- ===== src/ControlClient/Keys.antt =====
-- What a key of the desktop build does (control_client/src/control_client_main.c).
use hysim.Base.{
  ℕ, ◌≡◌, refl, ◌∙◌, sym, ap, true, false, not, List, [], ◌∷◌, ◌++◌, arith, ◌==◌, get_or,
  if◌then◌else◌,
}
use hysim.Os.{Sockets}
use hysim.ControlClient.{PadLink}
use hysim.ControlClient.Switches.{Switch}
use hysim.ControlClient.Panel.{flip_switch, is_last, no_switch, press_key}

-- No command has this key.
abbrev pub HasNo : ℕ → List (ℕ × ℕ) → Type 0
HasNo key [] = Unit {0}
HasNo key ((k, i) ∷ cs) = ((k == key) ≡ false) × HasNo key cs

same_key : (key : ℕ) → (key == key) ≡ true
same_key key = ground arith

is_last-append : {A : Type 0} (xs : List A) (x : A) → is_last (xs ++ x ∷ []) ≡ false
is_last-append [] x = refl
is_last-append (y ∷ ys) x = refl

module _ {W : Type 0} (net : Sockets W) (pad : PadLink) where
  -- The switch at an index, turned over.
  abbrev pub turn_over : ℕ → List Switch × W → List Switch × W
  turn_over i p = (flip_switch net pad i (not (get_or p.0 i no_switch).state) p).1

  press_key-HasNo :
      (key : ℕ) (cs : List (ℕ × ℕ)) (p : List Switch × W)
      → HasNo key cs
      → (press_key net pad key cs p).1 ≡ p
  unfolding press_key
  press_key-HasNo key [] p no_key = refl
  press_key-HasNo key ((k, i) ∷ cs) p no_key =
      rw (no_key.0, press_key) (press_key-HasNo key cs p no_key.1)

  press_key-effect :
      (key i : ℕ) (before after : List (ℕ × ℕ)) (p : List Switch × W)
      → HasNo key before
      → HasNo key after
      → (press_key net pad key (before ++ (key, i) ∷ after) p).1 ≡ turn_over i p
  unfolding press_key
  press_key-effect key i [] after p b a =
      rw (same_key key, press_key) (press_key-HasNo key after (turn_over i p) a)
  press_key-effect key i ((k, j) ∷ before) after p b a =
      rw (b.0, press_key) (press_key-effect key i before after p b.1 a)

  press_key-invalid :
      (key k i : ℕ) (before : List (ℕ × ℕ)) (p : List Switch × W)
      → (press_key net pad key (before ++ (k, i) ∷ []) p).0 ≡ not (k == key)
  unfolding press_key
  press_key-invalid key k i [] p = ground arith
  press_key-invalid key k i ((k0, j) ∷ before) p =
      let p1 : List Switch × W = if k0 == key then turn_over j p else p in
      let later = press_key-invalid key k i before p1 in
      rw (is_last-append before (k, i), later) (ground arith)

  -- A key that one command of the table has turns its switch over and does nothing else. Whatever the table,
  -- the key is called invalid exactly where it is not the key of the last command.
  pub press_key-turns :
      (key i k j : ℕ) (before after cs : List (ℕ × ℕ)) (p : List Switch × W)
      → HasNo key before
      → HasNo key after
      → before ++ (key, i) ∷ after ≡ cs ++ (k, j) ∷ []
      → let r = press_key net pad key (cs ++ (k, j) ∷ []) p in
        (r.1 ≡ turn_over i p) × (r.0 ≡ not (k == key))
  press_key-turns key i k j before after cs p b a same = (
    ap (λ t. (press_key net pad key t p).1) (sym same) ∙ press_key-effect key i before after p b a,
    press_key-invalid key k j cs p,
  )
