-- ===== src/Base/Monad.antt =====
-- Code that acts on a state `S` and returns an `A`, with the notation of `do` blocks.

abbrev pub Run : Type 0 → Type 0 → Type 0
Run S A = S → A × S

infixl 5 ◌>>=◌ ◌>>◌
abbrev pub ◌>>=◌ : {S A B : Type 0} → Run S A → (A → Run S B) → Run S B
◌>>=◌ m f s = f (m s).0 (m s).1

-- A result that the source ignores.
abbrev pub ◌>>◌ : {S A B : Type 0} → Run S A → Run S B → Run S B
◌>>◌ m k s = k (m s).1

abbrev pub return : {S A : Type 0} → A → Run S A
return a s = (a, s)
