-- ===== src/Base/Keys.antt =====
-- Keys that can be compared: texts, as lists of bytes, and numbers.
use Prim.Native.Nat.{ℕ}
use mathlib.Core.Path.{refl, ap₂}
use mathlib.Core.Logic.{ite, dite}
use mathlib.Core.Bool.{Bool, true, false, ◌||◌}
use mathlib.Core.List.{List, [], ◌∷◌}
use native.Mathlib.Decide.{ℕ_discrete}
use Prim.Native.String.{String}
use Prim.Native.Char.{code}

-- `std::string` and `std::string_view`: a sequence of bytes.
abbrev pub Text : Type 0
Text = List ℕ

-- A literal as bytes.
abbrev pub text : String → Text
text String.[] = []
text (String.◌∷◌ c s) = code c ∷ text s

pub record Eq {ℓ} (A : Type ℓ) : Type ℓ where
  pub dec : Discrete A

module _ {ℓ} {A : Type ℓ} ⦃e : Eq A⦄ where
  infix 50 ◌==◌
  abbrev pub ◌==◌ : A → A → Bool
  a == b = ite (e.dec a b) true false

  abbrev pub contains : List A → A → Bool
  contains [] a = false
  contains (x ∷ xs) a = a == x || contains xs a

text_dec : Discrete Text
text_dec [] [] = yes refl
text_dec [] (b ∷ bs) = no (λ p. cc)
text_dec (a ∷ as') [] = no (λ p. cc)
text_dec (a ∷ as') (b ∷ bs) =
    dite (ℕ_discrete a b)
      (λ p. dite (text_dec as' bs) (λ q. yes (ap₂ ◌∷◌ p q)) (λ n. no (λ r. n (cc))))
      (λ n. no (λ r. n (cc)))

-- Shut in proofs, where a split on `s == t` yields the equation or its negation.
instance unfoldable pub text_eq : Eq Text
unfolding text_dec
text_eq = record { dec = text_dec }

instance unfoldable pub nat_eq : Eq ℕ
unfolding ℕ_discrete
nat_eq = record { dec = ℕ_discrete }
