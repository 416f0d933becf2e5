-- ===== src/Example/Ids.antt =====
-- The ids that unit_test/main.cpp reads from paths.
use config_monitor.Base.{
  ℕ, zero, suc, ◌+◌, ◌-◌, ◌*◌, ◌/◌, ◌%◌, ◌≤◌, ◌<◌, ◌≡◌, ◌≢◌, refl, Bool, true, false, none, some,
  List, [], ◌∷◌, ◌++◌, arith, Text, All, All-append, drop, length, ltb, leb, Bool-cases, inl, inr,
  if◌then◌else◌,
}
use config_monitor.Zk.SplitPath.{count, find_last_of}
use config_monitor.Zk.Delete.{child_path}
use config_monitor.Example.{is_space, is_digit, scan, ullong_max, strtoull, last_name, parse_id}

append-nonempty : {A : Type 0} (xs : List A) (y : A) (ys : List A) → (xs ++ (y ∷ ys)) ≢ []
append-nonempty [] y ys h = ground arith
append-nonempty (x ∷ xs) y ys h = ground arith

-- A number in decimal, on fuel for its digits.
unfoldable pub decimal : ℕ → ℕ → Text
decimal zero n = []
decimal (suc fuel) n =
    let rest = decimal fuel (n / 10) in (if ltb n 10 then [] else rest) ++ ((b'0' + n % 10) ∷ [])

abbrev AreDigits : Text → Type 0
AreDigits = All (λ c. is_digit c ≡ true)

decimal-AreDigits : (fuel n : ℕ) → AreDigits (decimal fuel n)
unfolding decimal is_digit
decimal-AreDigits zero n = tt
decimal-AreDigits (suc fuel) n =
    All-append _ (if ltb n 10 then [] else decimal fuel (n / 10)) ((b'0' + n % 10) ∷ [])
      (front (ltb n 10) (decimal-AreDigits fuel (n / 10))) (ground arith, tt)
  where
    front :
        (b : Bool)
        → AreDigits (decimal fuel (n / 10))
        → AreDigits (if b then [] else decimal fuel (n / 10))
    front true d = tt
    front false d = d

scan-snoc :
    (v : ℕ) (xs : Text) (c : ℕ)
    → AreDigits xs
    → is_digit c ≡ true
    → scan v (xs ++ (c ∷ [])) ≡ scan v xs * 10 + (c - b'0')
unfolding scan
scan-snoc v [] c d h = ground arith
scan-snoc v (x ∷ xs) c (hx, d) h = ground (arith, scan-snoc (v * 10 + (x - b'0')) xs c d h)

scan-decimal : (fuel n : ℕ) → n < fuel → scan 0 (decimal fuel n) ≡ n
unfolding decimal scan
scan-decimal zero n h = absurd (omega arith)
scan-decimal (suc fuel) n h = elim (Bool-cases (ltb n 10)) [
  | inl e ↦ ground (arith, e, scan-snoc 0 [] (b'0' + n % 10) tt (ground arith))
  | inr e ↦ ground (
    arith,
    e,
    scan-snoc 0 (decimal fuel (n / 10)) (b'0' + n % 10) (decimal-AreDigits fuel (n / 10))
        (ground arith),
    scan-decimal fuel (n / 10) (ground (arith, e)),
  )
]

count-digits : (xs : Text) → AreDigits xs → count xs ≡ 0
unfolding count is_digit
count-digits [] d = refl
count-digits (x ∷ xs) (h, d) = ground (arith, count-digits xs d)

find_last_of-none : (xs : Text) → count xs ≡ 0 → find_last_of xs ≡ none
unfolding count find_last_of
find_last_of-none [] h = refl
find_last_of-none (x ∷ xs) h = ground (arith, find_last_of-none xs)

find_last_of-child :
    (p name : Text) → count name ≡ 0 → find_last_of (child_path p name) ≡ some (length p)
unfolding find_last_of
find_last_of-child [] name h = ground (arith, find_last_of-none name h)
find_last_of-child (x ∷ p) name h = ground (arith, find_last_of-child p name h)

drop-child : (p name : Text) → drop (suc (length p)) (child_path p name) ≡ name
drop-child [] name = refl
drop-child (x ∷ p) name = drop-child p name

-- Behind a digit, no white space and no sign is looked for.
strtoull-digits :
    (c : ℕ) (cs : Text)
    → is_digit c ≡ true
    → strtoull (c ∷ cs)
      ≡ some (if leb (scan 0 (c ∷ cs)) ullong_max then scan 0 (c ∷ cs) else ullong_max)
unfolding strtoull is_digit is_space
strtoull-digits c cs h = ground arith

last_name-child : (p name : Text) → count name ≡ 0 → last_name (child_path p name) ≡ name
unfolding last_name
last_name-child p name h = ground (arith, find_last_of-child p name h, drop-child p name)

decimal-child :
    (p : Text) (fuel n : ℕ)
    → n < suc fuel
    → last_name (child_path p (decimal (suc fuel) n)) ≡ decimal (suc fuel) n
decimal-child p fuel n h =
    last_name-child p (decimal (suc fuel) n) (count-digits _ (decimal-AreDigits (suc fuel) n))

strtoull-AreDigits :
    (xs : Text)
    → AreDigits xs
    → xs ≢ []
    → strtoull xs ≡ some (if leb (scan 0 xs) ullong_max then scan 0 xs else ullong_max)
strtoull-AreDigits [] d h = absurd (h refl)
strtoull-AreDigits (c ∷ cs) d h = strtoull-digits c cs d.0

decimal-nonempty : (fuel n : ℕ) → decimal (suc fuel) n ≢ []
unfolding decimal
decimal-nonempty fuel n h = append-nonempty _ _ _ h

-- An id that fits 64 bits, written in decimal as the last name of a path, is what `parse_id`
-- reads from the path.
pub parse_id-decimal :
    (p : Text) (n : ℕ) → n ≤ ullong_max → parse_id (child_path p (decimal (suc n) n)) ≡ n
unfolding parse_id
parse_id-decimal p n h = ground (
  arith,
  decimal-child p n n (omega arith),
  strtoull-AreDigits (decimal (suc n) n) (decimal-AreDigits (suc n) n) (decimal-nonempty n n),
  scan-decimal (suc n) n (omega arith),
)
