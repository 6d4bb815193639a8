-- ===== src/Duration.antt =====
-- Durations that a user writes: `ParseUserInputDuration` of mashery/parseutils.go. A text is the
-- list of its code points; the patterns are searched as `regexp` does, the leftmost match first.
use hcvault_mashery_api_auth.Prelude.{
  ℕ, ◌+◌, ◌-◌, ◌*◌, ◌^◌, ℤ, pos, ◌-ℤ◌, String, Bool, ◌&&◌, Option, none, some, List, [], ◌∷◌, ◌++◌,
  ltb, leb, eqb, if◌then◌else◌,
}
use Prim.Native.Char.{code}
use hcvault_mashery_api_auth.Prelude.{saturate64}
use hcvault_mashery_api_auth.Value.{Result, good}
use hcvault_mashery_api_auth.Time.{scale64}
use hcvault_mashery_api_auth.Env.{Env}

abbrev pub codes : String → List ℕ
codes String.[] = []
codes (String.◌∷◌ c s) = code c ∷ codes s

abbrev pub is_digit : ℕ → Bool
is_digit c = leb b'0' c && leb c b'9'

-- The digits before the first `unit` that follows a digit: the group of the pattern `(\d+)unit`.
-- `run` has the digits that end at this place.
unfoldable pub match_unit : ℕ → List ℕ → List ℕ → Option (List ℕ)
match_unit unit run [] = none
match_unit unit run (c ∷ cs) =
    let rest = match_unit unit (if is_digit c then run ++ c ∷ [] else []) cs in
    elim run [ [] ↦ rest | r ∷ rs ↦ if eqb c unit then some (r ∷ rs) else rest ]

-- The value of digits, the most significant one first.
unfoldable pub digits_value : ℕ → List ℕ → ℕ
digits_value acc [] = acc
digits_value acc (c ∷ cs) = digits_value (acc * 10 + (c - b'0')) cs

-- `strconv.Atoi` with its error dropped: past the range it is the greatest int64.
unfoldable pub atoi : List ℕ → ℕ
unfolding digits_value
atoi ds = let v = digits_value 0 ds in if ltb v (2 ^ 63) then v else 2 ^ 63 - 1

-- One or two digits, and what follows them.
abbrev pub one_or_two : List ℕ → Option (List ℕ × List ℕ)
one_or_two [] = none
one_or_two (a ∷ []) = if is_digit a then some (a ∷ [], []) else none
one_or_two (a ∷ b ∷ cs) =
    if is_digit a then if is_digit b then some (a ∷ b ∷ [], cs) else some (a ∷ [], b ∷ cs) else none

abbrev pub dash : List ℕ → Option (List ℕ)
dash [] = none
dash (c ∷ cs) = if eqb c b'-' then some cs else none

infixl 5 ◌>>=◌
abbrev ◌>>=◌ {ℓ κ} : {A : Type ℓ} {B : Type κ} → Option A → (A → Option B) → Option B
none >>= f = none
some a >>= f = f a

abbrev pub four_digits : List ℕ → Option (List ℕ × List ℕ)
four_digits (a ∷ b ∷ c ∷ d ∷ cs) =
    if is_digit a && is_digit b && is_digit c && is_digit d
    then some (a ∷ b ∷ c ∷ d ∷ [], cs)
    else none
four_digits _ = none

-- The groups of `(\d{4})-(\d{1,2})-(\d{1,2})` at the beginning of a text.
abbrev pub date_here : List ℕ → Option (List ℕ × List ℕ × List ℕ)
date_here cs = do
  (year, cs1) ← four_digits cs
  cs2 ← dash cs1
  (month, cs3) ← one_or_two cs2
  cs4 ← dash cs3
  (day, _) ← one_or_two cs4
  some (year, month, day)

unfoldable pub match_date : List ℕ → Option (List ℕ × List ℕ × List ℕ)
match_date [] = none
match_date (c ∷ cs) =
    let rest = match_date cs in elim (date_here (c ∷ cs)) [ some m ↦ some m | none ↦ rest ]

-- `time.Hour * 24`
abbrev pub day_ns : ℕ
day_ns = 24 * 3600 * 1000000000

-- `now` is the reading of the clock, from which a date is counted.
unfoldable pub parse_user_input_duration : Env → ℤ → String → Result ℤ
unfolding match_unit match_date atoi
parse_user_input_duration env now supplied_input =
    let cs = codes supplied_input in
    elim (match_unit b'd' [] cs) [
      | some days ↦ good (scale64 day_ns (pos (atoi days)))
      | none ↦ elim (match_unit b'w' [] cs) [
        | some weeks ↦ good (scale64 (7 * day_ns) (pos (atoi weeks)))
        | none ↦ elim (match_date cs) [
          | some (year, month, date) ↦
              good (saturate64 (env.date_utc (atoi year) (atoi month) (atoi date) -ℤ now))
          | none ↦ env.parse_duration supplied_input
        ]
      ]
    ]
