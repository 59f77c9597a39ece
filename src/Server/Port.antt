-- ===== src/Server/Port.antt =====
-- The port file of the server (`readPort` of java/gazelle/private/servermanager/servermanager.go).
use Prim.Native.Nat.{◌*◌, ◌/◌, ◌%◌, ◌^◌}
use mathlib.Core.Option.{some-injective}
use rules_jvm.Prelude.{
  ap, ◌≤◌, sym, All, ℕ, zero, suc, ◌+◌, ◌-◌, ◌≤◌, ◌<◌, ◌≡◌, refl, Bool, true, false, ltb, ◌∙◌,
  dec_lt, subst, Option, none, some, [], ◌∷◌, Text, ℕ_discrete, arith, if◌then◌else◌,
}
use rules_jvm.Server.{
  ℤ, minus, pos, negsuc, parse_uint, signed, parse_int, digits, decimal, Poll, FileRead, absent,
  unreadable, contents, PortRead, port, port_in, timed_out, read_error, bad_port, read_port, looks,
}

-- The range of int32.
unfoldable pub InInt32 : ℤ → Type 0
InInt32 (pos n) = n < 2 ^ 31
InInt32 (negsuc n) = n < 2 ^ 31

signed-InInt32 : (negative : Bool) (t : Text) (p : ℤ) → signed negative t ≡ some p → InInt32 p
unfolding signed InInt32
signed-InInt32 negative [] p e = ground arith
signed-InInt32 negative (c ∷ s) p e = go negative (parse_uint (c ∷ s) 0) e
  where
    at : (q : ℤ) → InInt32 q → some q ≡ some p → InInt32 p
    at q h e' = subst InInt32 (some-injective q p e') h

    fits :
        (b : Bool) (n : ℕ)
        → (if b
            then (if ltb (2 ^ 31) n then none else some (minus n))
            else (if ltb (2 ^ 31 - 1) n then none else some (pos n)))
          ≡ some p
        → InInt32 p
    fits true zero e' = at (pos 0) (omega arith) e'
    fits true (suc n) e' = elim (dec_lt (2 ^ 31) (suc n)) [
      | yes m ↦ ground arith
      | no m ↦ at (negsuc n) (omega arith) (ground arith)
    ]
    fits false n e' = elim (dec_lt (2 ^ 31 - 1) n) [
      | yes m ↦ ground arith
      | no m ↦ at (pos n) (omega arith) (ground arith)
    ]

    go :
        (b : Bool) (o : Option ℕ)
        → (elim o [
          | none ↦ none
          | some n ↦
              if b
              then (if ltb (2 ^ 31) n then none else some (minus n))
              else (if ltb (2 ^ 31 - 1) n then none else some (pos n))
        ])
          ≡ some p
        → InInt32 p
    go b none e' = ground arith
    go b (some n) e' = fits b n e'

parse_uint-digits :
    (fuel n : ℕ) (out : Text)
    → n < 10 ^ suc fuel
    → n < 2 ^ 32
    → parse_uint (digits (suc fuel) n out) 0 ≡ parse_uint out n
unfolding parse_uint digits
parse_uint-digits zero n out h k = ground arith
parse_uint-digits (suc fuel) n out h k =
    let ih = parse_uint-digits fuel (n / 10) ((b'0' + n % 10) ∷ out) (omega arith) (omega arith) in
    ground (arith, ih)

-- A text that starts with a digit or something behind it.
IsNumber : Text → Type 0
IsNumber t = (d : ℕ) × (s : Text) × (t ≡ d ∷ s) × (b'0' ≤ d)

digits-IsNumber : (fuel n : ℕ) (out : Text) → IsNumber out → IsNumber (digits fuel n out)
unfolding digits IsNumber
digits-IsNumber zero n out h = h
digits-IsNumber (suc fuel) n out h = elim (dec_lt n 10) [
  | yes m ↦ (b'0' + n, out, ground arith, omega arith)
  | no m ↦
      let (d, s, e, k) =
        digits-IsNumber fuel (n / 10) ((b'0' + n % 10) ∷ out) (_, out, refl, omega arith) in
      (d, s, ground (arith, e), k)
]

digits-IsNumber_one : (fuel n : ℕ) → IsNumber (digits (suc fuel) n [])
unfolding digits IsNumber
digits-IsNumber_one fuel n = elim (dec_lt n 10) [
  | yes m ↦ (b'0' + n, [], ground arith, omega arith)
  | no m ↦
      let (d, s, e, k) =
        digits-IsNumber fuel (n / 10) ((b'0' + n % 10) ∷ []) (_, [], refl, omega arith) in
      (d, s, ground (arith, e), k)
]

signed-number :
    (t : Text) (n : ℕ) (negative : Bool)
    → IsNumber t
    → parse_uint t 0 ≡ some n
    → n < (if negative then 2 ^ 31 + 1 else 2 ^ 31)
    → signed negative t ≡ some (if negative then minus n else pos n)
unfolding signed IsNumber
signed-number [] n b (d, s, e, k) p h = ground arith
signed-number (c ∷ u) n true q p h = ground (arith, p)
signed-number (c ∷ u) n false q p h = ground (arith, p)

parse_int-plus : (t : Text) → IsNumber t → parse_int t ≡ signed false t
unfolding parse_int IsNumber signed
parse_int-plus [] q = refl
parse_int-plus (c ∷ s) (d, u, e, k) = ground (arith, e, k)

parse_int-minus : (t : Text) → parse_int (b'-' ∷ t) ≡ signed true t
unfolding parse_int ℕ_discrete
parse_int-minus t = refl

-- What is printed for a number in the range of int32 is read back as that number.
pub parse_int-decimal : (p : ℤ) → InInt32 p → parse_int (decimal p) ≡ some p
unfolding InInt32 parse_uint
parse_int-decimal (pos n) h =
    parse_int-plus _ (digits-IsNumber_one 9 n)
    ∙ signed-number _ n false (digits-IsNumber_one 9 n)
        (parse_uint-digits 9 n [] (omega arith) (omega arith)) h
parse_int-decimal (negsuc n) h =
    parse_int-minus _
    ∙ signed-number _ (suc n) true (digits-IsNumber_one 9 (suc n))
        (parse_uint-digits 9 (suc n) [] (omega arith) (omega arith)) (omega arith)

parse_int-InInt32 : (t : Text) (p : ℤ) → parse_int t ≡ some p → InInt32 p
unfolding parse_int
parse_int-InInt32 [] p e = ground arith
parse_int-InInt32 (c ∷ s) p e = elim (ℕ_discrete c b'-') [
  | yes m ↦ signed-InInt32 true s p (ground arith)
  | no m ↦ elim (ℕ_discrete c b'+') [
    | yes k ↦ signed-InInt32 false s p (ground arith)
    | no k ↦ signed-InInt32 false (c ∷ s) p (ground arith)
  ]
]

abbrev pub IsDigit : ℕ → Type 0
IsDigit c = (b'0' ≤ c) × (c ≤ b'9')

-- The number that digits stand for, behind the number before them.
pub value : Text → ℕ → ℕ
value [] n = n
value (c ∷ s) n = value s (n * 10 + (c - b'0'))

-- The texts of a decimal number: digits, at least one, behind a sign or none.
pub data Writes : Text → ℤ → Type 0 where
  unsigned : (c : ℕ) (s : Text) → All IsDigit (c ∷ s) → Writes (c ∷ s) (pos (value (c ∷ s) 0))
  plus : (c : ℕ) (s : Text) → All IsDigit (c ∷ s) → Writes (b'+' ∷ c ∷ s) (pos (value (c ∷ s) 0))
  negative :
      (c : ℕ) (s : Text) → All IsDigit (c ∷ s) → Writes (b'-' ∷ c ∷ s) (minus (value (c ∷ s) 0))

value-above : (s : Text) (n : ℕ) → n ≤ value s n
unfolding value
value-above [] n = omega arith
value-above (c ∷ s) n = omega (arith, value-above s (n * 10 + (c - b'0')))

parse_uint-value :
    (s : Text) (n : ℕ) → All IsDigit s → value s n < 2 ^ 32 → parse_uint s n ≡ some (value s n)
unfolding parse_uint value
parse_uint-value [] n d h = refl
parse_uint-value (c ∷ s) n d h = ground (
  arith,
  parse_uint-value s (n * 10 + (c - b'0')) d.1 h,
  value-above s (n * 10 + (c - b'0')),
  d.0,
  h,
)

minus_range : (n : ℕ) → InInt32 (minus n) → n ≤ 2 ^ 31
unfolding InInt32
minus_range zero h = omega arith
minus_range (suc n) h = omega arith

parse_int-sign : (t : Text) → parse_int (b'+' ∷ t) ≡ signed false t
unfolding parse_int ℕ_discrete
parse_int-sign t = refl

digit-IsNumber : (c : ℕ) (s : Text) → All IsDigit (c ∷ s) → IsNumber (c ∷ s)
unfolding IsNumber
digit-IsNumber c s d = (c, s, refl, d.0.0)

signed_unsigned :
    (c : ℕ) (s : Text)
    → All IsDigit (c ∷ s)
    → value (c ∷ s) 0 < 2 ^ 31
    → signed false (c ∷ s) ≡ some (pos (value (c ∷ s) 0))
signed_unsigned c s d h =
    signed-number (c ∷ s) (value (c ∷ s) 0) false (digit-IsNumber c s d)
      (parse_uint-value (c ∷ s) 0 d (omega (arith, h))) h

-- Every text of a number of int32 is read as that number.
parse_int-Writes : (t : Text) (p : ℤ) → Writes t p → InInt32 p → parse_int t ≡ some p
unfolding InInt32
parse_int-Writes _ _ (unsigned c s d) h =
    parse_int-plus (c ∷ s) (digit-IsNumber c s d) ∙ signed_unsigned c s d h
parse_int-Writes _ _ (plus c s d) h = parse_int-sign (c ∷ s) ∙ signed_unsigned c s d h
parse_int-Writes _ _ (negative c s d) h =
    let small = minus_range (value (c ∷ s) 0) h in
    parse_int-minus (c ∷ s)
    ∙ signed-number (c ∷ s) (value (c ∷ s) 0) true (digit-IsNumber c s d)
        (parse_uint-value (c ∷ s) 0 d (omega (arith, small))) (omega (arith, small))

-- The text of a number in the range of int32.
abbrev pub IsNumeral : Text → Type 0
IsNumeral t = (p : ℤ) × Writes t p × InInt32 p

-- A port is in the range of int32, and contents that are refused are no number of that range.
abbrev pub IsPort : PortRead → Type 0
IsPort (port p) = InInt32 p
IsPort timed_out = Unit
IsPort read_error = Unit
IsPort (bad_port t) = ¬ IsNumeral t

port_in-IsPort : (t : Text) → IsPort (port_in t)
port_in-IsPort t = go (parse_int t) refl
  where
    go : (o : Option ℤ) → parse_int t ≡ o → IsPort (elim o [ none ↦ bad_port t | some p ↦ port p ])
    go none e = λ (p, w, h). absurd (ground (arith, sym e ∙ parse_int-Writes t p w h))
    go (some p) e = parse_int-InInt32 t p e

-- The looks are ten milliseconds apart.
abbrev pub Sleeps : (ℕ → Poll) → Type 0
Sleeps polls = (i : ℕ) → (polls i).elapsed + 10 ≤ (polls (suc i)).elapsed

abbrev Ends : Option PortRead → Type 0
Ends o = (r : PortRead) × (o ≡ some r) × IsPort r

look-Ends :
    (late : Bool) (f : FileRead) (later : Option PortRead)
    → (late ≡ false → Ends later)
    → Ends (
        if late then some timed_out else elim f [
          | absent ↦ later
          | unreadable ↦ some read_error
          | contents t ↦ some (port_in t)
        ])
look-Ends true f later h = (timed_out, refl, tt)
look-Ends false absent later h = h refl
look-Ends false unreadable later h = (read_error, refl, tt)
look-Ends false (contents t) later h = (port_in t, refl, port_in-IsPort t)

read_port-Ends_from :
    (polls : ℕ → Poll) (fuel i : ℕ)
    → Sleeps polls
    → 10000 < (polls i).elapsed + 10 * fuel
    → Ends (read_port polls (suc fuel) i)
unfolding read_port
read_port-Ends_from polls zero i s h =
    look-Ends (ltb 10000 (polls i).elapsed) (polls i).file none (λ e. ground (arith, e))
read_port-Ends_from polls (suc fuel) i s h =
    look-Ends (ltb 10000 (polls i).elapsed) (polls i).file _
      (λ e. read_port-Ends_from polls fuel (suc i) s (omega (arith, s i)))

-- When two looks at the file are at least ten milliseconds apart, the wait for the port ends after 1002 looks at
-- most. A port that it returns is in the range of int32, and contents that it refuses are no number of that range.
pub read_port-Ends :
    (polls : ℕ → Poll)
    → Sleeps polls
    → (r : PortRead) × (read_port polls looks 0 ≡ some r) × IsPort r
read_port-Ends polls s = read_port-Ends_from polls 1001 0 s (omega arith)

first_look :
    (polls : ℕ → Poll) (fuel : ℕ) (t : Text)
    → (polls 0).elapsed ≤ 10000
    → (polls 0).file ≡ contents t
    → read_port polls (suc fuel) 0 ≡ some (port_in t)
unfolding read_port
first_look polls fuel t early file = rw file (ground (arith, early))

-- The port of the first look, when that is in time and shows a number of int32.
pub read_port-decimal :
    (polls : ℕ → Poll) (p : ℤ)
    → (polls 0).elapsed ≤ 10000
    → (polls 0).file ≡ contents (decimal p)
    → InInt32 p
    → read_port polls looks 0 ≡ some (port p)
read_port-decimal polls p early file range =
    first_look polls 1001 (decimal p) early file ∙ ap some (shown (parse_int-decimal p range))
  where
    shown : parse_int (decimal p) ≡ some p → port_in (decimal p) ≡ port p
    shown e = ap (λ o. elim o [ none ↦ bad_port (decimal p) | some q ↦ port q ]) e
