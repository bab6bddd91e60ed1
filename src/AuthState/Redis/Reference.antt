-- ===== src/AuthState/Redis/Reference.antt =====
-- A Redis whose commands never fail, as a dictionary: it meets the laws of the interface.
use Prim.Native.String.{◌++◌}
use text.Mathlib.TextPositions.{eq_refl}
use go_user_system.Common.{
  ℕ, zero, suc, ◌/◌, ◌%◌, String, Option, none, some, if◌then◌else◌, ltb, ◌==◌, ◌≡◌, ◌≢◌, refl, sym,
  ◌∙◌, ◌⊎◌, inl, inr, str_eq, eq_iff, Bool-cases, arith,
}
use go_user_system.Common.Int.{ℤ, pos, negsuc, ◌+ℤ◌}
use go_user_system.Common.Time.{Time, Duration, add}
use go_user_system.Common.Dict.{Dict, lookup, insert, erase, lookup-insert, lookup-erase}
use go_user_system.Result.{Result, ok}
use go_user_system.Config.{atoi}
use go_user_system.AuthState.Limits.{str_eq-false}
use go_user_system.AuthState.Redis.{
  Redis, Entry, Counted, Increments, unexpired_entry, text_of, pttl, sent_ttl,
}

abbrev digit : ℕ → String
digit n =
    if n == 0
    then "0"
    else if n == 1
    then "1"
    else if n == 2
    then "2"
    else if n == 3
    then "3"
    else if n == 4
    then "4"
    else if n == 5
    then "5"
    else if n == 6
    then "6"
    else if n == 7
    then "7"
    else if n == 8
    then "8"
    else "9"

-- A number of at most nineteen digits.
unfoldable pub numeral : ℕ → ℕ → String
numeral zero n = ""
numeral (suc fuel) n =
    let rest = numeral fuel (n / 10) in if ltb n 10 then digit n else rest ++ digit (n % 10)

abbrev number : Option Entry → ℤ
number none = pos 0
number (some e) = elim (atoi e.text) [ none ↦ pos 0 | some n ↦ n ]

abbrev written : ℤ → String
written (pos n) = numeral 19 n
written (negsuc n) = "-" ++ numeral 19 (suc n)

abbrev expiry_of : Option Entry → Time → Duration → Option Time
expiry_of none now window = some (add now (sent_ttl window))
expiry_of (some e) now window = elim e.expires_at [
  | none ↦ some (add now (sent_ttl window))
  | some t ↦ some t
]

abbrev pub Keyspace : Type 0
Keyspace = Dict Entry

abbrev seen : String → Time → Keyspace → Option Entry
seen key now s = unexpired_entry (lookup key s) now

-- INCR, then EXPIRE with NX.
abbrev counted : String → Duration → Time → Keyspace → Keyspace
counted key window now s =
    insert key
      (record {
        text = written (number (seen key now s) +ℤ pos 1);
        expires_at = expiry_of (seen key now s) now window;
      })
      s

abbrev read : String → String → Time → Keyspace → Counted
read key key' now s = record {
  account_value = text_of (seen key now s);
  ip_value = text_of (seen key' now s);
  account_ttl = pttl (seen key now s) now;
  ip_ttl = pttl (seen key' now s) now;
}

abbrev incremented : String → String → Time → Keyspace → Increments
incremented key key' now s = record {
  account_count = number (seen key now s);
  ip_count = number (seen key' now s);
  account_ttl = pttl (seen key now s) now;
  ip_ttl = pttl (seen key' now s) now;
}

abbrev found : Option Entry → ℤ
found none = pos 0
found (some e) = pos 1

pub lookup-insert_self :
    (key : String) (e : Entry) (s : Keyspace) → lookup key (insert key e s) ≡ some e
lookup-insert_self key e s = rw (lookup-insert key key e s, eq_refl key) refl

pub found_lem :
    (o : Option Entry) (n : ℤ)
    → ◌≡◌ {A = Result ℤ} (ok (found o)) (ok n)
    → n ≡ elim o [ none ↦ pos 0 | some e ↦ pos 1 ]
found_lem none n h = cc
found_lem (some e) n h = cc

pub read_lem :
    (key key' : String) (c : Counted) (now : Time) (s : Keyspace)
    → ◌≡◌ {A = Result Counted} (ok (read key key' now s)) (ok c)
    → c ≡ read key key' now s
read_lem key key' c now s h = cc

pub counted_keeps :
    (key other : String) (window : Duration) (now : Time) (s : Keyspace)
    → other ≢ key
    → lookup other (counted key window now s) ≡ lookup other s
counted_keeps key other window now s ne =
    rw (lookup-insert other key _ s, str_eq-false key other (λ e. ne (sym e))) refl

pub erased_keeps :
    (key other : String) (s : Keyspace) → other ≢ key → lookup other (erase key s) ≡ lookup other s
erased_keeps key other s ne =
    rw (lookup-erase other key s, str_eq-false key other (λ e. ne (sym e))) refl

-- What is entered stands under its own key only.
pub insert_cases :
    (key other : String) (e : Entry) (s : Keyspace)
    → (lookup other (insert key e s) ≡ lookup other s)
      ⊎ ((other ≡ key) × (lookup other (insert key e s) ≡ some e))
insert_cases key other e s = elim (Bool-cases (str_eq key other)) [
  | inr apart ↦ inl (lookup-insert other key e s ∙ rw apart refl)
  | inl same ↦ inr (ground (arith, eq_iff key other), lookup-insert other key e s ∙ rw same refl)
]

abbrev both_counted : String → String → Duration → Time → Keyspace → Keyspace
both_counted key key' window now s = counted key' window now (counted key window now s)

abbrev pub reference : Redis
reference = record {
  State = Keyspace;
  at_key = lookup;
  set = λ key text ttl now s.
      (ok tt, insert key (record { text = text; expires_at = some (add now (sent_ttl ttl)) }) s);
  exists = λ key now s. (ok (found (seen key now s)), s);
  read_two = λ key key' now s. (ok (read key key' now s), s);
  count_two = λ key key' window now s.
      let t = both_counted key key' window now s in (ok (incremented key key' now t), t);
  del = λ key now s. (ok tt, erase key s);
  set_lem = λ key text ttl now s h. lookup-insert_self key _ s;
  set_keeps = λ key text other ttl now s. insert_cases key other _ s;
  exists_lem = λ key n now s h. found_lem (seen key now s) n h;
  exists_keeps = λ key other now s e h. refl;
  read_two_lem = λ key key' c now s h. read_lem key key' c now s h;
  read_two_keeps = λ key key' other now s e h. refl;
  count_two_keeps = λ key key' other window now s e ne ne' h.
      counted_keeps key' other window now (counted key window now s) ne'
      ∙ counted_keeps key other window now s ne;
  del_keeps = λ key other now s e ne h. erased_keeps key other s ne;
}
