-- ===== src/Distributed/Protocol/Addresses.antt =====
-- Addresses `host:port`: what is printed is parsed back.
use traffic_emulator.Common.{
  ℕ, zero, suc, ◌+◌, ◌*◌, ◌-◌, ◌<◌, ◌≡◌, ◌≢◌, refl, ap, ◌∙◌, Bool, true, false, ◌&&◌, none, some,
  List, [], ◌∷◌, ◌++◌, all, ltb, ◌==◌, if◌then◌else◌, inl, inr, Bool-cases, arith,
}
use Prim.Native.Nat.{◌/◌, ◌%◌}
use traffic_emulator.Distributed.Protocol.{
  colon, is_digit, is_number, int_from, rpartition, host_and_port, or_else, parse_address, parsed,
}

-- `str(port)`, on fuel
abbrev decimal_from : ℕ → ℕ → List ℕ
decimal_from zero port = []
decimal_from (suc fuel) port =
    let rest = decimal_from fuel (port / 10) in
    if ltb port 10 then (48 + port) ∷ [] else rest ++ (48 + port % 10) ∷ []

pub decimal : ℕ → List ℕ
decimal port = decimal_from (suc port) port

int_from-append :
    (value : ℕ) (cs : List ℕ) (c : ℕ)
    → int_from value (cs ++ c ∷ []) ≡ int_from value cs * 10 + (c - 48)
int_from-append value [] c = refl
int_from-append value (d ∷ cs) c = int_from-append (value * 10 + (d - 48)) cs c

int_from-decimal_from : (fuel port : ℕ) → port < fuel → int_from 0 (decimal_from fuel port) ≡ port
int_from-decimal_from zero port h = absurd (omega arith)
int_from-decimal_from (suc fuel) port h = elim (Bool-cases (ltb port 10)) [
  | inl small ↦ rw small (omega arith)
  | inr large ↦ rw large (
      int_from-append 0 (decimal_from fuel (port / 10)) (48 + port % 10)
      ∙ omega (arith, int_from-decimal_from fuel (port / 10) (ground arith)))
]

all-append :
    (p : ℕ → Bool) (cs ds : List ℕ) → all p cs ≡ true → all p ds ≡ true → all p (cs ++ ds) ≡ true
all-append p [] ds h k = k
all-append p (c ∷ cs) ds h k = grind (arith, all-append p cs ds)

single_digit : (d : ℕ) → d < 10 → all is_digit ((48 + d) ∷ []) ≡ true
single_digit d h = ground arith

all_digits : (fuel port : ℕ) → all is_digit (decimal_from fuel port) ≡ true
all_digits zero port = refl
all_digits (suc fuel) port = elim (Bool-cases (ltb port 10)) [
  | inl small ↦ rw small (single_digit port (ground arith))
  | inr large ↦ rw large (
      all-append is_digit (decimal_from fuel (port / 10)) ((48 + port % 10) ∷ [])
        (all_digits fuel (port / 10)) (single_digit (port % 10) (omega arith)))
]

is_number-append :
    (cs : List ℕ) (c : ℕ) → all is_digit (cs ++ c ∷ []) ≡ true → is_number (cs ++ c ∷ []) ≡ true
is_number-append [] c h = h
is_number-append (d ∷ cs) c h = h

is_number-decimal : (port : ℕ) → is_number (decimal port) ≡ true
unfolding decimal
is_number-decimal port = elim (Bool-cases (ltb port 10)) [
  | inl small ↦ rw small (single_digit port (ground arith))
  | inr large ↦ rw large (
      is_number-append (decimal_from port (port / 10)) (48 + port % 10)
        (rw large at (all_digits (suc port) port)))
]

both_true : (a b : Bool) → (a && b) ≡ true → (a ≡ true) × (b ≡ true)
both_true a b h = ground arith

not_colon : (c : ℕ) → is_digit c ≡ true → (c == colon) ≡ false
not_colon c h = ground arith

-- digits hold no colon
rpartition-digits : (cs : List ℕ) → all is_digit cs ≡ true → rpartition cs ≡ none
rpartition-digits [] h = refl
rpartition-digits (c ∷ cs) h =
    let (digit, rest) = both_true (is_digit c) (all is_digit cs) h in
    rw (rpartition-digits cs rest, not_colon c digit) refl

rpartition-append :
    (host cs : List ℕ) → rpartition cs ≡ none → rpartition (host ++ colon ∷ cs) ≡ some (host, cs)
rpartition-append [] cs h = rw h refl
rpartition-append (c ∷ host) cs h = rw (rpartition-append host cs h) refl

parse_of_parts :
    (address host port : List ℕ) (default_port : ℕ)
    → rpartition address ≡ some (host, port)
    → is_number port ≡ true
    → parse_address address default_port ≡ (or_else host address, int_from 0 port)
unfolding parse_address
parse_of_parts address host port default_port h k =
    ap (parsed address default_port) (host_and_port_of address (host, port) h) ∙ rw k refl
  where
    host_and_port_of :
        (text : List ℕ) (parts : List ℕ × List ℕ)
        → rpartition text ≡ some parts
        → host_and_port text ≡ parts
    host_and_port_of text parts e = rw (e, host_and_port) refl

-- What is printed as `host:port`, with a host that is not empty and any port, is parsed to that host
-- and port; the host may itself hold colons.
pub parse_address-decimal :
    (host : List ℕ) (port default_port : ℕ)
    → host ≢ []
    → parse_address (host ++ colon ∷ decimal port) default_port ≡ (host, port)
unfolding decimal
parse_address-decimal host port default_port ne =
    parse_of_parts (host ++ colon ∷ decimal port) host (decimal port) default_port
      (rpartition-append host (decimal port)
        (rpartition-digits (decimal port) (all_digits (suc port) port)))
      (is_number-decimal port)
    ∙ ap (λ (h : List ℕ). (h, int_from 0 (decimal port)))
        (kept host (host ++ colon ∷ decimal port) ne)
    ∙ ap (λ (p : ℕ). (host, p)) (int_from-decimal_from (suc port) port (omega arith))
  where
    kept : (h other : List ℕ) → h ≢ [] → or_else h other ≡ h
    kept [] other ne = absurd (ne refl)
    kept (c ∷ h) other ne = refl
