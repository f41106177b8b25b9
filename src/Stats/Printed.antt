-- ===== src/Stats/Printed.antt =====
-- The summary line tells the counters.
use mirror_agent.Base.{
  ℕ, Option, none, some, if◌then◌else◌, List, [], ◌∷◌, ◌++◌, ◌≡◌, Bytes, codes, length, drop, false,
}
use mathlib.Core.Option
use mirror_agent.Go.Strings.{has_prefix}
use mirror_agent.Go.Strconv.{decimal}
use mirror_agent.Go.Strconv.Digits.{is_digit, read_number}
use mirror_agent.Stats.{Stats}

-- What stands in front of each number.
abbrev pub labels : List Bytes
labels =
    codes "STATS  packets(recv="
    ∷ codes " drop="
    ∷ codes ")  streams(reaped="
    ∷ codes " parseErr="
    ∷ codes " assembled="
    ∷ codes ")  mirrors(skipped="
    ∷ codes " sent="
    ∷ codes " 2xx="
    ∷ codes " 4xx="
    ∷ codes " 5xx="
    ∷ codes " netErr="
    ∷ []

abbrev pub counters : Stats → List ℕ
counters s =
    s.packets_received ∷ s.packets_dropped ∷ s.streams_reaped ∷ s.parse_errors ∷ s.reqs_assembled
    ∷ s.mirrors_skipped ∷ s.mirrors_sent ∷ s.mirrors_2xx ∷ s.mirrors_4xx ∷ s.mirrors_5xx
    ∷ s.mirrors_error ∷ []

-- The labels and numbers in turn: `none` where another text than the label stands in front.
unfoldable pub read_fields : List Bytes → Bytes → Option (List ℕ)
read_fields [] s = some []
read_fields (label ∷ more) s =
    let read = read_number (drop (length label) s) 0 in
    let rest = read_fields more read.1 in
    if has_prefix s label then Option.map (λ ns. read.0 ∷ ns) rest else none

abbrev print_fields : List (Bytes × ℕ) → Bytes → Bytes
print_fields [] end = end
print_fields ((label, n) ∷ fs) end = label ++ (decimal n ++ print_fields fs end)

abbrev labels_of : List (Bytes × ℕ) → List Bytes
labels_of [] = []
labels_of ((label, n) ∷ fs) = label ∷ labels_of fs

abbrev numbers_of : List (Bytes × ℕ) → List ℕ
numbers_of [] = []
numbers_of ((label, n) ∷ fs) = n ∷ numbers_of fs

-- A label begins with no digit.
abbrev IsLabel : Bytes → Type 0
IsLabel [] = ⊥
IsLabel (c ∷ s) = is_digit c ≡ false

-- Each number with its label.
abbrev fields : List Bytes → List ℕ → List (Bytes × ℕ)
fields (l ∷ ls) (n ∷ ns) = (l, n) ∷ fields ls ns
fields _ _ = []
