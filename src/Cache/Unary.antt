-- ===== src/Cache/Unary.antt =====
-- A concrete printer and parser of counters, which shows that the assumption on strconv can hold.
use vault.Common.{ℕ, zero, suc, String, ◌≡◌, refl, ap}
use vault.Cache.{Strconv}

abbrev pub print : ℕ → String
print zero = ""
print (suc n) = String.◌∷◌ "1" (print n)

abbrev pub read : String → ℕ
read String.[] = 0
read (String.◌∷◌ c s) = suc (read s)

pub read-print : (n : ℕ) → read (print n) ≡ n
read-print zero = refl
read-print (suc n) = ap suc (read-print n)

abbrev pub unary : Strconv
unary = record { format = print; parse = read; parse-format = λ n _. read-print n }
