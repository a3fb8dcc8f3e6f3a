-- ===== src/Base/Text.antt =====
-- Texts walked by their characters.
use Prim.Native.Nat.{ℕ, zero, suc, ◌+◌, ◌≤◌}
use Prim.Native.Char.{code}
use Prim.Native.String.{String}
use mathlib.Core.Bool.{Bool, true, false, ◌&&◌}
use native.Mathlib.Omega.{arith}
use storm_pulse.Base.Tests.{leb, nat_beq, if◌then◌else◌}

-- len(s), in characters
abbrev pub text_length : String → ℕ
text_length String.[] = 0
text_length (String.◌∷◌ c s) = suc (text_length s)

-- s[:n]
abbrev pub take_chars : ℕ → String → String
take_chars zero s = ""
take_chars (suc n) String.[] = ""
take_chars (suc n) (String.◌∷◌ c s) = String.◌∷◌ c (take_chars n s)

-- s[n:]
abbrev pub drop_chars : ℕ → String → String
drop_chars zero s = s
drop_chars (suc n) String.[] = ""
drop_chars (suc n) (String.◌∷◌ c s) = drop_chars n s

-- all(p(ord(c)) for c in s)
abbrev pub all_chars : (ℕ → Bool) → String → Bool
all_chars p String.[] = true
all_chars p (String.◌∷◌ c s) = p (code c) && all_chars p s

pub text_length-take_chars-le : (n : ℕ) (s : String) → text_length (take_chars n s) ≤ n
text_length-take_chars-le zero s = omega arith
text_length-take_chars-le (suc n) String.[] = omega arith
text_length-take_chars-le (suc n) (String.◌∷◌ c s) = omega (arith, text_length-take_chars-le n s)

-- len(s.encode("utf-8"))
abbrev pub char_bytes : ℕ → ℕ
char_bytes c = if leb c 0x7f then 1 else if leb c 0x7ff then 2 else if leb c 0xffff then 3 else 4

abbrev pub utf8_length : String → ℕ
utf8_length String.[] = 0
utf8_length (String.◌∷◌ c s) = char_bytes (code c) + utf8_length s

-- s.startswith("--"), s.startswith("/")
abbrev pub is_flag : String → Bool
is_flag (String.◌∷◌ c (String.◌∷◌ d s)) = nat_beq (code c) b'-' && nat_beq (code d) b'-'
is_flag s = false

abbrev pub is_absolute : String → Bool
is_absolute String.[] = false
is_absolute (String.◌∷◌ c s) = nat_beq (code c) b'/'
