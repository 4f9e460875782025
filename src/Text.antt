-- ===== src/Text.antt =====
-- std::string as the program uses it: a string is the list of its bytes. `find` is `none` where it
-- returns npos; npos + k wraps to k - 1, which `erase_to` writes out.
pub mod Search
pub mod Number
pub mod Join
pub mod Decimal
use Prim.Native.Char.{code}
use Prim.Native.String.{String}
use relay_dev.Common.{
  ℕ, zero, suc, ◌+◌, ◌-◌, Bool, true, false, ◌&&◌, List, [], ◌∷◌, map, Option, none, some, ◌==◌,
  if◌then◌else◌, leb, take, drop,
}
use mathlib.Core.Option

abbrev pub Bytes : Type 0
Bytes = List ℕ

-- The code points of a literal; every literal of the program is ASCII.
abbrev pub codes : String → Bytes
codes String.[] = []
codes (String.◌∷◌ c s) = code c ∷ codes s

-- `a == b`
unfoldable pub equal : Bytes → Bytes → Bool
equal [] [] = true
equal (x ∷ a) (y ∷ b) = x == y && equal a b
equal _ _ = false

-- `s[0]`; the terminating NUL stands behind the last byte.
unfoldable pub front : Bytes → ℕ
front [] = 0
front (x ∷ s) = x

-- `s.find(c)` for a text of one byte
unfoldable pub find_char : ℕ → Bytes → Option ℕ
find_char c [] = none
find_char c (x ∷ s) = if x == c then some 0 else Option.map suc (find_char c s)

-- `s.substr(0, p)`
unfoldable pub substr_to : Option ℕ → Bytes → Bytes
substr_to none s = s
substr_to (some i) s = take i s

-- `s.erase(0, p + k)`
unfoldable pub erase_to : ℕ → Option ℕ → Bytes → Bytes
erase_to k (some i) s = drop (i + k) s
erase_to zero none s = []
erase_to (suc k) none s = drop k s

-- `s.substr(0, s.find(c))`
unfoldable pub cell : ℕ → Bytes → Bytes
unfolding find_char substr_to
cell c s = substr_to (find_char c s) s

-- `s.erase(0, s.find(c) + k)`
unfoldable pub after_cell : ℕ → ℕ → Bytes → Bytes
unfolding find_char erase_to
after_cell k c s = erase_to k (find_char c s) s

unfoldable pub is_digit : ℕ → Bool
is_digit c = leb b'0' c && leb c b'9'

-- `toupper` in the "C" locale
unfoldable pub upper : ℕ → ℕ
upper c = if leb b'a' c && leb c b'z' then c - 32 else c

unfoldable pub starts_with : Bytes → Bytes → Bool
starts_with [] s = true
starts_with (p ∷ ps) [] = false
starts_with (p ∷ ps) (c ∷ s) = p == c && starts_with ps s

-- `s.find(p)` for a text of any length
unfoldable pub find_text : Bytes → Bytes → Option ℕ
unfolding starts_with
find_text p [] = if starts_with p [] then some 0 else none
find_text p (c ∷ s) = if starts_with p (c ∷ s) then some 0 else Option.map suc (find_text p s)

-- `s.find(p) != std::string::npos`
unfoldable pub contains : Bytes → Bytes → Bool
unfolding find_text
contains s p = elim (find_text p s) [ none ↦ false | some i ↦ true ]

unfoldable pub last : Bytes → Option ℕ
last [] = none
last (x ∷ []) = some x
last (x ∷ y ∷ s) = last (y ∷ s)

-- `while (s[0] == ' ') s.erase(s.begin())`
unfoldable pub skip_blanks : Bytes → Bytes
skip_blanks [] = []
skip_blanks (x ∷ s) = if x == b' ' then skip_blanks s else x ∷ s
