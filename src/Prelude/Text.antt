-- ===== src/Prelude/Text.antt =====
-- JavaScript's truth of strings, and equality of optional strings (`null` is `none`).
use Prim.Native.String
use Prim.Native.String.compare
use Prim.Native.String.{String}
use mathlib.Core.Path.{◌≡◌, refl, sym, ap, ◌∙◌}
use mathlib.Core.Logic.{◌↔◌}
use mathlib.Core.Bool.{Bool, true, false, not}
use mathlib.Core.Option.{Option, none, some}
use native.Mathlib.Omega.{arith}
use text.Mathlib.Text.{◌==◌ as str_eq, find?, is_eq}
use mathlib.Core.Bool.{◌&&◌, ◌||◌}
use optiflow.Prelude.Tests.{leb, is_some}
use Prim.Native.Nat.{ℕ, ◌+◌, ◌≤◌}
use Prim.Native.Char.{Char, code}
use optiflow.Prelude.Tests.{ltb, if◌then◌else◌, ◌==◌}
use text.Mathlib.TextEquality.{eq_iff}

-- `!!s` of a string
abbrev pub truthy : String → Bool
truthy s = not (str_eq s "")

-- `!!s` of a string or null
abbrev pub is_truthy : Option String → Bool
is_truthy none = false
is_truthy (some s) = truthy s

-- `a === b` of two strings or nulls
abbrev pub option_eq : Option String → Option String → Bool
option_eq none none = true
option_eq none (some t) = false
option_eq (some s) none = false
option_eq (some s) (some t) = str_eq s t

pub option_eq_iff : (a b : Option String) → (option_eq a b ≡ true) ↔ (a ≡ b)
option_eq_iff none none = (λ _. refl, λ _. refl)
option_eq_iff none (some t) = (λ h. cc, λ h. cc)
option_eq_iff (some s) none = (λ h. cc, λ h. cc)
option_eq_iff (some s) (some t) =
    (λ h. ap some ((eq_iff s t).0 h), λ h. (eq_iff s t).1 (ground arith))

-- A template literal's concatenation.
abbrev pub concat : String → String → String
concat s t = String.◌++◌ s t

-- `s.length`: UTF-16 code units
abbrev pub js_length : String → ℕ
js_length String.[] = 0
js_length (String.◌∷◌ c s) = (if ltb (code c) 65536 then 1 else 2) + js_length s

-- `len(s)` of Go: the bytes of UTF-8
abbrev pub utf8_length : String → ℕ
utf8_length String.[] = 0
utf8_length (String.◌∷◌ c s) =
    (if ltb (code c) 128
      then 1
      else (if ltb (code c) 2048 then 2 else (if ltb (code c) 65536 then 3 else 4)))
    + utf8_length s

-- a text has no more UTF-16 code units than bytes
pub js_length-utf8_length : (s : String) → js_length s ≤ utf8_length s
js_length-utf8_length String.[] = omega arith
js_length-utf8_length (String.◌∷◌ c s) = ground (arith, js_length-utf8_length s)

until_dot : String → String
until_dot String.[] = ""
until_dot (String.◌∷◌ c s) =
    let rest = until_dot s in if code c == b'.' then "" else String.◌∷◌ c rest

-- `s.split(".")[1]`
unfoldable pub split_second : String → Option String
unfolding until_dot
split_second String.[] = none
split_second (String.◌∷◌ c s) =
    let later = split_second s in if code c == b'.' then some (until_dot s) else later

-- ECMAScript's WhiteSpace and LineTerminator, which `trim` takes away
abbrev pub is_space : ℕ → Bool
is_space n =
    (leb 9 n && leb n 13)
    || (n == 32
        || (n == 160
            || (n == 0x1680
                || ((leb 0x2000 n && leb n 0x200a)
                    || (n == 0x2028
                        || (n == 0x2029
                            || (n == 0x202f || (n == 0x205f || (n == 0x3000 || n == 0xfeff)))))))))

-- `!s.trim()`
unfoldable pub is_blank : String → Bool
is_blank String.[] = true
is_blank (String.◌∷◌ c s) = is_space (code c) && is_blank s

-- `s.includes(t)`
unfoldable pub includes : String → String → Bool
includes s t = is_some (find? s t)

unfoldable pub trim_start : String → String
trim_start String.[] = ""
trim_start (String.◌∷◌ c s) =
    let rest = trim_start s in if is_space (code c) then rest else String.◌∷◌ c s

unfoldable pub trim_end : String → String
unfolding is_blank
trim_end String.[] = ""
trim_end (String.◌∷◌ c s) =
    let rest = trim_end s in if is_space (code c) && is_blank s then "" else String.◌∷◌ c rest

-- `s.trim()`
abbrev pub trim : String → String
trim s = trim_end (trim_start s)

pub truthy_cons : (c : Char) (s : String) → truthy (String.◌∷◌ c s) ≡ true
truthy_cons c s = ap (λ o. not (is_eq o)) (compare.cons-nil c s)

trim_end_step :
    (space blank : Bool) (c : Char) (r : String)
    → truthy (if space && blank then "" else String.◌∷◌ c r) ≡ not (space && blank)
trim_end_step true true c r = refl
trim_end_step true false c r = truthy_cons c r
trim_end_step false blank c r = truthy_cons c r

trim_end_kept : (s : String) → truthy (trim_end s) ≡ not (is_blank s)
unfolding trim_end is_blank
trim_end_kept String.[] = refl
trim_end_kept (String.◌∷◌ c s) = trim_end_step (is_space (code c)) (is_blank s) c (trim_end s)

trim_start_step :
    (space : Bool) (c : Char) (s : String)
    → is_space (code c) ≡ space
    → is_blank (trim_start s) ≡ is_blank s
    → is_blank (if space then trim_start s else String.◌∷◌ c s) ≡ is_blank (String.◌∷◌ c s)
unfolding is_blank
trim_start_step true c s q h = h ∙ sym (ap (λ b. b && is_blank s) q)
trim_start_step false c s q h = refl

is_blank-trim_start : (s : String) → is_blank (trim_start s) ≡ is_blank s
unfolding trim_start
is_blank-trim_start String.[] = refl
is_blank-trim_start (String.◌∷◌ c s) =
    trim_start_step (is_space (code c)) c s refl (is_blank-trim_start s)

-- a text is left by `trim` exactly if it is not blank
pub truthy-trim : (s : String) → truthy (trim s) ≡ not (is_blank s)
truthy-trim s = trim_end_kept (trim_start s) ∙ ap not (is_blank-trim_start s)
