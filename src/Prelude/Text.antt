-- ===== src/Prelude/Text.antt =====
-- Texts as lists of bytes.
use Prim.Native.Char.{code}
use Prim.Native.String.{String}
use hardware_server.Prelude.{
  ℕ, List, [], ◌∷◌, Bool, true, false, ◌||◌, ◌==◌, ◌≡◌, refl, arith, if◌then◌else◌,
}

abbrev pub Text : Type 0
Text = List ℕ

-- The bytes of an ASCII text.
abbrev pub codes : String → Text
codes String.[] = []
codes (String.◌∷◌ c s) = code c ∷ codes s

abbrev pub is_empty_text : Text → Bool
is_empty_text [] = true
is_empty_text (c ∷ s) = false

abbrev pub contains : ℕ → Text → Bool
contains c [] = false
contains c (x ∷ s) = x == c || contains c s

-- What a text is as a C string: a byte 0 ends it.
abbrev pub c_str : Text → Text
c_str [] = []
c_str (c ∷ s) = if c == 0 then [] else c ∷ c_str s

pub c_str_whole : (s : Text) → contains 0 s ≡ false → c_str s ≡ s
c_str_whole [] h = refl
c_str_whole (c ∷ s) h =
    let here : (c == 0) ≡ false = ground arith in
    let later : contains 0 s ≡ false = ground arith in rw (here, c_str_whole s later) refl
