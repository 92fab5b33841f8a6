-- ===== src/Text/Split.antt =====
-- common/utilities.cpp: SplitStringA. Positions are natural numbers; `none` is std::string::npos.
pub mod Join
use hardware_server.Prelude.{
  ℕ, zero, suc, ◌+◌, ◌-◌, List, [], ◌∷◌, ◌++◌, Option, none, some, Bool, true, false, ◌&&◌, ◌||◌,
  ◌==◌, ltb, if◌then◌else◌, length, take, drop,
}
use hardware_server.Prelude.Text.{Text, is_empty_text}

unfoldable pub starts_with : Text → Text → Bool
starts_with [] s = true
starts_with (c ∷ d) [] = false
starts_with (c ∷ d) (x ∷ s) = c == x && starts_with d s

abbrev pub shift : ℕ → Option ℕ → Option ℕ
shift n none = none
shift n (some p) = some (n + p)

-- The first place in `s` where `d` stands.
unfoldable pub index_of : Text → Text → Option ℕ
unfolding starts_with
index_of d [] = if is_empty_text d then some 0 else none
index_of d (x ∷ s) = if starts_with d (x ∷ s) then some 0 else shift 1 (index_of d s)

-- strIn.find(strDelimiter, pos)
unfoldable pub find_at : Text → Text → ℕ → Option ℕ
unfolding index_of
find_at s d pos = if ltb (length s) pos then none else shift pos (index_of d (drop pos s))

-- The loop that collects the places of the delimiter, with a round for each byte and one more.
unfoldable pub positions : ℕ → Text → Text → Option ℕ → List ℕ
positions zero s d place = []
positions (suc f) s d none = []
positions (suc f) s d (some p) = let rest = positions f s d (find_at s d (p + length d)) in p ∷ rest

-- strIn.substr(pos, n)
abbrev pub substr : Text → ℕ → ℕ → Text
substr s pos n = take n (drop pos s)

abbrev pub push_back : Text → List Text → List Text
push_back piece ret = if is_empty_text piece then ret else piece ∷ ret

-- The pieces behind the delimiter at `prev`.
unfoldable pub pieces_behind : Text → ℕ → ℕ → List ℕ → List Text
pieces_behind s width prev [] =
    let offset = prev + width in push_back (if ltb offset (length s) then drop offset s else []) []
pieces_behind s width prev (p ∷ ps) =
    let offset = prev + width in
    push_back (if ltb offset (length s) then substr s offset (p - prev - width) else [])
      (pieces_behind s width p ps)

abbrev pub cut : Text → ℕ → List ℕ → List Text
cut s width [] = []
cut s width (p ∷ ps) = push_back (substr s 0 p) (pieces_behind s width p ps)

-- SplitStringA: the pieces in `ret`, and the number that is returned.
unfoldable pub split_string : Text → Text → List Text × ℕ
unfolding find_at positions pieces_behind
split_string s d = if is_empty_text d || is_empty_text s then ([], 0) else elim (find_at s d 0) [
  | none ↦ (s ∷ [], 1)
  | some p ↦
      let places = positions (suc (length s)) s d (some p) in
      (cut s (length d) places, length places)
]
