-- ===== src/Text.antt =====
-- The operations of `str` that the program calls, on texts as lists of characters.
use Prim.Native.Char.{Char, code}
use Prim.Native.String.{[] as nothing, ◌∷◌ as prepend, ◌++◌ as append}
use spillover.Prelude.{
  ℕ, zero, suc, String, Bool, true, false, ◌&&◌, ◌||◌, List, [], ◌∷◌, leb, ◌==◌, str_eq,
  if◌then◌else◌,
}

-- `t.startswith(s)` and `s in t`
unfoldable pub starts_with : String → String → Bool
starts_with nothing t = true
starts_with (prepend a s) nothing = false
starts_with (prepend a s) (prepend b t) =
    let rest = starts_with s t in if code a == code b then rest else false

unfoldable pub occurs_in : String → String → Bool
occurs_in s nothing = starts_with s nothing
occurs_in s (prepend b t) = starts_with s (prepend b t) || occurs_in s t

-- `t[:n]`
unfoldable pub first_chars : ℕ → String → String
first_chars zero t = nothing
first_chars (suc n) nothing = nothing
first_chars (suc n) (prepend b t) = prepend b (first_chars n t)

-- The characters that `str.strip` removes.
unfoldable pub is_space : Char → Bool
is_space c =
    let n = code c in
    leb 9 n && leb n 13
    || leb 28 n && leb n 32
    || n == 133
    || n == 160
    || n == 5760
    || leb 8192 n && leb n 8202
    || leb 8232 n && leb n 8233
    || n == 8239
    || n == 8287
    || n == 12288

unfoldable pub lstrip : String → String
lstrip nothing = nothing
lstrip (prepend c s) = let rest = lstrip s in if is_space c then rest else prepend c s

unfoldable pub rstrip : String → String
rstrip nothing = nothing
rstrip (prepend c s) =
    let rest = rstrip s in if is_space c && str_eq rest "" then nothing else prepend c rest

unfoldable pub strip : String → String
strip s = rstrip (lstrip s)

-- `t[n:]`
unfoldable pub drop_chars : ℕ → String → String
drop_chars zero t = t
drop_chars (suc n) nothing = nothing
drop_chars (suc n) (prepend b t) = drop_chars n t

-- `sep.join(ts)`
unfoldable pub join : String → List String → String
join sep [] = nothing
join sep (t ∷ []) = t
join sep (t ∷ u ∷ us) = append t (append sep (join sep (u ∷ us)))

-- The characters at which `str.splitlines` ends a line.
unfoldable pub is_line_break : Char → Bool
is_line_break c =
    let n = code c in
    leb 10 n && leb n 13 || leb 28 n && leb n 30 || n == 133 || n == 8232 || n == 8233

-- A character in front of the first line.
abbrev pub onto_first : Char → List String → List String
onto_first c [] = prepend c nothing ∷ []
onto_first c (l ∷ ls) = prepend c l ∷ ls

-- `t.splitlines()`; the flag says that the character before was a carriage return.
unfoldable pub lines_from : Bool → String → List String
lines_from after_cr nothing = []
lines_from after_cr (prepend c t) =
    let skipped = lines_from false t in
    let ended = lines_from (code c == 13) t in
    if after_cr && code c == 10
    then skipped
    else if is_line_break c
    then nothing ∷ ended
    else onto_first c skipped

abbrev pub splitlines : String → List String
splitlines t = lines_from false t
