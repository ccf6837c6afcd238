-- ===== src/Prelude/Text.antt =====
-- What the code uses of Python's `str`: `strip`, the test for blank text, `in`.
use Prim.Native.Nat.{ℕ}
use Prim.Native.Char.{code}
use Prim.Native.String.{String, [], ◌∷◌}
use mathlib.Core.Bool.{Bool, true, false, ◌&&◌, ◌||◌}
use mathlib.Core.Option.{none, some}
use text.Mathlib.Text.{find?}
use eag.Prelude.Tests.{if◌then◌else◌, ◌==◌, leb}

-- The code points for which `str.isspace` holds.
abbrev pub is_space : ℕ → Bool
is_space c =
    (leb 9 c && leb c 13)
    || ((leb 28 c && leb c 32)
        || (c == 133
            || (c == 160
                || (c == 5760
                    || ((leb 8192 c && leb c 8202)
                        || (c == 8232
                            || (c == 8233 || (c == 8239 || (c == 8287 || c == 12288)))))))))

-- `not value.strip()`
unfoldable pub is_blank : String → Bool
is_blank [] = true
is_blank (c ∷ s) = is_space (code c) && is_blank s

-- `value.strip()`, from its two ends.
abbrev pub strip_start : String → String
strip_start [] = []
strip_start (c ∷ s) = let rest = strip_start s in if is_space (code c) then rest else c ∷ s

abbrev pub strip_end : String → String
unfolding is_blank
strip_end [] = []
strip_end (c ∷ s) =
    let rest = strip_end s in if is_space (code c) && is_blank s then [] else c ∷ rest

unfoldable pub strip : String → String
strip s = strip_end (strip_start s)

-- `needle in text`
unfoldable pub contains : String → String → Bool
contains text needle = elim (find? text needle) [ none ↦ false | some i ↦ true ]
