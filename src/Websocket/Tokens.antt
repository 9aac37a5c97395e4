-- ===== src/Websocket/Tokens.antt =====
-- websocket/handshake.go: the tokens of header values, compared without case and without blanks round
-- them.
use connaxis.Prelude.{
  ℕ, ◌+◌, ◌&&◌, ◌||◌, Bool, true, false, [], ◌∷◌, Bytes, leb, ◌==◌, if◌then◌else◌,
}
use connaxis.Prelude.Lists.{length}

pub is_blank : ℕ → Bool
is_blank b = b == 32 || b == 9

-- The first loop of `trim`.
pub trim_left : Bytes → Bytes
unfolding is_blank
trim_left [] = []
trim_left (b ∷ bs) = let rest = trim_left bs in if is_blank b then rest else b ∷ bs

-- The second loop, from the end: a blank goes if all behind it went.
pub trim_right : Bytes → Bytes
unfolding is_blank
trim_right [] = []
trim_right (b ∷ bs) =
    let rest = trim_right bs in if is_blank b && length rest == 0 then [] else b ∷ rest

-- `trim`
pub trim : Bytes → Bytes
unfolding trim_left trim_right
trim bs = trim_right (trim_left bs)

-- The lower case of an ASCII letter.
pub lower : ℕ → ℕ
lower b = if leb 65 b && leb b 90 then b + 32 else b

-- `equalFoldASCII`
pub equal_fold_ascii : Bytes → Bytes → Bool
unfolding lower
equal_fold_ascii [] [] = true
equal_fold_ascii [] (b ∷ bs) = false
equal_fold_ascii (a ∷ rest) [] = false
equal_fold_ascii (a ∷ rest) (b ∷ bs) = lower a == lower b && equal_fold_ascii rest bs
